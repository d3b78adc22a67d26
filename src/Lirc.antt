-- ===== src/Lirc.antt =====
-- ircodec/include/lirc.h: a `lirc_t` word is an unsigned 32-bit number that holds a duration in
-- microseconds in its low 24 bits and the kind of the level, pulse or space, in bit 24.
-- `size_t` has 32 bits, as on the Raspberry Pi and the 32-bit Android targets.
use irbridge.Base.{ℕ, ◌+◌, ◌-◌, ◌%◌, ◌^◌, Bool, bit_and, not, ◌==◌}

abbrev pub pulse_bit : ℕ
pulse_bit = 0x01000000

abbrev pub pulse_mask : ℕ
pulse_mask = 0x00ffffff

-- `data & PULSE_BIT` as a C truth value.
unfoldable pub is_pulse : ℕ → Bool
is_pulse word = not (bit_and word pulse_bit == 0)

-- `data & PULSE_MASK`.
unfoldable pub duration : ℕ → ℕ
duration word = bit_and word pulse_mask

-- sizeof(lirc_t)
abbrev pub lirc_size : ℕ
lirc_size = 4

-- `len -= n` on a `size_t`, which wraps.
abbrev pub size_sub : ℕ → ℕ → ℕ
size_sub len n = (len + 2 ^ 32 - n) % 2 ^ 32
