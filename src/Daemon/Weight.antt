-- ===== src/Daemon/Weight.antt =====
-- A weight that the infrared driver gives, in a round of the main loop
-- (raspberrypi/irbrgd/main.c:370).
use irbridge.Base.{
  ℕ, ◌+◌, ◌*◌, ◌<◌, ◌≡◌, ap₂, ◌∙◌, true, some, List, [], Allocates, ok, ◌>>=◌, length, arith,
}
use irbridge.Bitops.Unpacking.{bit_chars, length-bit_chars}
use irbridge.Daemon.{Ready, ready, again, Daemon, round}
use irbridge.Daemon.Infrared.{relayed, round-infrared}
use irbridge.Daemon.Words.{bytes_of}
use irbridge.Decoder.Protocol.{buf_of}
use irbridge.Loopback.Codecs.{unkn0-Codec, received-text}
use irbridge.Server.Contract.{Holds}
use irbridge.Starfrit.{Frame, check_sum, measured}
use irbridge.Starfrit.Checksum.{IsBytes}
use irbridge.Starfrit.Floats.{Float}
use irbridge.Starfrit.Weigh.{on_air, length-on_air, sent, cut-sent}

module _ (fl : Float) (alloc : ℕ → List ℕ) (time : ℕ → ℕ) where
  pub round-measured :
      (f : Frame) (cs : List ℕ) (fd sock : ℕ) (r : Ready) (d : Daemon fl)
      → Allocates alloc
      → IsBytes f
      → f.trail ≡ 0xab
      → f.check < 256
      → check_sum f ≡ f.check
      → Holds cs d.relay.server
      → r.is_ready fd ≡ true
      → r.ir ≡ some (bytes_of (on_air (bit_chars 39 (sent f))))
      → d.decoder ≡ buf_of []
      → round fl alloc time true fd sock (ready r) d ≡ (
          measured fl
            (fl.tenths (f.msb * 256 + f.lsb))
            (time d.scale.times)
            (record d.scale { times = d.scale.times + 1 })
          >>= λ scale. ok (
            again,
            record (relayed fl alloc time cs (on_air (bit_chars 39 (sent f))) d) {
              scale = scale;
              decoder = buf_of [];
            },
          ))
  unfolding unkn0-Codec
  round-measured f cs fd sock r d fresh h t k e holds on from dec =
      let text = bit_chars 39 (sent f) in
      let rx = on_air text in
      let len : length text ≡ 39 = length-bit_chars (sent f) 39 (omega arith) in
      let (weighed, none_open) = cut-sent fl alloc time f d.scale h t k e in
      round-infrared fl alloc time cs rx [] fd sock r d fresh holds on from
        (omega (arith, length-on_air text)) (omega (arith, length-on_air text))
        (received-text (unkn0-Codec alloc fresh) text) dec (omega arith) tt
      ∙ ap₂
          (λ m bits. m >>= λ scale. ok (
            again,
            record (relayed fl alloc time cs rx d) { scale = scale; decoder = buf_of bits },
          ))
          weighed none_open
