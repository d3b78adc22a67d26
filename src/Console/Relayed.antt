-- ===== src/Console/Relayed.antt =====
-- The key 3 of the Linux client, through the daemon to the driver, and back to its scale.
use irbridge.Base.{
  ℕ, ◌+◌, ◌<◌, ◌≡◌, refl, ap, ◌∙◌, true, false, some, List, [], ◌∷◌, ◌++◌, ok, ◌>>=◌, All,
  Allocates, arith,
}
use irbridge.Console.{Console, on_key}
use irbridge.Unkn0.{unkn0_t0, unkn0_t1}
use irbridge.Bitops.Unpacking.{bit_chars}
use irbridge.Console.Weight.{weight_bytes, heavy, heavy_passes, weight_words, on_key-weight}
use irbridge.Daemon.{Ready, ready, again, Daemon, forward, round}
use irbridge.Daemon.Forward.{round-forward}
use irbridge.Daemon.Infrared.{relayed}
use irbridge.Daemon.Weight.{round-measured}
use irbridge.Daemon.Words.{bytes_of, length-bytes_of}
use irbridge.Decoder.Protocol.{buf_of}
use irbridge.Encoder.{received, length-word_pairs}
use irbridge.Server.Contract.{Holds}
use irbridge.Starfrit.{measured}
use irbridge.Starfrit.Floats.{Float}

-- The bits of the key's test bytes.
abbrev weight_text : List ℕ
weight_text = bit_chars 39 weight_bytes

module _ (fl : Float) (alloc : ℕ → List ℕ) (time : ℕ → ℕ) where
  -- The daemon's state after the words have been written to the driver.
  abbrev pub written : Daemon fl → Daemon fl
  written d = record d { relay = forward (bytes_of weight_words) d.relay }

  -- With an allocator that gives blocks of the size asked for, the key 3 of the Linux client sends
  -- the words of its test bytes. Let the bytes of these words come from client `c`, a socket above
  -- 0, in a round of the daemon in which neither the driver, nor the connection socket, nor a
  -- client before `c` in the table is ready; and let the driver give the words as they are received
  -- in the next round, with the scale on and its decoder empty. Then the words are written to the
  -- driver in the first round; in the second, every client is sent what was received, and the scale
  -- takes it for a measurement of 88.3 kg at the time of the next call of `time`; if that
  -- measurement succeeds the decoder is empty again.
  pub on_key-relayed :
      (before after : List ℕ) (c fd sock : ℕ) (r r' : Ready) (σ : Console) (d : Daemon fl)
      → Allocates alloc
      → Holds (before ++ (c ∷ after)) d.relay.server
      → r.is_ready fd ≡ false
      → r.is_ready sock ≡ false
      → All (λ b. r.is_ready b ≡ false) before
      → 0 < c
      → r.is_ready c ≡ true
      → r.received c ≡ some (bytes_of weight_words)
      → r'.is_ready fd ≡ true
      → r'.ir ≡ some (bytes_of (received 0 weight_words))
      → d.decoder ≡ buf_of []
      → (on_key alloc b'3' σ
          ≡ ok (false, record σ { sent_words = σ.sent_words ++ (weight_words ∷ []) }))
        × ((round fl alloc time true fd sock (ready r) d >>= λ x.
              round fl alloc time true fd sock (ready r') x.1)
            ≡ (measured fl
                  (fl.tenths 883)
                  (time d.scale.times)
                  (record d.scale { times = d.scale.times + 1 })
                >>= λ scale. ok (
                  again,
                  record (relayed fl alloc time
                      (before ++ (c ∷ after))
                      (received 0 weight_words)
                      (written d)) { scale = scale; decoder = buf_of [] },
                )))
  on_key-relayed before after c fd sock r r' σ d fresh h off old quiet pos on sends on' gives dec =
      let cs = before ++ (c ∷ after) in
      let held : Holds cs (written d).relay.server = h in
      (
        on_key-weight alloc σ fresh,
        ap (λ m. m >>= λ x. round fl alloc time true fd sock (ready r') x.1)
              (round-forward fl alloc time true before after (bytes_of weight_words) c fd sock r d h
                off old quiet pos on sends
                (omega (
                  arith,
                  length-bytes_of weight_words,
                  length-word_pairs unkn0_t0 unkn0_t1 weight_text,
                )))
            ∙ round-measured fl alloc time heavy cs fd sock r' (written d) fresh
                (record {
                  trail_lt = omega arith;
                  head_lt = omega arith;
                  msb_lt = omega arith;
                  lsb_lt = omega arith;
                })
                refl (omega arith) heavy_passes held on' gives dec,
      )
