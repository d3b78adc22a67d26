-- ===== src/Daemon/Infrared.antt =====
-- Words from the infrared driver on their way to the clients and to the scale
-- (raspberrypi/irbrgd/main.c:370).
use irbridge.Base.{
  ℕ, ◌-◌, ◌%◌, ◌^◌, ◌<◌, ◌≡◌, ◌≢◌, refl, ap, ◌∙◌, true, none, some, List, ◌++◌, map, ok, fault,
  ◌>>=◌, >>=-assoc, All, Allocates, length, take-append, drop, ltb, arith,
}
use irbridge.Decoder.Frames.{Fits, cut}
use irbridge.Decoder.Protocol.{buf_of}
use irbridge.Decoder.Refine.{bytes}
use irbridge.Chars.{IsBit}
use irbridge.Server.{sent}
use irbridge.Server.Contract.{Holds}
use irbridge.Server.Broadcast.{write_toallclients-map}
use irbridge.Starfrit.Floats.{Float}
use irbridge.Starfrit.Stream.{weigh_all, starfrit_process-weigh_all}
use irbridge.Starfrit.Unaligned.{starfrit_process-unaligned}
use irbridge.Unkn0.Symbols.{unkn0_symbol}
use irbridge.Daemon.{Ready, ready, again, Relay, Daemon, into, pass_on, weigh, from_driver, round}
use irbridge.Daemon.Watch.{watch_all-watched}
use irbridge.Daemon.Words.{words_in, bytes_of, IsWord, length-bytes_of, words_in-bytes_of}

-- The clients have been sent the words `ws`.
abbrev pub told_all : List ℕ → List ℕ → Relay → Relay
told_all cs ws d = record d {
  server = record d.server { events = d.server.events ++ map (λ c. sent c (bytes_of ws)) cs };
  buffer = into d.buffer (bytes_of ws);
}

pub pass_on-told_all :
    (cs ws : List ℕ) (d : Relay)
    → Holds cs d.server
    → 0 < length ws
    → pass_on (bytes_of ws) d ≡ ok (told_all cs ws d)
unfolding pass_on
pass_on-told_all cs ws d h some_words =
    let more : ltb 0 (length (bytes_of ws)) ≡ true = ground (arith, length-bytes_of ws) in
    let relay =
      write_toallclients-map cs (into d.buffer (bytes_of ws)) (length (bytes_of ws)) d.server h
      ∙ ap (λ l. ok (record d.server { events = d.server.events ++ map (λ c. sent c l) cs }))
          (take-append (bytes_of ws) (drop (length (bytes_of ws)) d.buffer) (length (bytes_of ws))
            refl) in
    rw (more, relay) refl

module _ (fl : Float) (alloc : ℕ → List ℕ) (time : ℕ → ℕ) where
  -- The state of the loop once the clients have been sent the words `ws`, but for the scale.
  abbrev pub relayed : List ℕ → List ℕ → Daemon fl → Daemon fl
  relayed cs ws d = record d { relay = told_all cs ws d.relay }

  -- Let a read of the driver return some whole words, less than 2 ^ 32 bytes of them, while the
  -- scale is on, the table holds the clients `cs` and the scale's decoder holds a string of bits
  -- that fits. In that round every client is sent the words' bytes once, in the order of the table,
  -- and the scale looks once at the packed bytes of each frame of the stream, in order; the decoder
  -- is left with the bits of the unfinished frame.
  pub round-infrared :
      (cs ws bits : List ℕ) (fd sock : ℕ) (r : Ready) (d : Daemon fl)
      → Allocates alloc
      → Holds cs d.relay.server
      → r.is_ready fd ≡ true
      → r.ir ≡ some (bytes_of ws)
      → 0 < length ws
      → bytes ws < 2 ^ 32
      → All IsWord ws
      → d.decoder ≡ buf_of bits
      → Fits bits
      → All IsBit bits
      → let c = cut unkn0_symbol bits ws in
        round fl alloc time true fd sock (ready r) d ≡ (
          weigh_all fl alloc time c.frames d.scale >>= λ scale.
          ok (again, record (relayed cs ws d) { scale = scale; decoder = buf_of c.open_bits }))
  unfolding round from_driver weigh
  round-infrared cs ws bits fd sock r d fresh h on from some_words size words dec fits bs =
      let behind = drop (length (bytes_of ws)) d.relay.buffer in
      rw
        (
          watch_all-watched cs fd sock d.relay.server h,
          on,
          from,
          pass_on-told_all cs ws d.relay h some_words,
          dec,
          words_in-bytes_of ws behind words,
          length-bytes_of ws,
          starfrit_process-weigh_all fl alloc time ws (words_in (drop (bytes ws) d.relay.buffer))
              bits d.scale fresh size fits bs,
        )
        (>>=-assoc (weigh_all fl alloc time (cut unkn0_symbol bits ws).frames d.scale >>= _) _ _
          ∙ >>=-assoc (weigh_all fl alloc time (cut unkn0_symbol bits ws).frames d.scale) _ _)

  -- A round in which the read of the driver fails, while the scale is on, the table holds clients
  -- and the scale's decoder holds bits that fit, ends in a fault.
  pub round_read_error :
      (cs bits : List ℕ) (fd sock : ℕ) (r : Ready) (d : Daemon fl)
      → Holds cs d.relay.server
      → r.is_ready fd ≡ true
      → r.ir ≡ none
      → d.decoder ≡ buf_of bits
      → Fits bits
      → round fl alloc time true fd sock (ready r) d ≡ fault
  unfolding round from_driver weigh
  round_read_error cs bits fd sock r d h on from dec fits =
      let len : (2 ^ 32 - 1) % 4 ≢ 0 = omega arith in
      rw
        (
          watch_all-watched cs fd sock d.relay.server h,
          on,
          from,
          dec,
          starfrit_process-unaligned fl alloc time (words_in d.relay.buffer) bits (2 ^ 32 - 1)
              d.scale len fits,
        )
        refl
