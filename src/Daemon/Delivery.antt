-- ===== src/Daemon/Delivery.antt =====
-- What a client that stays connected gets over a run of the main loop, and what the scale gets
-- (raspberrypi/irbrgd/main.c:336).
use mathlib.Core.Path.{subst}
use irbridge.Base.{
  ℕ, ◌^◌, ◌≤◌, ◌<◌, ◌≡◌, refl, sym, ap, ◌∙◌, true, false, none, some, List, [], ◌∷◌, ◌++◌, map,
  append-nil, ok, All, Allocates, length, drop, arith,
}
use irbridge.Chars.{IsBit}
use irbridge.Daemon.{Ready, Relay, Daemon, pass_on, weigh, from_driver}
use irbridge.Daemon.Infrared.{told_all, pass_on-told_all}
use irbridge.Daemon.Serve.{hangs_up}
use irbridge.Daemon.Words.{words_in, bytes_of, IsWord, length-bytes_of, words_in-bytes_of}
use irbridge.Decoder.Drain.Chunks.{open-Fits}
use irbridge.Decoder.Frames.{Fits, cut}
use irbridge.Decoder.Protocol.{buf_of}
use irbridge.Decoder.Refine.{bytes}
use irbridge.FrameBits.{cut-Bits}
use irbridge.Server.{sent}
use irbridge.Server.Contract.{Holds, Holds-events}
use irbridge.Server.Inbox.{occurs, sent_to, sent_to-append, sent_to-map}
use irbridge.Starfrit.Floats.{Float}
use irbridge.Starfrit.Steady.{Fitting, weigh_all-Steady}
use irbridge.Starfrit.Stream.{unkn0-binary, weigh_all, starfrit_process-weigh_all}
use irbridge.Unkn0.Symbols.{unkn0_symbol}

-- That a client stays connected in a round, and its socket is not given to another.
pub record Stays (c : ℕ) (r : Ready) : Type 0 where
  pub open_still : hangs_up r c ≡ false
  pub own_socket : occurs c (elim r.accepted [ none ↦ [] | some x ↦ x ∷ [] ]) ≡ 0

module _ (fl : Float) (alloc : ℕ → List ℕ) (time : ℕ → ℕ) where
  -- That the table holds at most `n` clients, `c` among them once, the decoder holds `bits`, and the
  -- commands for the scale's clients fit.
  pub record Listens (c n : ℕ) (bits : List ℕ) (d : Daemon fl) : Type 0 where
    pub cs : List ℕ
    pub holds : Holds cs d.relay.server
    pub fewer : length cs ≤ n
    pub once : occurs c cs ≡ 1
    pub decoder_is : d.decoder ≡ buf_of bits
    pub fits : Fits bits
    pub chars : All IsBit bits
    pub fitting : Fitting fl d.scale.clients

  -- What the words do: the client is sent their bytes, and the scale looks at their frames.
  pub record Hears (c : ℕ) (bits ws : List ℕ) (d after : Daemon fl) : Type 0 where
    pub told : sent_to c after.relay.server.events ≡ sent_to c d.relay.server.events ++ bytes_of ws
    pub weighed : weigh_all fl alloc time (cut unkn0_symbol bits ws).frames d.scale ≡ ok after.scale

  pub relay-Listens :
      (c n m : ℕ) (bits cs : List ℕ) (relay : Relay) (d : Daemon fl)
      → Listens c n bits d
      → Holds cs relay.server
      → occurs c cs ≡ 1
      → length cs ≤ m
      → Listens c m bits (record d { relay = relay })
  relay-Listens c n m bits cs relay d s h once few = record {
    cs = cs;
    holds = h;
    fewer = few;
    once = once;
    decoder_is = s.decoder_is;
    fits = s.fits;
    chars = s.chars;
    fitting = s.fitting;
  }

  module _ (fresh : Allocates alloc) where
    -- The relay after a read of the driver.
    pass_on-sent :
        (c n : ℕ) (bits ws : List ℕ) (d : Daemon fl)
        → Listens c n bits d
        → All IsWord ws
        → (relay : Relay) × (behind : List ℕ) × (pass_on (bytes_of ws) d.relay ≡ ok relay)
          × (words_in relay.buffer ≡ ws ++ behind)
          × (sent_to c relay.server.events ≡ sent_to c d.relay.server.events ++ bytes_of ws)
          × Listens c n bits (record d { relay = relay })
    unfolding pass_on
    pass_on-sent c n bits [] d s small = (
      d.relay,
      words_in d.relay.buffer,
      refl,
      refl,
      sym (append-nil (sent_to c d.relay.server.events)),
      s,
    )
    pass_on-sent c n bits (w ∷ rest) d s small =
        let ws = w ∷ rest in
        let behind = drop (length (bytes_of ws)) d.relay.buffer in
        let relay = told_all s.cs ws d.relay in
        (
          relay,
          words_in behind,
          pass_on-told_all s.cs ws d.relay s.holds (omega arith),
          words_in-bytes_of ws behind small,
          sent_to-append c d.relay.server.events (map (λ x. sent x (bytes_of ws)) s.cs)
              ∙ ap (◌++◌ (sent_to c d.relay.server.events))
                  (sent_to-map c (bytes_of ws) s.cs s.once),
          relay-Listens c n n bits s.cs relay d s (Holds-events relay.server.events s.holds) s.once
              s.fewer,
        )

    weigh-Hears :
        (c n : ℕ) (bits ws behind : List ℕ) (d : Daemon fl)
        → Listens c n bits d
        → bytes ws < 2 ^ 32
        → words_in d.relay.buffer ≡ ws ++ behind
        → let k = cut unkn0_symbol bits ws in
          (after : Daemon fl) × (weigh fl alloc time true (bytes ws) d ≡ ok after)
          × (after.relay ≡ d.relay)
          × (weigh_all fl alloc time k.frames d.scale ≡ ok after.scale)
          × Listens c n k.open_bits after
    unfolding weigh
    weigh-Hears c n bits ws behind d s size e =
        let k = cut unkn0_symbol bits ws in
        let (scale, ends, same) =
          weigh_all-Steady fl d.scale.clients s.fitting alloc time k.frames d.scale refl in
        (
          record d { scale = scale; decoder = buf_of k.open_bits },
          rw
              (
                e,
                s.decoder_is,
                starfrit_process-weigh_all fl alloc time ws behind bits d.scale fresh size s.fits
                    s.chars,
                ends,
              )
              refl,
          refl,
          ends,
          record {
            cs = s.cs;
            holds = s.holds;
            fewer = s.fewer;
            once = s.once;
            decoder_is = refl;
            fits = open-Fits unkn0_symbol bits ws s.fits;
            chars = cut-Bits unkn0_symbol unkn0-binary ws bits s.chars;
            fitting = subst (Fitting fl) (sym same) s.fitting;
          },
        )

    pub from_driver-Hears :
        (c n : ℕ) (bits ws : List ℕ) (d : Daemon fl)
        → Listens c n bits d
        → bytes ws < 2 ^ 32
        → All IsWord ws
        → (after : Daemon fl) × (from_driver fl alloc time true (some (bytes_of ws)) d ≡ ok after)
          × Hears c bits ws d after
          × Listens c n (cut unkn0_symbol bits ws).open_bits after
    unfolding from_driver
    from_driver-Hears c n bits ws d s size small =
        let (relay, behind, passed, in_buffer, told, s') = pass_on-sent c n bits ws d s small in
        let d' : Daemon fl = record d { relay = relay } in
        let (after, ends, kept, weighed, s'') =
          weigh-Hears c n bits ws behind d' s' size in_buffer in
        (
          after,
          rw (passed, length-bytes_of ws) ends,
          record { told = ap (λ x. sent_to c x.server.events) kept ∙ told; weighed = weighed },
          s'',
        )
