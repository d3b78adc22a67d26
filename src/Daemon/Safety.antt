-- ===== src/Daemon/Safety.antt =====
-- A round of the main loop (raspberrypi/irbrgd/main.c:336) on what a working kernel answers.
use mathlib.Core.Path.{subst}
use irbridge.Base.{
  ℕ, ◌+◌, ◌^◌, ◌≤◌, ◌<◌, ◌≡◌, refl, sym, ap, Bool, true, false, inl, inr, Bool-cases, Option, none,
  some, List, [], ◌∷◌, ◌++◌, Outcome, ok, ◌>>=◌, All, Allocates, length, length-append, drop, arith,
}
use irbridge.Chars.{IsBit}
use irbridge.Daemon.{
  Ready, ready, again, Relay, Daemon, connect, pass_on, weigh, from_driver, round,
}
use irbridge.Daemon.Infrared.{told_all, pass_on-told_all}
use irbridge.Daemon.Serve.{serve_total}
use irbridge.Daemon.Watch.{watched, watch_all-watched}
use irbridge.Daemon.Words.{words_in, bytes_of, IsWord, length-bytes_of, words_in-bytes_of}
use irbridge.Decoder.Drain.Chunks.{open-Fits}
use irbridge.Decoder.Frames.{Fits, cut}
use irbridge.Decoder.Protocol.{buf_of}
use irbridge.Decoder.Refine.{bytes}
use irbridge.FrameBits.{cut-Bits}
use irbridge.Server.{max_clients, add_client}
use irbridge.Server.Contract.{Holds, Holds-events, add_client-Leaves}
use irbridge.Starfrit.Floats.{Float}
use irbridge.Starfrit.Steady.{Fitting, weigh_all-Steady}
use irbridge.Starfrit.Stream.{unkn0-binary, starfrit_process-weigh_all}
use irbridge.Unkn0.Symbols.{unkn0_symbol}

-- An answer of a kernel that works: a driver that is ready gives whole words.
pub record Works (fd : ℕ) (r : Ready) : Type 0 where
  pub words : List ℕ
  pub given : r.is_ready fd ≡ true → r.ir ≡ some (bytes_of words)
  pub size : bytes words < 2 ^ 32
  pub small : All IsWord words

-- How many clients are accepted in a round.
abbrev pub accepts : Ready → ℕ
accepts r = elim r.accepted [ none ↦ 0 | some _ ↦ 1 ]

module _ (fl : Float) where
  -- That the table holds some clients, at most `n`, the decoder holds bits, and the commands for the
  -- scale's clients fit.
  pub record Safe (n : ℕ) (d : Daemon fl) : Type 0 where
    pub cs : List ℕ
    pub bits : List ℕ
    pub holds : Holds cs d.relay.server
    pub fewer : length cs ≤ n
    pub decoder_is : d.decoder ≡ buf_of bits
    pub fits : Fits bits
    pub chars : All IsBit bits
    pub fitting : Fitting fl d.scale.clients

  -- Code that ends, without a fault, in a state that is safe.
  abbrev pub Keeps : ℕ → Outcome (Daemon fl) → Type 0
  Keeps n m = (after : Daemon fl) × (m ≡ ok after) × Safe n after

  module _ (alloc : ℕ → List ℕ) (fresh : Allocates alloc) (time : ℕ → ℕ) where
    pub weigh-Keeps :
        (starfrit : Bool) (n : ℕ) (ws behind : List ℕ) (d : Daemon fl)
        → Safe n d
        → bytes ws < 2 ^ 32
        → words_in d.relay.buffer ≡ ws ++ behind
        → (after : Daemon fl) × (weigh fl alloc time starfrit (bytes ws) d ≡ ok after)
          × (after.relay ≡ d.relay)
          × Safe n after
    unfolding weigh
    weigh-Keeps false n ws behind d s size e = (d, refl, refl, s)
    weigh-Keeps true n ws behind d s size e =
        let c = cut unkn0_symbol s.bits ws in
        let (scale, ends, same) =
          weigh_all-Steady fl d.scale.clients s.fitting alloc time c.frames d.scale refl in
        (
          record d { scale = scale; decoder = buf_of c.open_bits },
          rw
              (
                e,
                s.decoder_is,
                starfrit_process-weigh_all fl alloc time ws behind s.bits d.scale fresh size s.fits
                    s.chars,
                ends,
              )
              refl,
          refl,
          record {
            cs = s.cs;
            bits = c.open_bits;
            holds = s.holds;
            fewer = s.fewer;
            decoder_is = refl;
            fits = open-Fits unkn0_symbol s.bits ws s.fits;
            chars = cut-Bits unkn0_symbol unkn0-binary ws s.bits s.chars;
            fitting = subst (Fitting fl) (sym same) s.fitting;
          },
        )

    -- A safe state with another relay.
    pub relay-Safe :
        (n : ℕ) (cs : List ℕ) (relay : Relay) (d : Daemon fl)
        → Safe n d
        → Holds cs relay.server
        → (m : ℕ) → length cs ≤ m
        → Safe m (record d { relay = relay })
    relay-Safe n cs relay d s h m few = record {
      cs = cs;
      bits = s.bits;
      holds = h;
      fewer = few;
      decoder_is = s.decoder_is;
      fits = s.fits;
      chars = s.chars;
      fitting = s.fitting;
    }

    from_driver-Keeps :
        (starfrit : Bool) (n : ℕ) (ws : List ℕ) (d : Daemon fl)
        → Safe n d
        → bytes ws < 2 ^ 32
        → All IsWord ws
        → Keeps n (from_driver fl alloc time starfrit (some (bytes_of ws)) d)
    unfolding from_driver pass_on
    from_driver-Keeps starfrit n [] d s size small =
        let (after, ends, same, safe) =
          weigh-Keeps starfrit n [] (words_in d.relay.buffer) d s size refl in
        (after, ends, safe)
    from_driver-Keeps starfrit n (w ∷ rest) d s size small =
        let ws = w ∷ rest in
        let behind = drop (length (bytes_of ws)) d.relay.buffer in
        let relay = told_all s.cs ws d.relay in
        let d' : Daemon fl = record d { relay = relay } in
        let held : Holds s.cs relay.server = Holds-events relay.server.events s.holds in
        let (after, ends, same, safe) =
          weigh-Keeps starfrit n ws (words_in behind) d'
            (relay-Safe n s.cs relay d s held n s.fewer) size (words_in-bytes_of ws behind small) in
        (
          after,
          rw (pass_on-told_all s.cs ws d.relay s.holds (omega arith), length-bytes_of ws) ends,
          safe,
        )

    pub weaken : (n m : ℕ) (d : Daemon fl) → Safe n d → n ≤ m → Safe m d
    weaken n m d s le = relay-Safe n s.cs d.relay d s s.holds m (omega (arith, s.fewer))

    connect-Safe :
        (accepted : Option ℕ) (n : ℕ) (d : Daemon fl)
        → Safe n d
        → let k = elim accepted [ none ↦ 0 | some _ ↦ 1 ] + n in
          k ≤ max_clients
          → (relay : Relay) × (connect accepted d.relay ≡ ok relay)
            × Safe k (record d { relay = relay })
    unfolding connect add_client
    connect-Safe none n d s room = (d.relay, refl, weaken n (0 + n) d s (omega arith))
    connect-Safe (some c) n d s room =
        let new = add_client-Leaves s.cs c d.relay.server s.holds (omega (arith, s.fewer)) in
        let relay : Relay = record d.relay { server = new.after } in
        (
          relay,
          ap (λ m. m >>= λ σ. ok (record d.relay { server = σ })) new.returns,
          relay-Safe n (s.cs ++ (c ∷ [])) relay d s new.holds (1 + n)
              (omega (arith, s.fewer, length-append s.cs (c ∷ []))),
        )

    pub round-Safe :
        (starfrit : Bool) (fd sock n : ℕ) (r : Ready) (d : Daemon fl)
        → Safe n d
        → Works fd r
        → accepts r + n ≤ max_clients
        → (after : Daemon fl) × (round fl alloc time starfrit fd sock (ready r) d
            ≡ ok (again, after))
          × Safe (accepts r + n) after
    unfolding round
    round-Safe starfrit fd sock n r d s w room =
        let watching = watch_all-watched s.cs fd sock d.relay.server s.holds in
        elim (Bool-cases (r.is_ready fd)) [
          | inl on ↦
              let (after, ends, safe) = from_driver-Keeps starfrit n w.words d s w.size w.small in
              (
                after,
                rw (watching, on, w.given on, ends) refl,
                weaken n (accepts r + n) after safe (omega arith),
              )
          | inr off ↦ elim (Bool-cases (r.is_ready sock)) [
            | inl new ↦
                let (relay, ends, safe) = connect-Safe r.accepted n d s room in
                (record d { relay = relay }, rw (watching, off, new, ends) refl, safe)
            | inr old ↦
                let done = serve_total r (watched fd sock s.cs).fds s.cs d.relay s.holds in
                (
                  record d { relay = done.after },
                  rw (watching, off, old, done.returns) refl,
                  relay-Safe n done.left done.after d s done.holds (accepts r + n)
                      (omega (arith, done.fewer, s.fewer)),
                )
          ]
        ]
