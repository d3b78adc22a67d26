-- ===== src/Daemon/Stream.antt =====
-- The driver's stream over a run of the main loop (raspberrypi/irbrgd/main.c:336): to each client that
-- stays connected, and to the scale.
pub mod Run
use irbridge.Base.{
  ℕ, ◌+◌, ◌/◌, ◌%◌, ◌^◌, ◌≤◌, ◌≡◌, refl, sym, ap, ◌∙◌, Bool, true, false, inl, inr, Bool-cases,
  Option, none, some, List, [], ◌∷◌, ◌++◌, map, append_assoc, append-nil, Outcome, ok, ◌>>=◌,
  >>=-assoc, >>=-cong, All, All-append, Allocates, length, length-append, if◌then◌else◌, arith,
}
use irbridge.Bitops.{nb_bytes}
use irbridge.Bitops.Packing.{pack}
use irbridge.Daemon.{
  Ready, Polled, interrupted, failed, ready, again, Relay, Daemon, connect, round, loop,
  close_relay, close_all, main_loop,
}
use irbridge.Daemon.Delivery.{Stays, Listens, Hears, relay-Listens, from_driver-Hears}
use irbridge.Daemon.Run.{AllWork, connections, status, loop-again}
use irbridge.Daemon.Safety.{Works, accepts}
use irbridge.Daemon.Serve.{serve_total}
use irbridge.Daemon.Watch.{watched, watch_all-watched}
use irbridge.Daemon.Words.{words_in, bytes_of, IsWord, words_in-bytes_of}
use irbridge.Decoder.Frames.{cut, cut-append}
use irbridge.Decoder.Protocol.{buf_of}
use irbridge.Server.{max_clients, add_client, closed, Server}
use irbridge.Server.Broadcast.{clear_clients-map}
use irbridge.Server.Connect.{end_connection}
use irbridge.Server.Contract.{add_client-Leaves}
use irbridge.Server.Inbox.{occurs, occurs-append, sent_to, sent_to-append, sent_to-closed}
use irbridge.Starfrit.{Scale, decoded_bytes}
use irbridge.Starfrit.Floats.{Float}
use irbridge.Starfrit.Stream.{weigh_all}
use irbridge.Unkn0.Symbols.{unkn0_symbol}

-- What the driver gives in a round.
abbrev pub read_of : ℕ → Ready → List ℕ
read_of fd r = if r.is_ready fd then elim r.ir [ none ↦ [] | some bytes ↦ bytes ] else []

-- What the driver gives until the loop ends.
abbrev pub stream : ℕ → List Polled → List ℕ
stream fd [] = []
stream fd (interrupted ∷ ps) = []
stream fd (failed errno ∷ ps) = []
stream fd (ready r ∷ ps) = read_of fd r ++ stream fd ps

abbrev pub AllStay : ℕ → List Polled → Type 0
AllStay c [] = Unit
AllStay c (interrupted ∷ ps) = AllStay c ps
AllStay c (failed errno ∷ ps) = AllStay c ps
AllStay c (ready r ∷ ps) = Stays c r × AllStay c ps

pub bytes_of-append : (ws vs : List ℕ) → bytes_of (ws ++ vs) ≡ bytes_of ws ++ bytes_of vs
bytes_of-append [] vs = refl
bytes_of-append (w ∷ ws) vs =
    ap (λ l. (w % 2 ^ 8) ∷ (w / 2 ^ 8 % 2 ^ 8) ∷ (w / 2 ^ 16 % 2 ^ 8) ∷ (w / 2 ^ 24 % 2 ^ 8) ∷ l)
      (bytes_of-append ws vs)

module _ (fl : Float) (alloc : ℕ → List ℕ) (time : ℕ → ℕ) where
  weigh_all-append :
      (fs gs : List (List ℕ)) (σ : Scale fl)
      → weigh_all fl alloc time (fs ++ gs) σ
        ≡ (weigh_all fl alloc time fs σ >>= weigh_all fl alloc time gs)
  weigh_all-append [] gs σ = refl
  weigh_all-append (f ∷ fs) gs σ =
      let m = decoded_bytes fl alloc time (pack f) (nb_bytes (length f)) σ in
      >>=-cong m _ _ (λ σ'. weigh_all-append fs gs σ')
      ∙ sym (>>=-assoc m (weigh_all fl alloc time fs) (weigh_all fl alloc time gs))

  pub Hears-append :
      (c : ℕ) (bits ws vs : List ℕ) (d d' after : Daemon fl)
      → Hears fl alloc time c bits ws d d'
      → Hears fl alloc time c (cut unkn0_symbol bits ws).open_bits vs d' after
      → Hears fl alloc time c bits (ws ++ vs) d after
  Hears-append c bits ws vs d d' after h k = record {
    told =
        k.told
        ∙ ap (λ l. l ++ bytes_of vs) h.told
        ∙ append_assoc (sent_to c d.relay.server.events) (bytes_of ws) (bytes_of vs)
        ∙ ap (◌++◌ (sent_to c d.relay.server.events)) (sym (bytes_of-append ws vs));
    weighed =
        ap (λ x. weigh_all fl alloc time x.frames d.scale) (cut-append unkn0_symbol bits ws vs)
        ∙ weigh_all-append (cut unkn0_symbol bits ws).frames
            (cut unkn0_symbol (cut unkn0_symbol bits ws).open_bits vs).frames d.scale
        ∙ ap
            (λ m.
              m
              >>= weigh_all fl alloc time
                  (cut unkn0_symbol (cut unkn0_symbol bits ws).open_bits vs).frames)
            h.weighed
        ∙ k.weighed;
  }

  -- Nothing has come from the driver.
  pub Hears-nil :
      (c : ℕ) (bits : List ℕ) (d after : Daemon fl)
      → sent_to c after.relay.server.events ≡ sent_to c d.relay.server.events
      → after.scale ≡ d.scale
      → Hears fl alloc time c bits [] d after
  unfolding cut
  Hears-nil c bits d after told same = record {
    told = told ∙ sym (append-nil (sent_to c d.relay.server.events));
    weighed = ap ok (sym same);
  }

  module _ (fresh : Allocates alloc) where
    connect-Listens :
        (c n : ℕ) (bits : List ℕ) (accepted : Option ℕ) (d : Daemon fl)
        → Listens fl alloc time c n bits d
        → occurs c (elim accepted [ none ↦ [] | some x ↦ x ∷ [] ]) ≡ 0
        → let k = elim accepted [ none ↦ 0 | some _ ↦ 1 ] + n in
          k ≤ max_clients
          → (relay : Relay) × (connect accepted d.relay ≡ ok relay)
            × (relay.server.events ≡ d.relay.server.events)
            × Listens fl alloc time c k bits (record d { relay = relay })
    unfolding connect add_client
    connect-Listens c n bits none d s own room = (
      d.relay,
      refl,
      refl,
      relay-Listens fl alloc time c n (0 + n) bits s.cs d.relay d s s.holds s.once
          (omega (arith, s.fewer)),
    )
    connect-Listens c n bits (some x) d s own room =
        let new = add_client-Leaves s.cs x d.relay.server s.holds (omega (arith, s.fewer)) in
        let relay : Relay = record d.relay { server = new.after } in
        (
          relay,
          ap (λ m. m >>= λ σ. ok (record d.relay { server = σ })) new.returns,
          new.asked,
          relay-Listens fl alloc time c n (1 + n) bits (s.cs ++ (x ∷ [])) relay d s new.holds
              (occurs-append c s.cs (x ∷ []) ∙ omega (arith, s.once))
              (omega (arith, s.fewer, length-append s.cs (x ∷ []))),
        )

    -- What a round does to the stream.
    pub Heard : (c n : ℕ) (bits came : List ℕ) (d after : Daemon fl) → Type 0
    Heard c n bits came d after =
        (ws : List ℕ) × (came ≡ bytes_of ws)
        × All IsWord ws
        × Hears fl alloc time c bits ws d after
        × Listens fl alloc time c n (cut unkn0_symbol bits ws).open_bits after

    pub round-Heard :
        (c fd sock n : ℕ) (bits : List ℕ) (r : Ready) (d : Daemon fl)
        → Listens fl alloc time c n bits d
        → Works fd r
        → Stays c r
        → accepts r + n ≤ max_clients
        → (after : Daemon fl) × (round fl alloc time true fd sock (ready r) d ≡ ok (again, after))
          × Heard c (accepts r + n) bits (read_of fd r) d after
    unfolding round Heard cut
    round-Heard c fd sock n bits r d s w stays room =
        let watching = watch_all-watched s.cs fd sock d.relay.server s.holds in
        elim (Bool-cases (r.is_ready fd)) [
          | inl on ↦
              let (after, ends, heard, s') =
                from_driver-Hears fl alloc time fresh c n bits w.words d s w.size w.small in
              (
                after,
                rw (watching, on, w.given on, ends) refl,
                (
                  w.words,
                  rw (on, w.given on) refl,
                  w.small,
                  heard,
                  relay-Listens fl alloc time c n (accepts r + n)
                      (cut unkn0_symbol bits w.words).open_bits s'.cs after.relay after s' s'.holds
                      s'.once (omega (arith, s'.fewer)),
                ),
              )
          | inr off ↦ elim (Bool-cases (r.is_ready sock)) [
            | inl new ↦
                let (relay, ends, asked, s') =
                  connect-Listens c n bits r.accepted d s stays.own_socket room in
                let after : Daemon fl = record d { relay = relay } in
                (
                  after,
                  rw (watching, off, new, ends) refl,
                  ([], rw off refl, tt, Hears-nil c bits d after (ap (sent_to c) asked) refl, s'),
                )
            | inr old ↦
                let done = serve_total r (watched fd sock s.cs).fds s.cs d.relay s.holds in
                let after : Daemon fl = record d { relay = done.after } in
                (
                  after,
                  rw (watching, off, old, done.returns) refl,
                  (
                    [],
                    rw off refl,
                    tt,
                    Hears-nil c bits d after (done.untold c) refl,
                    relay-Listens fl alloc time c n (accepts r + n) bits done.left done.after d s
                        done.holds (done.stays c stays.open_still ∙ s.once)
                        (omega (arith, done.fewer, s.fewer)),
                  ),
                )
          ]
        ]
