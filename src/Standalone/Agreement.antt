-- ===== src/Standalone/Agreement.antt =====
-- A round of the server in a terminal (raspberrypi/server/main.c:71) against a round of the daemon.
use irbridge.Base.{
  ℕ, zero, suc, ◌≡◌, refl, sym, ap, ◌∙◌, Bool, true, false, not, ◌&&◌, Bool-cases, ==-eq, inl, inr,
  Option, none, some, List, [], ◌∷◌, Outcome, ok, fault, out_of_fuel, ◌>>=◌, >>=-assoc, >>=-cong,
  ltb, ◌==◌, if◌then◌else◌, length, arith,
}
use irbridge.Daemon.{
  Ready, ready, Watched, nothing, watch, is_in, watch_clients, Relay, connect, serve, Daemon, weigh,
  from_driver, round,
}
use irbridge.Daemon.Watch.{watch_each, watched, watch_all-watched, watch_clients-each}
use irbridge.Server.{Server, client, read_client, remove_client}
use irbridge.Server.Contract.{Holds}
use irbridge.Standalone.{stdin, watch_terminal, relay_driver, terminal_round}
use irbridge.Starfrit.Floats.{Float}

if-cong :
    {A : Type 0} (b : Bool) {m m' n n' : A}
    → m ≡ m'
    → n ≡ n'
    → (if b then m else n) ≡ (if b then m' else n')
if-cong true h k = h
if-cong false h k = k

module _ (r : Ready) where
  -- That a round takes the same descriptors of two sets for ready.
  abbrev Same : List ℕ → List ℕ → Type 0
  Same fds fds' = (x : ℕ) → (is_in x fds && r.is_ready x) ≡ (is_in x fds' && r.is_ready x)

  -- A round of the loop over the clients, if its rest does the same.
  served-Same :
      (fds fds' : List ℕ) (n idx : ℕ) (d : Relay)
      → Same fds fds'
      → ((e : Relay) → serve r fds n (suc idx) e ≡ serve r fds' n (suc idx) e)
      → ltb idx d.server.count ≡ true
      → (m : Outcome (Option ℕ)) → client idx d.server ≡ m
      → serve r fds (suc n) idx d ≡ serve r fds' (suc n) idx d
  unfolding serve
  served-Same fds fds' n idx d h rest e fault at = rw (e, at) refl
  served-Same fds fds' n idx d h rest e out_of_fuel at = rw (e, at) refl
  served-Same fds fds' n idx d h rest e (ok none) at = rw (e, at) (rest d)
  served-Same fds fds' n idx d h rest e (ok (some s)) at =
      rw (e, at, h s)
        (if-cong (not (is_in s fds' && r.is_ready s)) (rest d) (
          if-cong (length (read_client (r.received s)) == 0)
            (>>=-cong (remove_client s d.server) _ _ (λ σ. rest (record d { server = σ }))) refl))

  serve-Same :
      (fds fds' : List ℕ) (n idx : ℕ) (d : Relay)
      → Same fds fds'
      → serve r fds n idx d ≡ serve r fds' n idx d
  unfolding serve
  serve-Same fds fds' zero idx d h = refl
  serve-Same fds fds' (suc n) idx d h = elim (Bool-cases (ltb idx d.server.count)) [
    | inr e ↦ rw e refl
    | inl e ↦
        served-Same fds fds' n idx d h (λ e. serve-Same fds fds' n (suc idx) e h) e
          (client idx d.server) refl
  ]

  -- Adding the same client to both.
  watch-Same : (c : ℕ) (w w' : Watched) → Same w.fds w'.fds → Same (watch c w).fds (watch c w').fds
  watch-Same c w w' h x = elim (Bool-cases (x == c)) [ inl e ↦ rw e refl | inr e ↦ rw e (h x) ]

  watch_each-Same :
      (cs : List ℕ) (w w' : Watched)
      → Same w.fds w'.fds
      → Same (watch_each cs w).fds (watch_each cs w').fds
  watch_each-Same [] w w' h = h
  watch_each-Same (c ∷ cs) w w' h = elim (Bool-cases (ltb 0 c)) [
    | inl e ↦ rw (watch_each, e) (watch_each-Same cs (watch c w) (watch c w') (watch-Same c w w' h))
    | inr e ↦ rw (watch_each, e) (watch_each-Same cs w w' h)
  ]

  -- A terminal that is not ready does not matter.
  stdin-Same :
      (fd sock : ℕ)
      → r.is_ready stdin ≡ false
      → Same (watch sock (watch fd (watch stdin nothing))).fds (watch sock (watch fd nothing)).fds
  stdin-Same fd sock quiet = watch-Same sock (watch fd (watch stdin nothing)) (watch fd nothing) (
      watch-Same fd (watch stdin nothing) nothing (λ x. elim (Bool-cases (x == stdin)) [
        | inl e ↦ let same = ==-eq x stdin e in rw (same, quiet) refl
        | inr e ↦ rw e refl
      ]))

pub watch_terminal-each :
    (cs : List ℕ) (fd sock : ℕ) (σ : Server)
    → Holds cs σ
    → watch_terminal fd sock σ ≡ ok (watch_each cs (watch sock (watch fd (watch stdin nothing))))
unfolding watch_terminal
watch_terminal-each cs fd sock σ h =
    ap (λ n. watch_clients n 0 σ (watch sock (watch fd (watch stdin nothing)))) h.counted
    ∙ watch_clients-each [] cs h.spare 0 σ _ h.slots_are refl (omega (arith, h.counted))

relay_driver-from_driver :
    (fl : Float) (alloc : ℕ → List ℕ) (time : ℕ → ℕ) (ir : Option (List ℕ)) (d : Daemon fl)
    → from_driver fl alloc time false ir d
      ≡ (relay_driver ir d.relay >>= λ relay. ok (record d { relay = relay }))
unfolding from_driver relay_driver weigh
relay_driver-from_driver fl alloc time none d = refl
relay_driver-from_driver fl alloc time (some bytes) d = refl

-- On a table that holds clients, and where no key is pressed, a round of the daemon without the
-- scale does to the table, the buffer and the driver what a round of raspberrypi/server does,
-- whatever the kernel answers, and leaves the scale as it is.
pub terminal_round-round :
    (fl : Float) (alloc : ℕ → List ℕ) (time : ℕ → ℕ) (cs : List ℕ) (fd sock : ℕ) (r : Ready)
    (d : Daemon fl)
    → Holds cs d.relay.server
    → r.is_ready stdin ≡ false
    → round fl alloc time false fd sock (ready r) d
      ≡ (terminal_round fd sock (ready r) d.relay >>= λ x. ok (x.0, record d { relay = x.1 }))
unfolding round terminal_round
terminal_round-round fl alloc time cs fd sock r d h quiet =
    let from_terminal = watch_each cs (watch sock (watch fd (watch stdin nothing))) in
    let same : Same r from_terminal.fds (watched fd sock cs).fds =
      watch_each-Same r cs (watch sock (watch fd (watch stdin nothing)))
        (watch sock (watch fd nothing)) (stdin-Same r fd sock quiet) in
    rw
      (
        watch_all-watched cs fd sock d.relay.server h,
        watch_terminal-each cs fd sock d.relay.server h,
        quiet,
      )
      (elim (Bool-cases (r.is_ready fd)) [
        | inl on ↦
            rw (on, relay_driver-from_driver fl alloc time r.ir d)
              (>>=-assoc (relay_driver r.ir d.relay) _ _
                ∙ sym (>>=-assoc (relay_driver r.ir d.relay) _ _))
        | inr off ↦ elim (Bool-cases (r.is_ready sock)) [
          | inl new ↦ rw (off, new) (sym (>>=-assoc (connect r.accepted d.relay) _ _))
          | inr old ↦
              rw
                (
                  off,
                  old,
                  serve-Same r from_terminal.fds (watched fd sock cs).fds d.relay.server.count 0
                      d.relay same,
                )
                (sym
                  (>>=-assoc (serve r (watched fd sock cs).fds d.relay.server.count 0 d.relay) _ _))
        ]
      ])
