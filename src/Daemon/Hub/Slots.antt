-- ===== src/Daemon/Hub/Slots.antt =====
-- Single rounds of the loop over the clients' sockets (raspberrypi/irbrgd/main.c:378), by what a client
-- sends.
use mathlib.Core.Path.{subst}
use irbridge.Base.{
  ℕ, zero, suc, ◌≡◌, refl, sym, ap, ◌∙◌, true, false, inl, inr, Bool-cases, some, List, [], ◌∷◌,
  ◌++◌, map, append_assoc, append-nil, snoc-append, Outcome, ok, length, length-append, ==_refl,
  ==-eq, ltb, ◌==◌, arith,
}
use irbridge.Daemon.{Ready, Relay, forward, serve, is_in}
use irbridge.Daemon.Hub.{Turn, Distinct}
use irbridge.Daemon.Watch.{client-append}
use irbridge.Server.{closed, Server, client, read_client, remove_client}
use irbridge.Server.Contract.{Holds}
use irbridge.Server.Inbox.{occurs, occurs-append}
use irbridge.Server.Removal.{removed}

pub removed-append :
    (c : ℕ) (pre cs : List ℕ) → occurs c pre ≡ 0 → removed c (pre ++ (c ∷ cs)) ≡ pre ++ cs
removed-append c [] [] h = refl
removed-append c [] (d ∷ cs) h = let own = ==_refl c in rw own refl
removed-append c (x ∷ []) cs h =
    let other : (x == c) ≡ false = ground arith in
    rw other (ap (◌∷◌ x) (removed-append c [] cs refl))
removed-append c (x ∷ y ∷ pre) cs h =
    let other : (x == c) ≡ false = ground arith in
    let later : occurs c (y ∷ pre) ≡ 0 = ground arith in
    rw other (ap (◌∷◌ x) (removed-append c (y ∷ pre) cs later))

-- The elements in front are other than those behind.
pub Distinct-front : (c : ℕ) (pre cs : List ℕ) → Distinct (pre ++ (c ∷ cs)) → occurs c pre ≡ 0
Distinct-front c [] cs h = refl
Distinct-front c (x ∷ pre) cs h =
    let apart = occurs-append x pre (c ∷ cs) in
    let later = Distinct-front c pre cs h.2 in
    let own = ==_refl x in
    elim (Bool-cases (x == c)) [
      | inl e ↦ let same = ==-eq x c e in absurd (ground arith)
      | inr e ↦ rw e later
    ]

-- That the loop has made this turn, from the slot behind `pre`.
pub record Turned (pre : List ℕ) (t : Turn) (d : Relay) (result : Outcome Relay) : Type 0 where
  pub after : Relay
  pub returns : result ≡ ok after
  pub holds : Holds (pre ++ t.left) after.server
  pub asked : after.server.events ≡ d.server.events ++ map closed t.ended
  pub driver : after.driver ≡ d.driver ++ t.message

-- The slot behind `pre` is kept.
pub keeps_slot :
    (pre : List ℕ) (c : ℕ) (t : Turn) (d : Relay) {m n : Outcome Relay}
    → n ≡ m
    → Turned (pre ++ (c ∷ [])) t d m
    → Turned pre (record t { left = c ∷ t.left }) d n
keeps_slot pre c t d e k = record {
  after = k.after;
  returns = e ∙ k.returns;
  holds = subst (λ l. Holds l k.after.server) (sym (snoc-append pre t.left c)) k.holds;
  asked = k.asked;
  driver = k.driver;
}

module _ (r : Ready) where
  pub serve_end :
      (fds : List ℕ) (n idx : ℕ) (d : Relay)
      → ltb idx d.server.count ≡ false
      → serve r fds n idx d ≡ ok d
  unfolding serve
  serve_end fds zero idx d e = rw e refl
  serve_end fds (suc n) idx d e = rw e refl

  -- The rounds at a client in the table, by what it sends.
  module _ (fds pre cs : List ℕ) (c n idx : ℕ) (d : Relay) (h : Holds (pre ++ (c ∷ cs)) d.server)
      (i : idx ≡ length pre) (within : is_in c fds ≡ true) where
    here : client idx d.server ≡ ok (some c)
    here =
        client-append pre cs h.spare c idx d.server
          (h.slots_are ∙ append_assoc pre (c ∷ cs) h.spare) i
          (omega (arith, h.counted, length-append pre (c ∷ cs)))

    in_use : ltb idx d.server.count ≡ true
    in_use = ground (arith, h.counted, length-append pre (c ∷ cs))

    pub quiet_round : r.is_ready c ≡ false → serve r fds (suc n) idx d ≡ serve r fds n (suc idx) d
    unfolding serve
    quiet_round quiet = rw (in_use, here, within, quiet) refl

    pub ending_round :
        (σ : Server)
        → r.is_ready c ≡ true
        → (length (read_client (r.received c)) == 0) ≡ true
        → remove_client c d.server ≡ ok σ
        → serve r fds (suc n) idx d ≡ serve r fds n (suc idx) (record d { server = σ })
    unfolding serve
    ending_round σ on ends gone = rw (in_use, here, within, on, ends, gone) refl

    sending_round :
        r.is_ready c ≡ true
        → (length (read_client (r.received c)) == 0) ≡ false
        → serve r fds (suc n) idx d ≡ ok (forward (read_client (r.received c)) d)
    unfolding serve
    sending_round on sends = rw (in_use, here, within, on, sends) refl

    -- A client that sends something ends the turn.
    pub sends_Turned :
        r.is_ready c ≡ true
        → (length (read_client (r.received c)) == 0) ≡ false
        → Turned pre
            (record { left = c ∷ cs; ended = []; message = read_client (r.received c) ∷ [] })
            d
            (serve r fds (suc n) idx d)
    sends_Turned on sends = record {
      after = forward (read_client (r.received c)) d;
      returns = sending_round on sends;
      holds = h;
      asked = sym (append-nil d.server.events);
      driver = refl;
    }
