-- ===== src/Daemon/Hub/Serving.antt =====
-- The loop over the clients' sockets (raspberrypi/irbrgd/main.c:378) is the clients' turn in the hub.
use mathlib.Core.Path.{subst}
use irbridge.Base.{
  ℕ, zero, suc, ◌≤◌, ◌≡◌, sym, ap, ◌∙◌, true, false, inl, inr, Bool-cases, List, [], ◌∷◌, ◌++◌, map,
  append_assoc, append-nil, snoc-append, ok, length, length-append, ==_refl, ltb, ◌==◌, arith,
}
use irbridge.Daemon.{Ready, Relay, serve, is_in}
use irbridge.Daemon.Hub.{turn, Distinct}
use irbridge.Server.{closed, Server, read_client, remove_client}
use irbridge.Server.Contract.{Holds, remove_client-Leaves}
use irbridge.Server.Inbox.{occurs-append}
use irbridge.Daemon.Hub.Slots.{
  removed-append, Distinct-front, Turned, keeps_slot, serve_end, quiet_round, ending_round,
  sends_Turned,
}

module _ (r : Ready) where
  -- The state after a client has left.
  record Gone (pre cs : List ℕ) (c : ℕ) (d : Relay) : Type 0 where
    σ : Server
    gone : remove_client c d.server ≡ ok σ
    holds : Holds (pre ++ cs) σ
    asked : σ.events ≡ d.server.events ++ (closed c ∷ [])

  client-Gone :
      (pre cs : List ℕ) (c : ℕ) (d : Relay)
      → Holds (pre ++ (c ∷ cs)) d.server
      → Distinct (pre ++ (c ∷ cs))
      → Gone pre cs c d
  client-Gone pre cs c d h apart =
      let less = remove_client-Leaves (pre ++ (c ∷ cs)) c d.server h in
      record {
        σ = less.after;
        gone = less.returns;
        holds =
            subst (λ l. Holds l less.after)
              (removed-append c pre cs (Distinct-front c pre cs apart)) less.holds;
        asked = less.asked;
      }

  -- Without the client `c`, all others are still distinct.
  Distinct-without : (pre cs : List ℕ) (c : ℕ) → Distinct (pre ++ (c ∷ cs)) → Distinct (pre ++ cs)
  Distinct-without [] cs c h = h.2
  Distinct-without (x ∷ pre) cs c h = (
    h.0,
    ground (arith, occurs-append x pre (c ∷ cs), occurs-append x pre cs),
    Distinct-without pre cs c h.2,
  )

  pub serve-Turned :
      (fds pre cs : List ℕ) (n idx : ℕ) (d : Relay)
      → Holds (pre ++ cs) d.server
      → idx ≡ length pre
      → length cs ≤ n
      → Distinct (pre ++ cs)
      → ((x : ℕ) → is_in x cs ≡ true → is_in x fds ≡ true)
      → Turned pre (turn r cs) d (serve r fds n idx d)
  serve-Turned fds pre [] n idx d h i enough apart within =
      let past : ltb idx d.server.count ≡ false = ground (arith, h.counted, length-append pre []) in
      record {
        after = d;
        returns = serve_end r fds n idx d past;
        holds = h;
        asked = sym (append-nil d.server.events);
        driver = sym (append-nil d.driver);
      }
  serve-Turned fds pre (c ∷ cs) zero idx d h i enough apart within = absurd (omega arith)
  serve-Turned fds pre (c ∷ []) (suc n) idx d h i enough apart within =
      let inside : is_in c fds ≡ true = within c (ground (arith, ==_refl c)) in
      elim (Bool-cases (r.is_ready c)) [
        | inr quiet ↦ rw quiet (
            keeps_slot pre c (turn r []) d (quiet_round r fds pre [] c n idx d h i inside quiet) (
              serve-Turned fds (pre ++ (c ∷ [])) [] n (suc idx) d
                (subst (λ l. Holds l d.server) (snoc-append pre [] c) h)
                (omega (arith, length-append pre (c ∷ []))) (omega arith)
                (subst Distinct (snoc-append pre [] c) apart) (λ x m. cc m)))
        | inl on ↦ elim (Bool-cases (length (read_client (r.received c)) == 0)) [
          | inr sends ↦ rw (on, sends) (sends_Turned r fds pre [] c n idx d h i inside on sends)
          | inl ends ↦
              let g = client-Gone pre [] c d h apart in
              let d' : Relay = record d { server = g.σ } in
              let past : ltb (suc idx) g.σ.count ≡ false =
                ground (arith, g.holds.counted, length-append pre []) in
              rw (on, ends)
                (record {
                  after = d';
                  returns =
                      ending_round r fds pre [] c n idx d h i inside g.σ on ends g.gone
                      ∙ serve_end r fds n (suc idx) d' past;
                  holds = g.holds;
                  asked = g.asked;
                  driver = sym (append-nil d.driver);
                })
        ]
      ]
  serve-Turned fds pre (c ∷ e ∷ cs) (suc n) idx d h i enough apart within =
      let inside : is_in c fds ≡ true = within c (ground (arith, ==_refl c)) in
      elim (Bool-cases (r.is_ready c)) [
        | inr quiet ↦ rw quiet (
            keeps_slot pre c (turn r (e ∷ cs)) d
              (quiet_round r fds pre (e ∷ cs) c n idx d h i inside quiet)
              (serve-Turned fds (pre ++ (c ∷ [])) (e ∷ cs) n (suc idx) d
                (subst (λ l. Holds l d.server) (snoc-append pre (e ∷ cs) c) h)
                (omega (arith, length-append pre (c ∷ []))) (omega arith)
                (subst Distinct (snoc-append pre (e ∷ cs) c) apart)
                (λ x m. within x (ground (arith, m)))))
        | inl on ↦ elim (Bool-cases (length (read_client (r.received c)) == 0)) [
          | inr sends ↦
              rw (on, sends) (sends_Turned r fds pre (e ∷ cs) c n idx d h i inside on sends)
          | inl ends ↦
              let g = client-Gone pre (e ∷ cs) c d h apart in
              let d' : Relay = record d { server = g.σ } in
              let left = Distinct-without pre (e ∷ cs) c apart in
              let k =
                serve-Turned fds (pre ++ (e ∷ [])) cs n (suc idx) d'
                  (subst (λ l. Holds l g.σ) (snoc-append pre cs e) g.holds)
                  (omega (arith, length-append pre (e ∷ []))) (omega arith)
                  (subst Distinct (snoc-append pre cs e) left)
                  (λ x m. within x (ground (arith, m))) in
              rw (on, ends)
                (record {
                  after = k.after;
                  returns =
                      ending_round r fds pre (e ∷ cs) c n idx d h i inside g.σ on ends g.gone
                      ∙ k.returns;
                  holds =
                      subst (λ l. Holds l k.after.server) (sym (snoc-append pre (turn r cs).left e))
                        k.holds;
                  asked =
                      k.asked
                      ∙ ap (λ l. l ++ map closed (turn r cs).ended) g.asked
                      ∙ append_assoc d.server.events (closed c ∷ []) (map closed (turn r cs).ended);
                  driver = k.driver;
                })
        ]
      ]
