-- ===== src/Daemon/Serve.antt =====
-- The loop over the clients' sockets (raspberrypi/irbrgd/main.c:378) ends and keeps the table.
use irbridge.Base.{
  ℕ, zero, suc, ◌+◌, ◌<◌, ◌≤◌, ◌≡◌, refl, sym, ap, ◌∙◌, inl, inr, ◌≢◌, ==_refl, Bool, true, false,
  not, Bool-cases, ◌&&◌, some, List, [], ◌∷◌, ◌++◌, Outcome, ok, length, take, drop, length-append,
  length-take, take-append-drop, append_assoc, ltb, ◌==◌, arith,
}
use irbridge.Server.{Server, client, read_client}
use irbridge.Server.Contract.{Holds, remove_client-Leaves}
use irbridge.Server.Inbox.{occurs, occurs-append, occurs-removed, sent_to, sent_to-closed}
use irbridge.Server.Removal.{removed, length-removed}
use irbridge.Daemon.{Ready, Relay, forward, serve, is_in}
use irbridge.Daemon.Watch.{client-append}

-- A client of a table, by an index in use.
client-Holds :
    (cs : List ℕ) (idx : ℕ) (σ : Server)
    → Holds cs σ
    → idx < length cs
    → (c : ℕ) × (client idx σ ≡ ok (some c)) × (0 < occurs c cs)
client-Holds cs idx σ h lt = go (drop idx cs) (take-append-drop idx cs)
  where
    go :
        (rest : List ℕ)
        → take idx cs ++ rest ≡ cs
        → (c : ℕ) × (client idx σ ≡ ok (some c)) × (0 < occurs c cs)
    go [] e =
        absurd (omega (arith, ap length e, length-append (take idx cs) [], length-take idx cs))
    go (c ∷ rest) e =
        let here : idx ≡ length (take idx cs) = omega (arith, length-take idx cs) in
        (
          c,
          client-append (take idx cs) rest h.spare c idx σ
              (h.slots_are
                ∙ ap (λ l. l ++ h.spare) (sym e)
                ∙ append_assoc (take idx cs) (c ∷ rest) h.spare)
              here (omega (arith, h.counted, ap length e, length-append (take idx cs) (c ∷ rest))),
          ground (arith, ap (occurs c) e, occurs-append c (take idx cs) (c ∷ rest), ==_refl c),
        )

module _ (r : Ready) where
  -- Whether what a client sends in the round is its end.
  unfoldable pub hangs_up : ℕ → Bool
  hangs_up c = r.is_ready c && length (read_client (r.received c)) == 0

  -- That the loop has ended, with no more clients than before.
  pub record Served (cs : List ℕ) (d : Relay) (result : Outcome (Relay)) : Type 0 where
    pub after : Relay
    pub left : List ℕ
    pub returns : result ≡ ok after
    pub holds : Holds left after.server
    pub fewer : length left ≤ length cs
    pub stays : (c : ℕ) → hangs_up c ≡ false → occurs c left ≡ occurs c cs
    pub untold : (c : ℕ) → sent_to c after.server.events ≡ sent_to c d.server.events

  other :
      (s c : ℕ) (seen : Bool)
      → not (seen && r.is_ready s) ≡ false
      → (length (read_client (r.received s)) == 0) ≡ true
      → hangs_up c ≡ false
      → c ≢ s
  unfolding hangs_up
  other s c seen sends ends stays same =
      let stays' : hangs_up s ≡ false = ap hangs_up (sym same) ∙ stays in ground arith

  serve-Served :
      (fuel : ℕ) (fds cs : List ℕ) (idx : ℕ) (d : Relay)
      → Holds cs d.server
      → length cs ≤ fuel + idx
      → Served cs d (serve r fds fuel idx d)
  unfolding serve
  serve-Served zero fds cs idx d h enough =
      let ended : ltb idx d.server.count ≡ false = ground (arith, h.counted) in
      record {
        after = d;
        left = cs;
        returns = rw ended refl;
        holds = h;
        fewer = omega arith;
        stays = λ c _. refl;
        untold = λ c. refl;
      }
  serve-Served (suc n) fds cs idx d h enough = elim (Bool-cases (ltb idx d.server.count)) [
    | inr e ↦ record {
      after = d;
      left = cs;
      returns = rw e refl;
      holds = h;
      fewer = omega arith;
      stays = λ c _. refl;
      untold = λ c. refl;
    }
    | inl e ↦
        let (s, at, here) = client-Holds cs idx d.server h (ground (arith, h.counted)) in
        elim (Bool-cases (not (is_in s fds && r.is_ready s))) [
          | inl quiet ↦
              let go = serve-Served n fds cs (suc idx) d h (omega arith) in
              record {
                after = go.after;
                left = go.left;
                returns = rw (e, at, quiet) go.returns;
                holds = go.holds;
                fewer = go.fewer;
                stays = go.stays;
                untold = go.untold;
              }
          | inr sends ↦ elim (Bool-cases (length (read_client (r.received s)) == 0)) [
            | inl ends ↦
                let less = remove_client-Leaves cs s d.server h in
                let d' : Relay = record d { server = less.after } in
                let shorter = length-removed s cs in
                let go = serve-Served n fds (removed s cs) (suc idx) d' less.holds (omega arith) in
                record {
                  after = go.after;
                  left = go.left;
                  returns = rw (e, at, sends, ends, less.returns) go.returns;
                  holds = go.holds;
                  fewer = omega (arith, go.fewer);
                  stays = λ c quiet.
                      go.stays c quiet
                      ∙ occurs-removed c s cs (other s c (is_in s fds) sends ends quiet) here;
                  untold = λ c.
                      go.untold c
                      ∙ ap (sent_to c) less.asked
                      ∙ sent_to-closed c d.server.events (s ∷ []);
                }
            | inr bytes ↦ record {
              after = forward (read_client (r.received s)) d;
              left = cs;
              returns = rw (e, at, sends, bytes) refl;
              holds = h;
              fewer = omega arith;
              stays = λ c _. refl;
              untold = λ c. refl;
            }
          ]
        ]
  ]

  -- On a table that holds clients, the loop over the clients' sockets ends, without a fault, in as
  -- many rounds as there are clients, whichever sockets are ready and whatever `recv` returns; the
  -- table then holds at most as many clients, and each socket that does not hang up as often as
  -- before. Nothing is sent to a client.
  pub serve_total :
      (fds cs : List ℕ) (d : Relay)
      → Holds cs d.server
      → Served cs d (serve r fds d.server.count 0 d)
  serve_total fds cs d h = serve-Served d.server.count fds cs 0 d h (omega (arith, h.counted))
