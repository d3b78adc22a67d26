-- ===== src/Daemon/Forward.antt =====
-- A client's bytes on their way to the infrared driver (raspberrypi/irbrgd/main.c:394).
use irbridge.Base.{
  ℕ, zero, suc, ◌+◌, ◌<◌, ◌≡◌, refl, ◌∙◌, Bool, true, false, ◌&&◌, some, List, [], ◌∷◌, ◌++◌,
  snoc-append, ok, All, length, length-append, ltb, ◌==◌, ==_refl, arith,
}
use irbridge.Daemon.{
  Ready, ready, again, Relay, Daemon, is_in, forward, serve, round, watch, nothing,
}
use irbridge.Daemon.Watch.{client-append, watched, watch_all-watched, watch_each-clients}
use irbridge.Server.{read_client}
use irbridge.Server.Contract.{Holds}
use irbridge.Starfrit.Floats.{Float}

is_in-append : (x : ℕ) (xs ys : List ℕ) → is_in x (xs ++ (x ∷ ys)) ≡ true
is_in-append x [] ys = let own = ==_refl x in ground arith
is_in-append x (y ∷ xs) ys = let behind = is_in-append x xs ys in ground arith

module _ (r : Ready) where
  serve-forward :
      (fds pre before after spare bytes : List ℕ) (c n idx : ℕ) (d : Relay)
      → d.server.slots ≡ pre ++ ((before ++ (c ∷ after)) ++ spare)
      → idx ≡ length pre
      → d.server.count ≡ idx + length (before ++ (c ∷ after))
      → length before < n
      → All (λ b. r.is_ready b ≡ false) before
      → is_in c fds ≡ true
      → r.is_ready c ≡ true
      → r.received c ≡ some bytes
      → 0 < length bytes
      → serve r fds n idx d ≡ ok (forward bytes d)
  unfolding serve read_client
  serve-forward fds pre before after spare bytes c zero idx d e i k enough quiet inside on gives
        some_bytes =
      absurd (omega arith)
  serve-forward fds pre [] after spare bytes c (suc n) idx d e i k enough quiet inside on gives
        some_bytes =
      let here = client-append pre after spare c idx d.server e i k in
      let in_use : ltb idx d.server.count ≡ true = ground arith in
      let more : (length bytes == 0) ≡ false = ground arith in
      rw (in_use, here, inside, on, gives, more) refl
  serve-forward fds pre (b ∷ before) after spare bytes c (suc n) idx d e i k enough quiet inside on
        gives some_bytes =
      let here = client-append pre (before ++ (c ∷ after)) spare b idx d.server e i k in
      let in_use : ltb idx d.server.count ≡ true = ground arith in
      let skips : (is_in b fds && r.is_ready b) ≡ false = ground (arith, quiet.0) in
      rw (in_use, here, skips)
        (serve-forward fds (pre ++ (b ∷ [])) before after spare bytes c n (suc idx) d
          (e ∙ snoc-append pre ((before ++ (c ∷ after)) ++ spare) b)
          (omega (arith, length-append pre (b ∷ []))) (omega arith) (omega arith) quiet.1 inside on
          gives some_bytes)

module _ (fl : Float) (alloc : ℕ → List ℕ) (time : ℕ → ℕ) (starfrit : Bool) where
  pub round-forward :
      (before after bytes : List ℕ) (c fd sock : ℕ) (r : Ready) (d : Daemon fl)
      → Holds (before ++ (c ∷ after)) d.relay.server
      → r.is_ready fd ≡ false
      → r.is_ready sock ≡ false
      → All (λ b. r.is_ready b ≡ false) before
      → 0 < c
      → r.is_ready c ≡ true
      → r.received c ≡ some bytes
      → 0 < length bytes
      → round fl alloc time starfrit fd sock (ready r) d
        ≡ ok (again, record d { relay = forward bytes d.relay })
  unfolding round
  round-forward before after bytes c fd sock r d h off old quiet pos on gives some_bytes =
      let cs = before ++ (c ∷ after) in
      let inside : is_in c (watched fd sock cs).fds ≡ true =
        watch_each-clients c cs (watch sock (watch fd nothing)) pos (is_in-append c before after) in
      rw
        (
          watch_all-watched cs fd sock d.relay.server h,
          off,
          old,
          serve-forward r (watched fd sock cs).fds [] before after h.spare bytes c
              d.relay.server.count 0 d.relay h.slots_are refl (omega (arith, h.counted))
              (omega (arith, h.counted, length-append before (c ∷ after))) quiet inside on gives
              some_bytes,
        )
        refl
