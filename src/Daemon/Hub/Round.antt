-- ===== src/Daemon/Hub/Round.antt =====
-- A round of the main loop (raspberrypi/irbrgd/main.c:336) does to the table, to the kernel and to the
-- driver what a round of the hub says.
use mathlib.Core.Path.{subst}
use irbridge.Base.{
  ℕ, ◌+◌, ◌^◌, ◌≤◌, ◌<◌, ◌≡◌, refl, sym, ap, ◌∙◌, Bool, true, inl, inr, Bool-cases, Option, none,
  some, List, [], ◌∷◌, ◌++◌, map, take-append, ok, ◌>>=◌, All, Allocates, length, drop, take, ltb,
  arith,
}
use irbridge.Daemon.{
  Ready, ready, again, Relay, Daemon, into, connect, pass_on, from_driver, weigh, round,
  close_relay,
}
use irbridge.Daemon.Hub.{Hub, turn, broadcast, take_in, hub_round, Distinct, Shows}
use irbridge.Daemon.Hub.Clients.{broadcast-clients, Distinct-pos, length-turn, length-take_in}
use irbridge.Daemon.Hub.Serving.{serve-Turned}
use irbridge.Daemon.Safety.{Works, accepts, Safe, relay-Safe, weaken, weigh-Keeps}
use irbridge.Daemon.Watch.{watched, watch_all-watched, watch_each-clients}
use irbridge.Daemon.Words.{words_in, bytes_of, IsWord, length-bytes_of, words_in-bytes_of}
use irbridge.Decoder.Refine.{bytes}
use irbridge.Server.{max_clients, add_client, closed, sent, Server}
use irbridge.Server.Broadcast.{clear_clients-map, write_toallclients-map}
use irbridge.Server.Connect.{end_connection}
use irbridge.Server.Contract.{Holds-events, add_client-Leaves}
use irbridge.Starfrit.Floats.{Float}

pub pass_on-Shows :
    (bytes : List ℕ) (h : Hub) (d : Relay)
    → Shows h d
    → (relay : Relay) × (pass_on bytes d ≡ ok relay)
      × (relay.buffer ≡ into d.buffer bytes)
      × Shows (broadcast bytes h) relay
unfolding pass_on
pass_on-Shows [] h d s = (d, refl, refl, s)
pass_on-Shows (b ∷ rest) h d s =
    let bytes = b ∷ rest in
    let buffer = into d.buffer bytes in
    let whole : take (length bytes) buffer ≡ bytes =
      take-append bytes (drop (length bytes) d.buffer) (length bytes) refl in
    let told = map (λ c. sent c bytes) h.clients in
    let σ : Server = record d.server { events = d.server.events ++ told } in
    let more : ltb 0 (length bytes) ≡ true = ground arith in
    (
      record d { server = σ; buffer = buffer },
      rw more (
          ap (λ m. m >>= λ σ. ok (record d { server = σ; buffer = buffer }))
            (write_toallclients-map h.clients buffer (length bytes) d.server s.holds
              ∙ ap
                  (λ l.
                    ok (record d.server {
                      events = d.server.events ++ map (λ c. sent c l) h.clients;
                    }))
                  whole)),
      refl,
      record {
        holds = Holds-events (d.server.events ++ told) s.holds;
        asked = ap (λ l. l ++ told) s.asked;
        driver = s.driver;
      },
    )

pub connect-Shows :
    (accepted : Option ℕ) (h : Hub) (d : Relay)
    → Shows h d
    → elim accepted [ none ↦ 0 | some _ ↦ 1 ] + length h.clients ≤ max_clients
    → (relay : Relay) × (connect accepted d ≡ ok relay) × Shows (take_in accepted h) relay
unfolding connect add_client
connect-Shows none h d s room = (d, refl, s)
connect-Shows (some c) h d s room =
    let new = add_client-Leaves h.clients c d.server s.holds (omega arith) in
    (
      record d { server = new.after },
      ap (λ m. m >>= λ σ. ok (record d { server = σ })) new.returns,
      record { holds = new.holds; asked = new.asked ∙ s.asked; driver = s.driver },
    )

-- What is closed behind the loop.
pub close_relay-Shows :
    (sock : ℕ) (h : Hub) (d : Relay)
    → Shows h d
    → (after : Relay) × (close_relay sock d ≡ ok after)
      × Shows (record h { asked = (h.asked ++ map closed h.clients) ++ (closed sock ∷ []) }) after
unfolding close_relay end_connection
close_relay-Shows sock h d s =
    let told = d.server.events ++ map closed h.clients in
    let σ : Server = end_connection sock (record d.server { events = told }) in
    (
      record d { server = σ },
      rw (clear_clients-map h.clients d.server s.holds) refl,
      record {
        holds = Holds-events σ.events s.holds;
        asked = ap (λ l. (l ++ map closed h.clients) ++ (closed sock ∷ [])) s.asked;
        driver = s.driver;
      },
    )

module _ (fl : Float) (alloc : ℕ → List ℕ) (fresh : Allocates alloc) (time : ℕ → ℕ)
    (starfrit : Bool) (fd sock : ℕ) where
  from_driver-Shows :
      (n : ℕ) (ws : List ℕ) (h : Hub) (d : Daemon fl)
      → Safe fl n d
      → Shows h d.relay
      → bytes ws < 2 ^ 32
      → All IsWord ws
      → (after : Daemon fl) × (from_driver fl alloc time starfrit (some (bytes_of ws)) d ≡ ok after)
        × Safe fl n after
        × Shows (broadcast (bytes_of ws) h) after.relay
  unfolding from_driver
  from_driver-Shows n ws h d safe s size small =
      let (relay, passed, in_buffer, s') = pass_on-Shows (bytes_of ws) h d.relay s in
      let behind = drop (length (bytes_of ws)) d.relay.buffer in
      let d' : Daemon fl = record d { relay = relay } in
      let few : length (broadcast (bytes_of ws) h).clients ≤ n = omega (
        arith,
        ap length (broadcast-clients (bytes_of ws) h),
        s.holds.counted,
        safe.holds.counted,
        safe.fewer,
      ) in
      let safe' =
        relay-Safe fl alloc fresh time n (broadcast (bytes_of ws) h).clients relay d safe s'.holds n
          few in
      let (after, ends, same, safe'') =
        weigh-Keeps fl alloc fresh time starfrit n ws (words_in behind) d' safe' size
          (ap words_in in_buffer ∙ words_in-bytes_of ws behind small) in
      (
        after,
        rw passed (ap (λ len. weigh fl alloc time starfrit len d') (length-bytes_of ws) ∙ ends),
        safe'',
        subst (Shows (broadcast (bytes_of ws) h)) (sym same) s',
      )

  pub round-Shows :
      (n : ℕ) (r : Ready) (h : Hub) (d : Daemon fl)
      → Safe fl n d
      → Works fd r
      → accepts r + n ≤ max_clients
      → Shows h d.relay
      → Distinct h.clients
      → (after : Daemon fl) × (round fl alloc time starfrit fd sock (ready r) d ≡ ok (again, after))
        × Safe fl (accepts r + n) after
        × Shows (hub_round fd sock r h) after.relay
  unfolding round
  round-Shows n r h d safe w room s apart =
      let watching = watch_all-watched h.clients fd sock d.relay.server s.holds in
      let few : length h.clients ≤ n =
        omega (arith, s.holds.counted, safe.holds.counted, safe.fewer) in
      elim (Bool-cases (r.is_ready fd)) [
        | inl on ↦
            let (after, ends, safe', s') = from_driver-Shows n w.words h d safe s w.size w.small in
            (
              after,
              rw (watching, on, w.given on, ends) refl,
              weaken fl alloc fresh time n (accepts r + n) after safe' (omega arith),
              rw (on, w.given on) s',
            )
        | inr off ↦ elim (Bool-cases (r.is_ready sock)) [
          | inl new ↦
              let (relay, ends, s') = connect-Shows r.accepted h d.relay s (omega arith) in
              let after : Daemon fl = record d { relay = relay } in
              (
                after,
                rw (watching, off, new, ends) refl,
                relay-Safe fl alloc fresh time n (take_in r.accepted h).clients relay d safe
                    s'.holds (accepts r + n) (length-take_in r.accepted h n few),
                rw (off, new) s',
              )
          | inr old ↦
              let t =
                serve-Turned r (watched fd sock h.clients).fds [] h.clients d.relay.server.count 0
                  d.relay s.holds refl (omega (arith, s.holds.counted)) apart
                  (λ x m. watch_each-clients x h.clients _ (Distinct-pos x h.clients apart m) m) in
              let after : Daemon fl = record d { relay = t.after } in
              (
                after,
                rw (watching, off, old, t.returns) refl,
                relay-Safe fl alloc fresh time n (turn r h.clients).left t.after d safe t.holds
                    (accepts r + n) (omega (arith, length-turn r h.clients)),
                rw (off, old)
                    (record {
                      holds = t.holds;
                      asked = t.asked ∙ ap (λ l. l ++ map closed (turn r h.clients).ended) s.asked;
                      driver = t.driver ∙ ap (λ l. l ++ (turn r h.clients).message) s.driver;
                    }),
              )
        ]
      ]
