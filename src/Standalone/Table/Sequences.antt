-- ===== src/Standalone/Table/Sequences.antt =====
-- Sequences of calls of raspberrypi/server/server.c and of raspberrypi/irbrgd/server.c.
use mathlib.Core.Path.{subst}
use irbridge.Base.{
  ℕ, zero, suc, ◌+◌, ◌≤◌, ◌≡◌, refl, sym, ap, ◌∙◌, Option, none, some, List, [], ◌∷◌, ◌++◌, map,
  Outcome, ok, fault, out_of_fuel, ◌>>=◌, >>=-assoc, >>=-cong, length, length-append, read, take,
  ◌==◌, if◌then◌else◌, arith,
}
use irbridge.Server
use irbridge.Server.{Server, max_clients, send_to, sent, closed}
use irbridge.Server.Broadcast.{write_toallclients-map, clear_clients-map}
use irbridge.Server.Contract.{Holds, Holds-events}
use irbridge.Server.Removal.{removed, length-removed}
use irbridge.Standalone.Table
use irbridge.Standalone.Table.{Table, say, ask, send_failed, asked_of}
use irbridge.Standalone.Table.Agreement.{forget, add_client-Agrees, remove_client-Agrees}

-- A call by `main`: a client is accepted or not, a client is removed, bytes are sent to all, or all are
-- closed.
pub data Call : Type 0 where
  accepted : ℕ → List ℕ → Call
  not_accepted : Call
  left : ℕ → Call
  told : List ℕ → ℕ → Call
  cleared : Call

-- The clients of the table after a call.
abbrev pub clients_after : Call → List ℕ → List ℕ
clients_after (accepted csock ip) cs = cs ++ (csock ∷ [])
clients_after not_accepted cs = cs
clients_after (left csock) cs = removed csock cs
clients_after (told buffer len) cs = cs
clients_after cleared cs = cs

abbrev pub clients_after_all : List Call → List ℕ → List ℕ
clients_after_all [] cs = cs
clients_after_all (k ∷ ks) cs = clients_after_all ks (clients_after k cs)

abbrev pub acceptances : List Call → ℕ
acceptances [] = 0
acceptances (accepted csock ip ∷ ks) = suc (acceptances ks)
acceptances (not_accepted ∷ ks) = acceptances ks
acceptances (left csock ∷ ks) = acceptances ks
acceptances (told buffer len ∷ ks) = acceptances ks
acceptances (cleared ∷ ks) = acceptances ks

-- The calls in the daemon.
abbrev pub in_daemon : Call → Server → Outcome Server
in_daemon (accepted csock ip) = Server.add_client (some csock)
in_daemon not_accepted = Server.add_client none
in_daemon (left csock) = Server.remove_client csock
in_daemon (told buffer len) = Server.write_toallclients buffer len
in_daemon cleared = Server.clear_clients

abbrev pub all_in_daemon : List Call → Server → Outcome Server
all_in_daemon [] σ = ok σ
all_in_daemon (k ∷ ks) σ = in_daemon k σ >>= all_in_daemon ks

close_from-forget :
    (n idx : ℕ) (t : Table)
    → (Table.close_from n idx t >>= λ t'. ok (forget t')) ≡ Server.close_from n idx (forget t)
unfolding Table.close_from Server.close_from
close_from-forget zero idx t = refl
close_from-forget (suc n) idx t =
    >>=-assoc (read t.clients idx) (λ s. Table.close_from n (suc idx) (ask (closed s) t)) _
    ∙ >>=-cong (read t.clients idx) _ _ (λ s. close_from-forget n (suc idx) (ask (closed s) t))

clear_clients-forget :
    (t : Table) → (Table.clear_clients t >>= λ t'. ok (forget t')) ≡ Server.clear_clients (forget t)
unfolding Table.clear_clients Server.clear_clients
clear_clients-forget t = close_from-forget t.clients_count 0 t

asked_of-forget :
    (csock : Option ℕ) (bytes : List ℕ) (t : Table)
    → forget (asked_of csock bytes t) ≡ send_to csock bytes (forget t)
asked_of-forget none bytes t = refl
asked_of-forget (some s) bytes t = refl

module _ (sends : ℕ → ℕ) where
  -- The calls in the terminal's server.
  abbrev pub in_terminal : Call → Table → Outcome Table
  in_terminal (accepted csock ip) = Table.add_client (some (csock, ip))
  in_terminal not_accepted = Table.add_client none
  in_terminal (left csock) = Table.remove_client csock
  in_terminal (told buffer len) = Table.write_toallclients sends buffer len
  in_terminal cleared = Table.clear_clients

  abbrev pub all_in_terminal : List Call → Table → Outcome Table
  all_in_terminal [] t = ok t
  all_in_terminal (k ∷ ks) t = in_terminal k t >>= all_in_terminal ks

  write_from-forget :
      (n idx : ℕ) (buffer : List ℕ) (len : ℕ) (t : Table)
      → (Table.write_from sends n idx buffer len t >>= λ t'. ok (forget t'))
        ≡ Server.write_from n idx (take len buffer) (forget t)
  unfolding Table.write_from Server.write_from Table.client Server.client
  write_from-forget zero idx buffer len t = refl
  write_from-forget (suc n) idx buffer len t =
      let bytes = take len buffer in
      let said = λ (csock : Option ℕ).
        say (if sends idx == len then [] else send_failed ∷ []) (asked_of csock bytes t) in
      >>=-assoc (Table.client idx t)
        (λ csock. Table.write_from sends n (suc idx) buffer len (said csock)) _
      ∙ >>=-cong (Server.client idx (forget t)) _ _ (λ csock.
        write_from-forget n (suc idx) buffer len (said csock)
        ∙ ap (Server.write_from n (suc idx) bytes) (asked_of-forget csock bytes t))

  write_toallclients-forget :
      (buffer : List ℕ) (len : ℕ) (t : Table)
      → (Table.write_toallclients sends buffer len t >>= λ t'. ok (forget t'))
        ≡ Server.write_toallclients buffer len (forget t)
  unfolding Table.write_toallclients Server.write_toallclients
  write_toallclients-forget buffer len t = write_from-forget t.clients_count 0 buffer len t

  forgotten :
      (m : Outcome Table) (σ : Server)
      → (m >>= λ t. ok (forget t)) ≡ ok σ
      → (t : Table) × (m ≡ ok t) × (σ ≡ forget t)
  forgotten (ok t) σ e = (t, refl, cc e)
  forgotten fault σ e = cc e
  forgotten out_of_fuel σ e = cc e

  -- What a call does to both.
  Both : List ℕ → Call → Table → Type 0
  Both cs k t =
      (t' : Table) × (in_terminal k t ≡ ok t')
      × (in_daemon k (forget t) ≡ ok (forget t'))
      × Holds (clients_after k cs) (forget t')

  -- A call that only makes requests.
  same_table :
      (cs : List ℕ) (k : Call) (t : Table) (es : List Server.Event)
      → Holds cs (forget t)
      → (in_terminal k t >>= λ t'. ok (forget t')) ≡ in_daemon k (forget t)
      → in_daemon k (forget t) ≡ ok (record (forget t) { events = t.asked ++ es })
      → clients_after k cs ≡ cs
      → Both cs k t
  unfolding Both
  same_table cs k t es h agrees ends kept =
      let σ : Server = record (forget t) { events = t.asked ++ es } in
      let (t', returns, same) = forgotten (in_terminal k t) σ (agrees ∙ ends) in
      let held : Holds cs (forget t') = subst (Holds cs) same (Holds-events (t.asked ++ es) h) in
      (t', returns, ends ∙ ap ok same, subst (λ l. Holds l (forget t')) (sym kept) held)

  call-Both :
      (cs : List ℕ) (k : Call) (t : Table)
      → Holds cs (forget t)
      → acceptances (k ∷ []) + length cs ≤ max_clients
      → Both cs k t
  unfolding Both Table.add_client Server.add_client Table.write_toallclients
  call-Both cs (accepted csock ip) t h room =
      let a = add_client-Agrees cs csock ip t h (omega arith) in
      (a.after, a.returns, a.same, a.holds)
  call-Both cs not_accepted t h room = (say (Table.connect_failed ∷ []) t, refl, refl, h)
  call-Both cs (left csock) t h room =
      let a = remove_client-Agrees cs csock t h in (a.after, a.returns, a.same, a.holds)
  call-Both cs (told buffer len) t h room =
      same_table cs (told buffer len) t (map (λ c. sent c (take len buffer)) cs) h
        (write_toallclients-forget buffer len t) (write_toallclients-map cs buffer len (forget t) h)
        refl
  call-Both cs cleared t h room =
      same_table cs cleared t (map closed cs) h (clear_clients-forget t)
        (clear_clients-map cs (forget t) h) refl

  length-clients_after :
      (k : Call) (ks : List Call) (cs : List ℕ)
      → acceptances (k ∷ ks) + length cs ≤ max_clients
      → acceptances ks + length (clients_after k cs) ≤ max_clients
  length-clients_after (accepted csock ip) ks cs room = omega (arith, length-append cs (csock ∷ []))
  length-clients_after not_accepted ks cs room = room
  length-clients_after (left csock) ks cs room = omega (arith, length-removed csock cs)
  length-clients_after (told buffer len) ks cs room = room
  length-clients_after cleared ks cs room = room

  length-one :
      (k : Call) (ks : List Call) (cs : List ℕ)
      → acceptances (k ∷ ks) + length cs ≤ max_clients
      → acceptances (k ∷ []) + length cs ≤ max_clients
  length-one (accepted csock ip) ks cs room = omega arith
  length-one not_accepted ks cs room = omega arith
  length-one (left csock) ks cs room = omega arith
  length-one (told buffer len) ks cs room = omega arith
  length-one cleared ks cs room = omega arith

  -- From a table that holds the clients `cs`, over any sequence of calls that add, remove, address
  -- or close clients, where no more than 100 - length cs are added, and whatever `send` returns,
  -- raspberrypi/server/server.c and raspberrypi/irbrgd/server.c never fault, ask the same of the
  -- kernel and keep the same table, that of the calls on a list of clients; what the first prints
  -- does not matter to it.
  pub all_in_terminal-all_in_daemon :
      (cs : List ℕ) (ks : List Call) (t : Table)
      → Holds cs (forget t)
      → acceptances ks + length cs ≤ max_clients
      → (t' : Table) × (all_in_terminal ks t ≡ ok t')
        × (all_in_daemon ks (forget t) ≡ ok (forget t'))
        × Holds (clients_after_all ks cs) (forget t')
  unfolding Both
  all_in_terminal-all_in_daemon cs [] t h room = (t, refl, refl, h)
  all_in_terminal-all_in_daemon cs (k ∷ ks) t h room =
      let (t', once, once', held) = call-Both cs k t h (length-one k ks cs room) in
      let (after, ends, ends', held') =
        all_in_terminal-all_in_daemon (clients_after k cs) ks t' held
          (length-clients_after k ks cs room) in
      (after, rw once ends, rw once' ends', held')
