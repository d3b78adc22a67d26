-- ===== src/Standalone/Table/Agreement.antt =====
-- The table of raspberrypi/server/server.c against the table of raspberrypi/irbrgd/server.c.
use mathlib.Core.Path.{subst}
use irbridge.Base.{
  ℕ, suc, ◌+◌, ◌-◌, ◌<◌, ◌≡◌, refl, sym, ap, ◌∙◌, false, some, List, [], ◌∷◌, ◌++◌, append_assoc,
  append-nil, Outcome, ok, fault, out_of_fuel, ◌>>=◌, length, length-append, snoc-append, read,
  read-append, write, arith,
}
use irbridge.Server
use irbridge.Server.{closed, sent, Server, max_clients, move_up}
use irbridge.Server.Connect.{Calls, init_connection}
use irbridge.Server.Contract.{Holds, Leaves, add_client-Leaves, remove_client-Leaves}
use irbridge.Server.Removal.{removed}
use irbridge.Standalone.Table
use irbridge.Standalone.Table.{
  Table, Line, slot, say, ask, asked_of, display_from, debug_clients_display, new_client,
  removed_client,
}

-- The table without what has been printed.
abbrev pub forget : Table → Server
forget t = record { slots = t.clients; count = t.clients_count; events = t.asked }

-- What `debug_clients_display` prints.
abbrev pub listing : ℕ → List ℕ → List Line
listing idx [] = []
listing idx (c ∷ cs) = slot idx c ∷ listing (suc idx) cs

display_from-listing :
    (pre cs spare : List ℕ) (idx : ℕ) (lines : List Line) (t : Table)
    → t.clients ≡ pre ++ (cs ++ spare)
    → idx ≡ length pre
    → display_from (length cs) idx (record t { printed = lines })
      ≡ ok (record t { printed = lines ++ listing idx cs })
unfolding display_from
display_from-listing pre [] spare idx lines t e i =
    ap (λ l. ok (record t { printed = l })) (sym (append-nil lines))
display_from-listing pre (c ∷ cs) spare idx lines t e i =
    let now : read t.clients idx ≡ ok c =
      ap (λ l. read l idx) e ∙ read-append pre (cs ++ spare) c idx i in
    rw now (
      display_from-listing (pre ++ (c ∷ [])) cs spare (suc idx) (lines ++ (slot idx c ∷ [])) t
        (e ∙ snoc-append pre (cs ++ spare) c) (omega (arith, length-append pre (c ∷ [])))
      ∙ ap (λ l. ok (record t { printed = l }))
          (append_assoc lines (slot idx c ∷ []) (listing (suc idx) cs)))

-- The table is printed as it is.
debug_clients_display-listing :
    (cs : List ℕ) (t : Table)
    → Holds cs (forget t)
    → debug_clients_display t ≡ ok (say (listing 0 cs) t)
unfolding debug_clients_display
debug_clients_display-listing cs t h =
    ap (λ n. display_from n 0 t) h.counted
    ∙ display_from-listing [] cs h.spare 0 t.printed t h.slots_are refl

-- That code on this table does what code on the daemon's does, leaves the clients `cs`, and prints
-- some lines.
pub record Agrees (cs : List ℕ) (lines : List Line) (t : Table) (m : Outcome Table)
    (m' : Outcome Server) : Type 0 where
  pub after : Table
  pub returns : m ≡ ok after
  pub same : m' ≡ ok (forget after)
  pub holds : Holds cs (forget after)
  pub says : after.printed ≡ t.printed ++ lines

by_steps :
    {cs : List ℕ} {lines : List Line} {t : Table} {m n : Outcome Table} {m' : Outcome Server}
    → m ≡ n
    → Agrees cs lines t n m'
    → Agrees cs lines t m m'
by_steps e a = record {
  after = a.after;
  returns = e ∙ a.returns;
  same = a.same;
  holds = a.holds;
  says = a.says;
}

-- The end of `add_client` and `remove_client`: the table is printed.
displayed :
    (cs : List ℕ) (line : Line) (t t' : Table) (m : Outcome Server)
    → Holds cs (forget t')
    → m ≡ ok (forget t')
    → t'.printed ≡ t.printed
    → Agrees cs (line ∷ listing 0 cs) t (debug_clients_display (say (line ∷ []) t')) m
displayed cs line t t' m h same printed = record {
  after = say (listing 0 cs) (say (line ∷ []) t');
  returns =
      debug_clients_display-listing cs (say (line ∷ []) t')
        (record { spare = h.spare; slots_are = h.slots_are; counted = h.counted; sized = h.sized });
  same = same;
  holds = record { spare = h.spare; slots_are = h.slots_are; counted = h.counted; sized = h.sized };
  says =
      append_assoc t'.printed (line ∷ []) (listing 0 cs)
      ∙ ap (λ l. l ++ (line ∷ listing 0 cs)) printed;
}

pub add_client-Agrees :
    (cs : List ℕ) (csock : ℕ) (ip : List ℕ) (t : Table)
    → Holds cs (forget t)
    → length cs < max_clients
    → Agrees
        (cs ++ (csock ∷ []))
        (new_client (length cs) ip ∷ listing 0 (cs ++ (csock ∷ [])))
        t
        (Table.add_client (some (csock, ip)) t)
        (Server.add_client (some csock) (forget t))
unfolding Table.add_client Server.add_client
add_client-Agrees cs csock ip t h room = go (write t.clients t.clients_count csock) refl
  where
    new : Leaves (cs ++ (csock ∷ [])) t.asked (Server.add_client (some csock) (forget t))
    new = add_client-Leaves cs csock (forget t) h room

    go :
        (m : Outcome (List ℕ))
        → write t.clients t.clients_count csock ≡ m
        → Agrees
            (cs ++ (csock ∷ []))
            (new_client (length cs) ip ∷ listing 0 (cs ++ (csock ∷ [])))
            t
            (Table.add_client (some (csock, ip)) t)
            (Server.add_client (some csock) (forget t))
    go (ok slots) e =
        let t' : Table = record t { clients = slots; clients_count = t.clients_count + 1 } in
        let same : Server.add_client (some csock) (forget t) ≡ ok (forget t') = rw e refl in
        let held : Holds (cs ++ (csock ∷ [])) (forget t') =
          subst (Holds (cs ++ (csock ∷ []))) (cc (same, new.returns)) new.holds in
        by_steps
          (ap
              (λ m. m >>= λ clients. debug_clients_display (
                say (new_client t.clients_count ip ∷ [])
                  (record t { clients = clients; clients_count = t.clients_count + 1 })))
              e
            ∙ ap (λ n. debug_clients_display (say (new_client n ip ∷ []) t')) h.counted)
          (displayed (cs ++ (csock ∷ [])) (new_client (length cs) ip) t t' _ held same refl)
    go fault e =
        let bad : Server.add_client (some csock) (forget t) ≡ fault = rw e refl in
        absurd (cc (bad, new.returns))
    go out_of_fuel e =
        let bad : Server.add_client (some csock) (forget t) ≡ out_of_fuel = rw e refl in
        absurd (cc (bad, new.returns))

pub remove_client-Agrees :
    (cs : List ℕ) (csock : ℕ) (t : Table)
    → Holds cs (forget t)
    → Agrees
        (removed csock cs)
        (removed_client ∷ listing 0 (removed csock cs))
        t
        (Table.remove_client csock t)
        (Server.remove_client csock (forget t))
unfolding Table.remove_client Server.remove_client
remove_client-Agrees cs csock t h =
    go (move_up csock t.clients_count 0 false t.clients_count t.clients) refl
  where
    less :
        Leaves
          (removed csock cs)
          (t.asked ++ (closed csock ∷ []))
          (Server.remove_client csock (forget t))
    less = remove_client-Leaves cs csock (forget t) h

    go :
        (m : Outcome (List ℕ))
        → move_up csock t.clients_count 0 false t.clients_count t.clients ≡ m
        → Agrees
            (removed csock cs)
            (removed_client ∷ listing 0 (removed csock cs))
            t
            (Table.remove_client csock t)
            (Server.remove_client csock (forget t))
    go (ok slots) e =
        let t' : Table = record t {
          clients = slots;
          clients_count = t.clients_count - 1;
          asked = t.asked ++ (closed csock ∷ []);
        } in
        let same : Server.remove_client csock (forget t) ≡ ok (forget t') = rw e refl in
        let held : Holds (removed csock cs) (forget t') =
          subst (Holds (removed csock cs)) (cc (same, less.returns)) less.holds in
        by_steps (rw e refl) (displayed (removed csock cs) removed_client t t' _ held same refl)
    go fault e =
        let bad : Server.remove_client csock (forget t) ≡ fault = rw e refl in
        absurd (cc (bad, less.returns))
    go out_of_fuel e =
        let bad : Server.remove_client csock (forget t) ≡ out_of_fuel = rw e refl in
        absurd (cc (bad, less.returns))

-- Both open the same socket.
pub init_connection-forget :
    (port : ℕ) (calls : Calls) (t : Table)
    → let r = Table.init_connection port calls t in
      init_connection port calls (forget t) ≡ (r.0, forget r.1)
unfolding Table.init_connection init_connection
init_connection-forget port calls t = ground arith
