-- ===== src/Standalone/Table.antt =====
-- raspberrypi/server/server.c: the table of the clients of the server in a terminal, with what it
-- prints. What the system calls return is an argument, `none` for -1.
pub mod Agreement
pub mod Sequences
use irbridge.Base.{
  ℕ, zero, suc, ◌+◌, ◌-◌, Bool, true, false, not, ◌||◌, Option, none, some, List, [], ◌∷◌, ◌++◌,
  Outcome, ok, ◌>>=◌, length, read, write, take, ltb, leb, ◌==◌, if◌then◌else◌,
}
use irbridge.Server.{Event, closed, sent, Server, move_up}
use irbridge.Server.Connect.{Calls, Connection, invalid_port, error, made}

-- What is printed, to the terminal or as an error.
pub data Line : Type 0 where
  bad_port recv_failed removed_client : Line
  connect_failed send_failed : Line
  created : ℕ → Line
  new_client : ℕ → List ℕ → Line
  slot : ℕ → ℕ → Line

-- `_clients` and `_clients_count`, with what has been asked of the kernel and what has been printed.
pub record Table : Type 0 where
  pub clients : List ℕ
  pub clients_count : ℕ
  pub asked : List Event
  pub printed : List Line

abbrev pub say : List Line → Table → Table
say lines t = record t { printed = t.printed ++ lines }

abbrev pub ask : Event → Table → Table
ask e t = record t { asked = t.asked ++ (e ∷ []) }

unfoldable pub init_connection : ℕ → Calls → Table → Connection × Table
init_connection port calls t =
    let failed : Table = say (connect_failed ∷ []) t in
    if port == 0 || ltb 65000 port
    then (invalid_port, say (bad_port ∷ []) t)
    else elim calls.socket [
      | none ↦ (error calls.errno, failed)
      | some s ↦
          if not calls.bound
          then (error calls.errno, ask (closed s) failed)
          else if not calls.listening
          then (error calls.errno, ask (closed s) failed)
          else (made s, say (created port ∷ []) t)
    ]

unfoldable pub end_connection : ℕ → Table → Table
end_connection sock t = ask (closed sock) t

-- The loop of `debug_clients_display`, with `n` rounds to go.
unfoldable pub display_from : ℕ → ℕ → Table → Outcome Table
display_from zero idx t = ok t
display_from (suc n) idx t =
    read t.clients idx >>= λ c. display_from n (suc idx) (say (slot idx c ∷ []) t)

unfoldable pub debug_clients_display : Table → Outcome Table
debug_clients_display t = display_from t.clients_count 0 t

-- `accept` gives a socket and the client's address.
unfoldable pub add_client : Option (ℕ × List ℕ) → Table → Outcome Table
add_client none t = ok (say (connect_failed ∷ []) t)
add_client (some (csock, ip)) t = do
  clients ← write t.clients t.clients_count csock
  debug_clients_display (
      say (new_client t.clients_count ip ∷ [])
        (record t { clients = clients; clients_count = t.clients_count + 1 }))

-- The loop over the slots has the same text as the daemon's.
unfoldable pub remove_client : ℕ → Table → Outcome Table
remove_client csock t = do
  clients ← move_up csock t.clients_count 0 false t.clients_count t.clients
  debug_clients_display (record t {
    clients = clients;
    clients_count = t.clients_count - 1;
    asked = t.asked ++ (closed csock ∷ []);
    printed = t.printed ++ (removed_client ∷ []);
  })

unfoldable pub client : ℕ → Table → Outcome (Option ℕ)
client idx t =
    if leb t.clients_count idx then ok none else (read t.clients idx >>= λ s. ok (some s))

-- The loop of `clear_clients`.
unfoldable pub close_from : ℕ → ℕ → Table → Outcome Table
close_from zero idx t = ok t
close_from (suc n) idx t = read t.clients idx >>= λ s. close_from n (suc idx) (ask (closed s) t)

unfoldable pub clear_clients : Table → Outcome Table
clear_clients t = close_from t.clients_count 0 t

-- The bytes that `recv` gives, none after an error.
unfoldable pub read_client : Option (List ℕ) → Table → List ℕ × Table
read_client none t = ([], say (recv_failed ∷ []) t)
read_client (some bytes) t = (bytes, t)

-- A socket of -1 is not asked.
abbrev pub asked_of : Option ℕ → List ℕ → Table → Table
asked_of none buffer t = t
asked_of (some s) buffer t = ask (sent s buffer) t

-- `sends` is what `send` returns, by the client's index.
module _ (sends : ℕ → ℕ) where
  -- The loop of `write_toallclients`.
  unfoldable pub write_from : ℕ → ℕ → List ℕ → ℕ → Table → Outcome Table
  write_from zero idx buffer len t = ok t
  write_from (suc n) idx buffer len t = client idx t >>= λ csock.
      let t' = asked_of csock (take len buffer) t in
      write_from n (suc idx) buffer len (say (if sends idx == len then [] else send_failed ∷ []) t')

  unfoldable pub write_toallclients : List ℕ → ℕ → Table → Outcome Table
  write_toallclients buffer len t = write_from t.clients_count 0 buffer len t
