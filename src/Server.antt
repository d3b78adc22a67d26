-- ===== src/Server.antt =====
-- raspberrypi/irbrgd/server.c and server.h: the table of the connected clients. Sockets are natural
-- numbers, and `none` stands for the -1 of a failed call; the log is left out.
pub mod Removal
pub mod Contract
pub mod Broadcast
pub mod Connect
pub mod Inbox
use irbridge.Base.{
  ℕ, zero, suc, ◌+◌, ◌-◌, ◌<◌, Bool, true, false, not, ◌&&◌, ◌||◌, Option, none, some, List, [],
  ◌∷◌, ◌++◌, Outcome, ok, fault, ◌>>=◌, length, read, write, take, ltb, leb, ◌==◌, if◌then◌else◌,
}

abbrev pub max_clients : ℕ
max_clients = 100

abbrev pub buf_size : ℕ
buf_size = 1024

-- What the server asks of the kernel.
pub data Event : Type 0 where
  closed : ℕ → Event
  sent : ℕ → List ℕ → Event

-- `_clients` and `_clients_count`, with the requests made so far.
pub record Server : Type 0 where
  pub slots : List ℕ
  pub count : ℕ
  pub events : List Event

-- `closesocket(s)`
abbrev pub close_socket : ℕ → Server → Server
close_socket s σ = record σ { events = σ.events ++ (closed s ∷ []) }

-- `accepted` is what `accept` has returned.
unfoldable pub add_client : Option ℕ → Server → Outcome Server
add_client none σ = ok σ
add_client (some csock) σ =
    write σ.slots σ.count csock >>= λ slots. ok (record σ { slots = slots; count = σ.count + 1 })

-- The loop of `remove_client`, with `n` rounds to go from `idx`.
unfoldable pub move_up : ℕ → ℕ → ℕ → Bool → ℕ → List ℕ → Outcome (List ℕ)
move_up csock zero idx moveup count slots = ok slots
move_up csock (suc n) idx moveup count slots = do
  c ← read slots idx
  let moveup' = c == csock || moveup
  slots' ←
      (if moveup' && ltb (suc idx) count
        then (read slots (suc idx) >>= λ d. write slots idx d)
        else ok slots)
  move_up csock n (suc idx) moveup' count slots'

unfoldable pub remove_client : ℕ → Server → Outcome Server
remove_client csock σ = do
  slots ← move_up csock σ.count 0 false σ.count σ.slots
  ok (record (close_socket csock σ) { slots = slots; count = σ.count - 1 })

unfoldable pub client : ℕ → Server → Outcome (Option ℕ)
client idx σ = if leb σ.count idx then ok none else (read σ.slots idx >>= λ s. ok (some s))

-- The loop of `clear_clients`.
unfoldable pub close_from : ℕ → ℕ → Server → Outcome Server
close_from zero idx σ = ok σ
close_from (suc n) idx σ = read σ.slots idx >>= λ s. close_from n (suc idx) (close_socket s σ)

unfoldable pub clear_clients : Server → Outcome Server
clear_clients σ = close_from σ.count 0 σ

-- `none` is a socket of -1: `send` fails on it, and the failure is only logged.
abbrev pub send_to : Option ℕ → List ℕ → Server → Server
send_to none buffer σ = σ
send_to (some s) buffer σ = record σ { events = σ.events ++ (sent s buffer ∷ []) }

-- The loop of `write_toallclients`; a `send` that fails or is cut short is only logged.
unfoldable pub write_from : ℕ → ℕ → List ℕ → Server → Outcome Server
write_from zero idx buffer σ = ok σ
write_from (suc n) idx buffer σ =
    client idx σ >>= λ csock. write_from n (suc idx) buffer (send_to csock buffer σ)

unfoldable pub write_toallclients : List ℕ → ℕ → Server → Outcome Server
write_toallclients buffer len σ = write_from σ.count 0 (take len buffer) σ

-- `received` is what `recv` has returned, with the buffer: an error is read as an end.
unfoldable pub read_client : Option (List ℕ) → List ℕ
read_client none = []
read_client (some bytes) = bytes
