-- ===== src/Server/Connect.antt =====
-- init_connection and end_connection (raspberrypi/irbrgd/server.c:10). What the system calls return
-- is an argument, `none` for -1; the port is an `int` as its 32 bits.
use irbridge.Base.{
  ℕ, ◌≤◌, ◌<◌, ◌≡◌, refl, Bool, true, false, ◌||◌, Option, none, some, [], ◌∷◌, ◌++◌, ltb, leb,
  ◌==◌, not, if◌then◌else◌, arith,
}
use irbridge.Server.{closed, Server, close_socket}

pub record Calls : Type 0 where
  pub socket : Option ℕ
  pub bound : Bool
  pub listening : Bool
  pub errno : ℕ

-- The `int` that is returned: -1, an `errno`, or the socket.
pub data Connection : Type 0 where
  invalid_port : Connection
  error : ℕ → Connection
  made : ℕ → Connection

unfoldable pub init_connection : ℕ → Calls → Server → Connection × Server
init_connection port calls σ =
    if port == 0 || ltb 65000 port then (invalid_port, σ) else elim calls.socket [
      | none ↦ (error calls.errno, σ)
      | some s ↦
          if not calls.bound
          then (error calls.errno, close_socket s σ)
          else if not calls.listening
          then (error calls.errno, close_socket s σ)
          else (made s, σ)
    ]

unfoldable pub end_connection : ℕ → Server → Server
end_connection sock σ = close_socket sock σ

-- The test `sock<=0` of the caller (raspberrypi/irbrgd/main.c:328).
unfoldable pub is_refused : Connection → Bool
is_refused invalid_port = true
is_refused (error e) = leb e 0
is_refused (made s) = leb s 0

-- With a port from 1 to 65000 and calls that succeed, the socket is returned.
pub init_connection-made :
    (port s : ℕ) (calls : Calls) (σ : Server)
    → 0 < port
    → port ≤ 65000
    → calls.socket ≡ some s
    → calls.bound ≡ true
    → calls.listening ≡ true
    → init_connection port calls σ ≡ (made s, σ)
unfolding init_connection
init_connection-made port s calls σ lo hi opened bound listening =
    let zero_port : (port == 0) ≡ false = ground arith in
    let high_port : ltb 65000 port ≡ false = ground arith in
    rw (zero_port, high_port, opened, bound, listening) refl

-- With a port from 1 to 65000, where a socket is made but `bind` fails with a positive `errno`,
-- `init_connection` closes the socket and returns a number that its caller takes for a socket.
pub init_connection_mistaken :
    (port s : ℕ) (calls : Calls) (σ : Server)
    → 0 < port
    → port ≤ 65000
    → calls.socket ≡ some s
    → calls.bound ≡ false
    → 0 < calls.errno
    → let r = init_connection port calls σ in
      (is_refused r.0 ≡ false) × (r.1.events ≡ σ.events ++ (closed s ∷ []))
unfolding init_connection is_refused
init_connection_mistaken port s calls σ lo hi opened unbound failed =
    let zero_port : (port == 0) ≡ false = ground arith in
    let high_port : ltb 65000 port ≡ false = ground arith in
    let positive : leb calls.errno 0 ≡ false = ground arith in
    rw (zero_port, high_port, opened, unbound, positive) (refl, refl)
