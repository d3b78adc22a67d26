-- ===== src/Console/Session.antt =====
-- main of the Linux client (clients/linux/main.c:22) and its connection (clients/linux/client.c:8).
use irbridge.Base.{
  ℕ, Bool, true, not, Option, none, some, List, [], ◌∷◌, ◌++◌, Outcome, ok, ◌>>=◌, length, leb,
  if◌then◌else◌,
}
use irbridge.Daemon.{Polled, interrupted, failed, ready, Next, again, leave, give_up, into, loop}
use irbridge.Standalone.{stdin, eintr}
use irbridge.Console.{Console, last_key, on_key, read_server, from_server}

-- What `socket` and `connect` return.
pub record Link : Type 0 where
  pub socket : Option ℕ
  pub connected : Bool

-- The state of the loop, with the buffer and the sockets that have been closed.
pub record Session : Type 0 where
  pub console : Console
  pub buffer : List ℕ
  pub closed : List ℕ

-- Closing the -1 of a failed call has no effect.
unfoldable pub end_connection : Option ℕ → Session → Session
end_connection none σ = σ
end_connection (some s) σ = record σ { closed = σ.closed ++ (s ∷ []) }

-- The socket, or `none` for -1.
unfoldable pub init_connection : Link → Session → Option ℕ × Session
init_connection link σ =
    if not link.connected then (none, end_connection link.socket σ) else (link.socket, σ)

-- `sock<=0`
abbrev pub is_no_socket : Option ℕ → Bool
is_no_socket none = true
is_no_socket (some s) = leb s 0

module _ (alloc : ℕ → List ℕ) (junk : ℕ) where
  -- A round of `while (1)`: what is typed is what `received` gives for the terminal. `junk` is what
  -- `c` holds at first.
  unfoldable pub session_round : ℕ → Polled → Session → Outcome (Next × Session)
  session_round sock interrupted σ = ok (give_up eintr, σ)
  session_round sock (failed errno) σ = ok (give_up errno, σ)
  session_round sock (ready r) σ =
      let bytes = read_server (r.received sock) in
      let buffer = into σ.buffer bytes in
      if r.is_ready stdin
      then (on_key alloc (last_key (read_server (r.received stdin)) junk) σ.console >>= λ x.
          ok (if x.0 then leave else again, record σ { console = x.1 }))
      else if r.is_ready sock
      then (from_server alloc buffer (length bytes) σ.console >>= λ x.
          ok (if x.0 then leave else again, record σ { console = x.1; buffer = buffer }))
      else ok (again, σ)

  -- `main`, by the arguments behind the program's name.
  unfoldable pub client_main :
      List (List ℕ) → Link → List Polled → Session → Outcome (Option ℕ × Session)
  client_main [] link polls σ = ok (some 1, σ)
  client_main (a ∷ []) link polls σ = ok (some 1, σ)
  client_main (a ∷ b ∷ c ∷ rest) link polls σ = ok (some 1, σ)
  client_main (host ∷ port ∷ []) link polls σ =
      let r = init_connection link σ in
      if is_no_socket r.0 then ok (some 1, r.1) else elim r.0 [
        | none ↦ ok (some 1, r.1)
        | some sock ↦ loop (session_round sock) (λ τ. ok (end_connection (some sock) τ)) polls r.1
      ]
