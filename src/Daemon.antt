-- ===== src/Daemon.antt =====
-- main_demonized (raspberrypi/irbrgd/main.c:286): one round of the main loop, from the call of
-- `select` on. What the kernel answers in the round is an argument; descriptors are numbers.
pub mod Words
pub mod Start
pub mod Watch
pub mod Infrared
pub mod Serve
pub mod Forward
pub mod Weight
pub mod Safety
pub mod Run
pub mod Delivery
pub mod Stream
pub mod Hub
pub mod Main
use irbridge.Base.{
  ℕ, zero, suc, ◌-◌, ◌^◌, Bool, true, false, not, ◌&&◌, ◌||◌, Option, none, some, List, [], ◌∷◌,
  ◌++◌, Outcome, ok, fault, out_of_fuel, ◌>>=◌, length, drop, ltb, leb, ◌==◌, if◌then◌else◌,
}
use irbridge.Decoder.{DecodeBuf}
use irbridge.Server.{
  Server, add_client, remove_client, clear_clients, client, read_client, write_toallclients,
}
use irbridge.Server.Connect.{end_connection}
use irbridge.Starfrit.Floats.{Float}
use irbridge.Starfrit.{Scale, starfrit_process}
use Words.{words_in}

-- The kernel's answers: whether a descriptor is ready, and what `read` on the driver, `accept` and
-- `recv` return; `none` is an error.
pub record Ready : Type 0 where
  pub is_ready : ℕ → Bool
  pub ir : Option (List ℕ)
  pub accepted : Option ℕ
  pub received : ℕ → Option (List ℕ)

pub data Polled : Type 0 where
  interrupted : Polled
  failed : ℕ → Polled
  ready : Ready → Polled

-- Whether the loop goes on, is left by `break`, or is left by `return`.
pub data Next : Type 0 where
  again : Next
  leave : Next
  give_up : ℕ → Next

-- `MAX_FD` and `rdfs`.
pub record Watched : Type 0 where
  pub fds : List ℕ
  pub max_fd : ℕ

-- `FD_SET(fd, &rdfs); ADD_MAX_FD(fd);`
abbrev pub watch : ℕ → Watched → Watched
watch fd w = record { fds = fd ∷ w.fds; max_fd = if ltb fd w.max_fd then w.max_fd else fd }

abbrev pub is_in : ℕ → List ℕ → Bool
is_in x [] = false
is_in x (y ∷ ys) = x == y || is_in x ys

-- The loop that adds the clients' sockets; sockets that are not above 0 are left out.
unfoldable pub watch_clients : ℕ → ℕ → Server → Watched → Outcome Watched
watch_clients zero idx σ w = ok w
watch_clients (suc n) idx σ w = do
  csocket ← client idx σ
  watch_clients n (suc idx) σ
      (elim csocket [ none ↦ w | some s ↦ if ltb 0 s then watch s w else w ])

-- `FD_ZERO(&rdfs); CLR_MAX_FD();`
abbrev pub nothing : Watched
nothing = record { fds = []; max_fd = 0 }

-- The sets of one round.
unfoldable pub watch_all : ℕ → ℕ → Server → Outcome Watched
watch_all fd sock σ = watch_clients σ.count 0 σ (watch sock (watch fd nothing))

-- `read` and `recv` write the bytes to the front of the buffer.
abbrev pub into : List ℕ → List ℕ → List ℕ
into buffer bytes = bytes ++ drop (length bytes) buffer

-- The state that passes words on: the table, the buffer, and what has been written to the IR driver.
pub record Relay : Type 0 where
  pub server : Server
  pub buffer : List ℕ
  pub driver : List (List ℕ)

-- A client's bytes go to the driver. The driver is then read empty, which has no other effect.
abbrev pub forward : List ℕ → Relay → Relay
forward bytes d = record d { buffer = into d.buffer bytes; driver = d.driver ++ (bytes ∷ []) }

module _ (r : Ready) where
  -- The loop over the clients, until one has sent something; `fuel` bounds its rounds.
  unfoldable pub serve : List ℕ → ℕ → ℕ → Relay → Outcome Relay
  serve fds zero idx d = if ltb idx d.server.count then out_of_fuel else ok d
  serve fds (suc n) idx d =
      if ltb idx d.server.count
      then (client idx d.server >>= λ csocket. elim csocket [
        | none ↦ serve fds n (suc idx) d
        | some s ↦
            let skip = serve fds n (suc idx) d in
            let c = read_client (r.received s) in
            let drop_it =
              remove_client s d.server >>= λ σ. serve fds n (suc idx) (record d { server = σ }) in
            if not (is_in s fds && r.is_ready s)
            then skip
            else if length c == 0
            then drop_it
            else ok (forward c d)
      ])
      else ok d

-- A read of the driver that has not failed goes to all clients, unless it is empty.
unfoldable pub pass_on : List ℕ → Relay → Outcome Relay
pass_on bytes d =
    let buffer = into d.buffer bytes in
    if ltb 0 (length bytes)
    then (write_toallclients buffer (length bytes) d.server >>= λ σ.
        ok (record d { server = σ; buffer = buffer }))
    else ok (record d { buffer = buffer })

-- Something from the connection socket.
unfoldable pub connect : Option ℕ → Relay → Outcome Relay
connect accepted d = add_client accepted d.server >>= λ σ. ok (record d { server = σ })

-- What is closed behind the loop.
unfoldable pub close_relay : ℕ → Relay → Outcome Relay
close_relay sock d =
    clear_clients d.server >>= λ σ. ok (record d { server = end_connection sock σ })

-- `while (1)` over what `select` gives, and what follows the loop: the value that is returned, or
-- `none` while the loop waits.
unfoldable pub loop :
    {S : Type 0}
    → (Polled → S → Outcome (Next × S))
    → (S → Outcome S)
    → List Polled
    → S
    → Outcome (Option ℕ × S)
loop step close [] σ = ok (none, σ)
loop step close (p ∷ ps) σ = step p σ >>= λ r. elim r.0 [
  | again ↦ loop step close ps r.1
  | leave ↦ (close r.1 >>= λ σ'. ok (some 0, σ'))
  | give_up errno ↦ ok (some errno, r.1)
]

module _ (fl : Float) where
  -- The state of the loop.
  pub record Daemon : Type 0 where
    pub relay : Relay
    pub scale : Scale fl
    pub decoder : DecodeBuf

  module _ (alloc : ℕ → List ℕ) (time : ℕ → ℕ) (starfrit : Bool) where
    -- The scale's part of a round; `len` is `c` as a `size_t`.
    unfoldable pub weigh : ℕ → Daemon → Outcome Daemon
    weigh len d =
        if starfrit
        then (starfrit_process fl alloc time (words_in d.relay.buffer) len d.scale d.decoder
            >>= λ s. ok (record d { scale = s.0; decoder = s.1 }))
        else ok d

    -- What came from the driver goes to all clients and to the scale; an error is a `c` of -1.
    unfoldable pub from_driver : Option (List ℕ) → Daemon → Outcome Daemon
    from_driver none d = weigh (2 ^ 32 - 1) d
    from_driver (some bytes) d =
        pass_on bytes d.relay >>= λ relay. weigh (length bytes) (record d { relay = relay })

    -- A round of `while (1)`.
    unfoldable pub round : ℕ → ℕ → Polled → Daemon → Outcome (Next × Daemon)
    round fd sock polled d = watch_all fd sock d.relay.server >>= λ w. elim polled [
      | interrupted ↦ ok (leave, d)
      | failed errno ↦ ok (give_up errno, d)
      | ready r ↦
          if r.is_ready fd
          then (from_driver r.ir d >>= λ d'. ok (again, d'))
          else if r.is_ready sock
          then (connect r.accepted d.relay >>= λ relay. ok (again, record d { relay = relay }))
          else (serve r w.fds d.relay.server.count 0 d.relay >>= λ relay.
              ok (again, record d { relay = relay }))
    ]

    -- What is closed behind the loop, with the scale as it is.
    unfoldable pub close_all : ℕ → Daemon → Outcome Daemon
    close_all sock d = close_relay sock d.relay >>= λ relay. ok (record d { relay = relay })

    unfoldable pub main_loop : ℕ → ℕ → List Polled → Daemon → Outcome (Option ℕ × Daemon)
    main_loop fd sock = loop (round fd sock) (close_all sock)
