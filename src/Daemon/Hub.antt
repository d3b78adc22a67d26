-- ===== src/Daemon/Hub.antt =====
-- An abstract view of the loop of raspberrypi/irbrgd/main.c:336: a hub that has some clients in the
-- order in which they came, and passes bytes on between them and the infrared driver.
pub mod Slots
pub mod Serving
pub mod Clients
pub mod Round
pub mod Run
use irbridge.Base.{
  ℕ, suc, ◌<◌, ◌≡◌, Bool, true, false, not, ◌&&◌, Option, none, some, List, [], ◌∷◌, ◌++◌, map,
  length, All, ◌==◌, if◌then◌else◌,
}
use irbridge.Daemon.{Ready, Polled, interrupted, failed, ready, Relay}
use irbridge.Server.{Event, closed, sent, read_client}
use irbridge.Server.Contract.{Holds}
use irbridge.Server.Inbox.{occurs}

-- The clients, what has been asked of the kernel about them, and what the driver has been given.
pub record Hub : Type 0 where
  pub clients : List ℕ
  pub asked : List Event
  pub driver : List (List ℕ)

-- What the clients' turn comes to: those that stay, those that have left, and what is for the driver.
pub record Turn : Type 0 where
  pub left : List ℕ
  pub ended : List ℕ
  pub message : List (List ℕ)

module _ (r : Ready) where
  -- The clients are asked in order, until one has sent something. One that has ended leaves, and the
  -- client behind it is not asked in this turn.
  abbrev pub turn : List ℕ → Turn
  turn [] = record { left = []; ended = []; message = [] }
  turn (c ∷ []) =
      if not (r.is_ready c)
      then record { left = c ∷ []; ended = []; message = [] }
      else if length (read_client (r.received c)) == 0
      then record { left = []; ended = c ∷ []; message = [] }
      else record { left = c ∷ []; ended = []; message = read_client (r.received c) ∷ [] }
  turn (c ∷ d ∷ cs) =
      let next = turn (d ∷ cs) in
      let after_next = turn cs in
      if not (r.is_ready c)
      then record next { left = c ∷ next.left }
      else if length (read_client (r.received c)) == 0
      then record after_next { left = d ∷ after_next.left; ended = c ∷ after_next.ended }
      else record { left = c ∷ d ∷ cs; ended = []; message = read_client (r.received c) ∷ [] }

-- Bytes of the driver go to every client.
abbrev pub broadcast : List ℕ → Hub → Hub
broadcast [] h = h
broadcast (b ∷ bytes) h = record h { asked = h.asked ++ map (λ c. sent c (b ∷ bytes)) h.clients }

abbrev pub take_in : Option ℕ → Hub → Hub
take_in none h = h
take_in (some c) h = record h { clients = h.clients ++ (c ∷ []) }

abbrev pub take_turn : Ready → Hub → Hub
take_turn r h =
    let t = turn r h.clients in
    record {
      clients = t.left;
      asked = h.asked ++ map closed t.ended;
      driver = h.driver ++ t.message;
    }

-- The driver comes first, then a new client, then the clients.
abbrev pub hub_round : ℕ → ℕ → Ready → Hub → Hub
hub_round fd sock r h =
    if r.is_ready fd
    then elim r.ir [ none ↦ h | some bytes ↦ broadcast bytes h ]
    else if r.is_ready sock
    then take_in r.accepted h
    else take_turn r h

-- All that happens until the loop is left, and what is closed then.
abbrev pub hub_run : ℕ → ℕ → List Polled → Hub → Hub
hub_run fd sock [] h = h
hub_run fd sock (interrupted ∷ ps) h = record h {
  asked = (h.asked ++ map closed h.clients) ++ (closed sock ∷ []);
}
hub_run fd sock (failed errno ∷ ps) h = h
hub_run fd sock (ready r ∷ ps) h = hub_run fd sock ps (hub_round fd sock r h)

-- No client stands twice in the list, and all are above 0.
abbrev pub Distinct : List ℕ → Type 0
Distinct [] = Unit
Distinct (c ∷ cs) = (0 < c) × (occurs c cs ≡ 0) × Distinct cs

-- A new client's descriptor is above 0 and no other client's.
abbrev pub IsNew : Option ℕ → List ℕ → Type 0
IsNew none cs = Unit
IsNew (some c) cs = (0 < c) × (occurs c cs ≡ 0)

abbrev pub AllNew : ℕ → ℕ → List Polled → Hub → Type 0
AllNew fd sock [] h = Unit
AllNew fd sock (interrupted ∷ ps) h = Unit
AllNew fd sock (failed errno ∷ ps) h = Unit
AllNew fd sock (ready r ∷ ps) h =
    IsNew r.accepted h.clients × AllNew fd sock ps (hub_round fd sock r h)

-- That the daemon's state is that of the hub.
pub record Shows (h : Hub) (d : Relay) : Type 0 where
  pub holds : Holds h.clients d.server
  pub asked : d.server.events ≡ h.asked
  pub driver : d.driver ≡ h.driver
