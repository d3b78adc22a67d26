-- ===== src/Tests/Running.antt =====
-- The daemon and the server in a terminal, on a run of answers.
use irbridge.Base.{
  Option, ◌*◌, ◌-◌, ◌++◌, ℕ, ◌+◌, refl, Bool, true, false, none, some, List, [], ◌∷◌, replicate,
  codes, ◌==◌, if◌then◌else◌, ◌||◌, arith,
}
use irbridge.Config.{Conf}
use irbridge.Processes.{Spawn}
use irbridge.Daemon.{Ready, Polled, ready, interrupted, Daemon}
use irbridge.Daemon.Safety.{Works, Safe}
use irbridge.Daemon.Start.{Lock, Driver, char_device}
use irbridge.Daemon.Words.{bytes_of}
use irbridge.Decoder.Protocol.{buf_of}
use irbridge.Led.{FileOp}
use irbridge.Server.{Server}
use irbridge.Server.Connect.{Calls}
use irbridge.Server.Contract.{Holds}
use irbridge.Starfrit.{Client, command}
use irbridge.Starfrit.Steady.{Fitting}
use irbridge.Tests.{tenths_float}

-- The configuration and what is read from it.
abbrev conf_file : Option (List (List ℕ))
conf_file = some (
    codes "# irbrgd\n"
    ∷ codes "port 8123\n"
    ∷ codes "led 17\n"
    ∷ codes "starfrit ON\n"
    ∷ codes "starfrit_url 0 0 http://host/w=\n"
    ∷ [])

abbrev conf : Conf
conf = record { port = 8123; led = 17; starfrit = true; starfrit_args = codes "0 0 http://host/w=" }

abbrev number : ℕ → List ℕ → ℕ
number n [] = n
number n (c ∷ cs) = number (n * 10 + (c - b'0')) cs

-- The words between blanks; `done` is the word that has begun.
abbrev words_of_line : List ℕ → List ℕ → List (List ℕ)
words_of_line done [] = done ∷ []
words_of_line done (c ∷ cs) =
    if c == b' ' then done ∷ words_of_line [] cs else words_of_line (done ++ (c ∷ [])) cs

abbrev pub driver : Driver
driver = record { fd = some 3; stat = some char_device; rec_mode = some 4 }

abbrev pub calls : Calls
calls = record { socket = some 4; bound = true; listening = true; errno = 0 }

abbrev pub listener : Client tenths_float
listener = record { min = 1; max = 1; url = codes "http://host/w=" }

abbrev empty_server : Server
empty_server = record { slots = replicate 100 0; count = 0; events = [] }

empty-Holds : Holds [] empty_server
empty-Holds = record { spare = replicate 100 0; slots_are = refl; counted = refl; sized = refl }

abbrev with_clients : List (Client tenths_float) → Daemon tenths_float
with_clients clients = record {
  relay = record { server = empty_server; buffer = replicate 1024 0; driver = [] };
  scale = record {
    last_measurement = 0;
    samevalue_count = 0;
    last_measurement_date = 0;
    clients = clients;
    times = 0;
    effects = [];
  };
  decoder = buf_of [];
}

abbrev pub at_first : Daemon tenths_float
at_first = with_clients []

abbrev pub set_up : Daemon tenths_float
set_up = with_clients (listener ∷ [])

pub listener-Fitting : Fitting tenths_float (listener ∷ [])
unfolding command
listener-Fitting w = (omega arith, tt)

pub safe : Safe tenths_float 0 set_up
safe = record {
  cs = [];
  bits = [];
  holds = empty-Holds;
  fewer = omega arith;
  decoder_is = refl;
  fits = omega arith;
  chars = tt;
  fitting = listener-Fitting;
}

-- A client connects, the driver gives a frame, the client sends something.
abbrev pub knocking : Ready
knocking = record { is_ready = λ x. x == 4; ir = none; accepted = some 7; received = λ s. none }

abbrev pub some_words : List ℕ
some_words = 0x1000230 ∷ 560 ∷ 90000 ∷ []

abbrev pub shining : Ready
shining = record {
  is_ready = λ x. x == 3 || x == 7;
  ir = some (bytes_of some_words);
  accepted = none;
  received = λ s. none;
}

abbrev speaking : Ready
speaking = record {
  is_ready = λ x. x == 7;
  ir = none;
  accepted = none;
  received = λ s. some (1 ∷ 2 ∷ []);
}

abbrev polls : List Polled
polls = ready knocking ∷ ready shining ∷ ready speaking ∷ interrupted ∷ []

pub knocking-Works : Works 3 knocking
knocking-Works = record { words = []; given = λ e. cc e; size = omega arith; small = tt }

pub shining-Works : Works 3 shining
shining-Works = record {
  words = some_words;
  given = λ e. refl;
  size = omega arith;
  small = omega arith;
}

abbrev yes_file : List FileOp → List ℕ → Bool
yes_file ops path = true

abbrev digit : ℕ → List ℕ
digit n = (n + b'0') ∷ []

abbrev free_lock : Lock
free_lock = record { opened = true; queried = true; unlocked = true; holder = 0 }

abbrev child : Spawn
child = record { orphan = false; forked = some 0; opened = true; locked = true; pid = 7 }
