-- ===== src/Tests/Serving.antt =====
-- The server, the main loop and the led on concrete inputs.
use irbridge.Base.{
  ℕ, ◌+◌, ◌≡◌, ◌⊎◌, refl, Bool, true, false, none, some, List, [], ◌∷◌, ◌++◌, ok, fault, ◌>>=◌,
  replicate, codes, ◌==◌, arith,
}
use irbridge.Daemon.{Ready, ready, again, Relay, Daemon, serve, round}
use irbridge.Daemon.Infrared.{relayed, round-infrared}
use irbridge.Console.{Console}
use irbridge.Daemon.Start.{Lock, IsLocked, run_daemon, hang_up, exit_one, main, main_exclusive}
use irbridge.Server.Connect.{Calls, init_connection, is_refused, init_connection_mistaken}
use irbridge.Daemon.Serve.{Served, serve_total}
use irbridge.Daemon.Words.{bytes_of}
use irbridge.Decoder.Frames.{cut}
use irbridge.Decoder.Protocol.{buf_of}
use irbridge.Led.{FileOp, put, export_path, pin_path, unregister_led, register_led}
use irbridge.Led.Laws.{register_led-cases}
use irbridge.Server.{closed, Server, add_client, remove_client}
use irbridge.Server.Contract.{Holds, Leaves, add_client_overflow, remove_client-Leaves}
use irbridge.Server.Removal.{removed}
use irbridge.Starfrit.{Scale}
use irbridge.Starfrit.Stream.{weigh_all}
use irbridge.Unkn0.Symbols.{unkn0_symbol}
use irbridge.Tests.{alloc, alloc-fresh, tenths_float}

abbrev three : List ℕ
three = 5 ∷ 8 ∷ 6 ∷ []

abbrev table : Server
table = record { slots = three ++ replicate 97 0; count = 3; events = [] }

table-Holds : Holds three table
table-Holds = record { spare = replicate 97 0; slots_are = refl; counted = refl; sized = refl }

abbrev hundred : List ℕ
hundred = replicate 100 9

abbrev full_table : Server
full_table = record { slots = hundred; count = 100; events = [] }

full_table-Holds : Holds hundred full_table
full_table-Holds = record { spare = []; slots_are = refl; counted = refl; sized = refl }

add_client_overflow_example : add_client (some 7) full_table ≡ fault
add_client_overflow_example = add_client_overflow hundred 7 full_table full_table-Holds refl

remove_client_example : Leaves (removed 8 three) ([] ++ (closed 8 ∷ [])) (remove_client 8 table)
remove_client_example = remove_client-Leaves three 8 table table-Holds

abbrev idle : Scale tenths_float
idle = record {
  last_measurement = 0;
  samevalue_count = 0;
  last_measurement_date = 0;
  clients = [];
  times = 0;
  effects = [];
}

abbrev relay : Relay
relay = record { server = table; buffer = replicate 1024 0; driver = [] }

abbrev daemon : Daemon tenths_float
daemon = record { relay = relay; scale = idle; decoder = buf_of (b'1' ∷ []) }

abbrev some_words : List ℕ
some_words = 0x1000230 ∷ 560 ∷ 90000 ∷ []

abbrev from_ir : Ready
from_ir = record {
  is_ready = λ x. x == 3;
  ir = some (bytes_of some_words);
  accepted = none;
  received = λ s. none;
}

abbrev ir_error : Ready
ir_error = record from_ir { ir = none }

abbrev closing : Ready
closing = record { is_ready = λ x. x == 5; ir = none; accepted = none; received = λ s. some [] }

round-infrared_example : round tenths_float alloc (λ n. n) true 3 4 (ready from_ir) daemon ≡ (
    weigh_all tenths_float alloc (λ n. n) (cut unkn0_symbol (b'1' ∷ []) some_words).frames idle
    >>= λ scale. ok (
      again,
      record (relayed tenths_float alloc (λ n. n) three some_words daemon) {
        scale = scale;
        decoder = buf_of (cut unkn0_symbol (b'1' ∷ []) some_words).open_bits;
      },
    ))
round-infrared_example =
    round-infrared tenths_float alloc (λ n. n) three some_words (b'1' ∷ []) 3 4 from_ir daemon
      alloc-fresh table-Holds refl refl (omega arith) (omega arith)
      (omega arith, (omega arith, (omega arith, tt))) refl (omega arith) (refl, tt)

serve_total_example : Served closing three relay (serve closing (5 ∷ 8 ∷ 6 ∷ []) 3 0 relay)
serve_total_example = serve_total closing (5 ∷ 8 ∷ 6 ∷ []) three relay table-Holds

abbrev opens : List FileOp → List ℕ → Bool
opens ops path = true

abbrev digit : ℕ → List ℕ
digit n = (n + b'0') ∷ []

abbrev exported : List FileOp
exported = [] ++ (put export_path (digit 4) ∷ [])

register_led_example :
    (((register_led opens opens digit 4 []).ret ≡ 0)
      × ((register_led opens opens digit 4 []).ops
          ≡ exported
            ++ (put (pin_path opens opens digit 4 (codes "/direction")) (codes "out") ∷ [])))
    ⊎ ((((register_led opens opens digit 4 []).ret ≡ 1)
          × ((register_led opens opens digit 4 []).ops ≡ []))
        ⊎ (((register_led opens opens digit 4 []).ret ≡ 1)
            × ((register_led opens opens digit 4 []).ops
                ≡ unregister_led opens opens digit 4 exported)))
register_led_example = register_led-cases opens opens digit 4 []

abbrev held : Lock
held = record { opened = true; queried = true; unlocked = false; holder = 42 }

main_exclusive_example :
    (IsLocked held
      × (main (codes "start" ∷ []) held ≡ exit_one)
      × (main (codes "stop" ∷ []) held ≡ hang_up 42))
    ⊎ ((¬ IsLocked held)
        × (main (codes "start" ∷ []) held ≡ run_daemon)
        × (main (codes "stop" ∷ []) held ≡ exit_one))
main_exclusive_example = main_exclusive held

-- `bind` fails as it does for an address in use.
abbrev address_in_use : Calls
address_in_use = record { socket = some 3; bound = false; listening = false; errno = 98 }

init_connection_example :
    (is_refused (init_connection 8000 address_in_use table).0 ≡ false)
    × ((init_connection 8000 address_in_use table).1.events ≡ [] ++ (closed 3 ∷ []))
init_connection_example =
    init_connection_mistaken 8000 3 address_in_use table (omega arith) (omega arith) refl refl
      (omega arith)

abbrev console : Console
console = record { sent_words = []; shown = []; decoder = buf_of [] }
