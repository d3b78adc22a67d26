-- ===== src/Tests/Tables.antt =====
-- The table of raspberrypi/server/server.c over some calls.
use irbridge.Base.{◌≡◌, refl, List, [], ◌∷◌, ok, codes, replicate, arith}
use irbridge.Server.Contract.{Holds}
use irbridge.Standalone.Table.{Table}
use irbridge.Standalone.Table.Agreement.{forget}
use irbridge.Standalone.Table.Sequences.{
  Call, accepted, not_accepted, left, told, cleared, clients_after_all, all_in_terminal,
  all_in_daemon, all_in_terminal-all_in_daemon,
}

abbrev empty : Table
empty = record { clients = replicate 100 0; clients_count = 0; asked = []; printed = [] }

empty-Holds : Holds [] (forget empty)
empty-Holds = record { spare = replicate 100 0; slots_are = refl; counted = refl; sized = refl }

abbrev calls : List Call
calls =
    accepted 5 (codes "10.0.0.2")
    ∷ accepted 6 (codes "10.0.0.3")
    ∷ not_accepted
    ∷ told (1 ∷ 2 ∷ 3 ∷ []) 2
    ∷ left 5
    ∷ cleared
    ∷ []

all_in_terminal-all_in_daemon_example :
    (t' : Table) × (all_in_terminal (λ idx. 2) calls empty ≡ ok t')
    × (all_in_daemon calls (forget empty) ≡ ok (forget t'))
    × Holds (clients_after_all calls []) (forget t')
all_in_terminal-all_in_daemon_example =
    all_in_terminal-all_in_daemon (λ idx. 2) [] calls empty empty-Holds (omega arith)
