-- ===== src/Tests/Streaming.antt =====
-- A run of the daemon in which one client stays, one leaves and one comes.
use irbridge.Base.{◌++◌, ◌≡◌, refl, true, none, some, List, [], ◌∷◌, ok, ◌==◌, arith}
use irbridge.Daemon.{Ready, Polled, interrupted, ready, Daemon, main_loop}
use irbridge.Daemon.Delivery.{Stays, Listens}
use irbridge.Daemon.Run.{status}
use irbridge.Daemon.Safety.{Works}
use irbridge.Daemon.Serve.{hangs_up}
use irbridge.Daemon.Stream.{stream}
use irbridge.Daemon.Stream.Run.{main_loop-delivers}
use irbridge.Daemon.Words.{words_in}
use irbridge.Decoder.Frames.{cut}
use irbridge.Decoder.Protocol.{buf_of}
use irbridge.Server.Inbox.{sent_to}
use irbridge.Starfrit.Stream.{weigh_all}
use irbridge.Tests.{alloc, alloc-fresh, tenths_float}
use irbridge.Tests.Relaying.{two, two_served, two-Holds}
use irbridge.Tests.Running.{listener, listener-Fitting, shining, shining-Works}
use irbridge.Unkn0.Symbols.{unkn0_symbol}

abbrev pub served : Daemon tenths_float
served = record two_served { scale = record two_served.scale { clients = listener ∷ [] } }

pub served-Listens : Listens tenths_float alloc (λ n. n) 6 2 [] served
served-Listens = record {
  cs = two;
  holds = two-Holds;
  fewer = omega arith;
  once = refl;
  decoder_is = refl;
  fits = omega arith;
  chars = tt;
  fitting = listener-Fitting;
}

abbrev pub leaving : Ready
leaving = record { is_ready = λ x. x == 7; ir = none; accepted = none; received = λ s. none }

abbrev pub coming : Ready
coming = record { is_ready = λ x. x == 4; ir = none; accepted = some 8; received = λ s. none }

abbrev pub polled : List Polled
polled = ready shining ∷ ready leaving ∷ ready coming ∷ ready shining ∷ interrupted ∷ []

pub leaving-Works : Works 3 leaving
leaving-Works = record { words = []; given = λ e. cc e; size = omega arith; small = tt }

pub coming-Works : Works 3 coming
coming-Works = record { words = []; given = λ e. cc e; size = omega arith; small = tt }

pub shining-Stays : Stays 6 shining
unfolding hangs_up
shining-Stays = record { open_still = refl; own_socket = refl }

pub leaving-Stays : Stays 6 leaving
unfolding hangs_up
leaving-Stays = record { open_still = refl; own_socket = refl }

pub coming-Stays : Stays 6 coming
unfolding hangs_up
coming-Stays = record { open_still = refl; own_socket = refl }

main_loop-delivers_example :
    let k = cut unkn0_symbol [] (words_in (stream 3 polled)) in
    (after : Daemon tenths_float) × (main_loop tenths_float alloc (λ n. n) true 3 4 polled served
      ≡ ok (status polled, after))
    × (sent_to 6 after.relay.server.events
        ≡ sent_to 6 served.relay.server.events ++ stream 3 polled)
    × (weigh_all tenths_float alloc (λ n. n) k.frames served.scale ≡ ok after.scale)
    × (after.decoder ≡ buf_of k.open_bits)
main_loop-delivers_example =
    main_loop-delivers tenths_float alloc (λ n. n) alloc-fresh 6 3 4 2 [] polled served
      served-Listens (shining-Works, (leaving-Works, (coming-Works, (shining-Works, tt))))
      (shining-Stays, (leaving-Stays, (coming-Stays, (shining-Stays, tt)))) (omega arith)
