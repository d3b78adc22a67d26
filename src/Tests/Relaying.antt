-- ===== src/Tests/Relaying.antt =====
-- A key of the Linux client on its way through the daemon.
use irbridge.Base.{
  ◌++◌, ℕ, ◌≡◌, refl, true, false, none, some, List, [], ◌∷◌, ok, ◌>>=◌, replicate, ◌==◌, arith,
}
use irbridge.Console.{Console, on_key}
use irbridge.Console.Relayed.{written, on_key-relayed}
use irbridge.Console.Weight.{weight_words}
use irbridge.Daemon.{Ready, ready, again, Daemon, round}
use irbridge.Daemon.Infrared.{relayed}
use irbridge.Daemon.Words.{bytes_of}
use irbridge.Decoder.Protocol.{buf_of}
use irbridge.Encoder.{received}
use irbridge.Server.Contract.{Holds}
use irbridge.Starfrit.{measured}
use irbridge.Tests.{alloc, alloc-fresh, tenths_float}
use irbridge.Tests.Running.{at_first}

-- A table of two clients; the second sends the weight.
abbrev pub two : List ℕ
two = 6 ∷ 7 ∷ []

abbrev pub two_served : Daemon tenths_float
two_served = record at_first {
  relay = record {
    server = record { slots = 6 ∷ 7 ∷ replicate 98 0; count = 2; events = [] };
    buffer = replicate 1024 0;
    driver = [];
  };
}

pub two-Holds : Holds two two_served.relay.server
two-Holds = record { spare = replicate 98 0; slots_are = refl; counted = refl; sized = refl }

abbrev sending : Ready
sending = record {
  is_ready = λ x. x == 7;
  ir = none;
  accepted = none;
  received = λ s. some (bytes_of weight_words);
}

abbrev receiving : Ready
receiving = record {
  is_ready = λ x. x == 3;
  ir = some (bytes_of (received 0 weight_words));
  accepted = none;
  received = λ s. none;
}

abbrev console : Console
console = record { sent_words = []; shown = []; decoder = buf_of [] }

on_key-relayed_example :
    (on_key alloc b'3' console
      ≡ ok (false, record console { sent_words = [] ++ (weight_words ∷ []) }))
    × ((round tenths_float alloc (λ n. n) true 3 4 (ready sending) two_served >>= λ x.
          round tenths_float alloc (λ n. n) true 3 4 (ready receiving) x.1)
        ≡ (measured tenths_float 884 0 (record two_served.scale { times = 1 }) >>= λ scale. ok (
          again,
          record (relayed tenths_float alloc
              (λ n. n)
              two
              (received 0 weight_words)
              (written tenths_float alloc (λ n. n) two_served)) {
                scale = scale;
                decoder = buf_of [];
              },
        )))
on_key-relayed_example =
    on_key-relayed tenths_float alloc (λ n. n) (6 ∷ []) [] 7 3 4 sending receiving console
      two_served alloc-fresh two-Holds refl refl (refl, tt) (omega arith) refl refl refl refl refl
