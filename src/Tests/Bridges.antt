-- ===== src/Tests/Bridges.antt =====
-- What the Linux client shows: of some words, and of what the daemon relays.
use irbridge.Base.{
  ℕ, ◌≡◌, refl, true, some, none, List, [], ◌∷◌, ◌++◌, ok, All, codes, ◌==◌, if◌then◌else◌, arith,
}
use irbridge.Bitops.Packing.{bytes_from}
use irbridge.Bitops.Unpacking.{bit_chars, row_from}
use irbridge.Console.{read_server, last_key}
use irbridge.Console.Bridge.{Network, main_loop-client_main}
use irbridge.Console.Session.{Session, client_main}
use irbridge.Console.Showing.{weight_of, weights}
use irbridge.Console.Watching.{Stays, answers, arrived}
use irbridge.Console.Watching.Run.{client_main-weights}
use irbridge.Console.Weight.{weight_words}
use irbridge.Daemon.{Ready, ready, Daemon, main_loop}
use irbridge.Daemon.Run.{status}
use irbridge.Daemon.Stream.{stream}
use irbridge.Daemon.Words.{words_in, bytes_of, IsWord}
use irbridge.Decoder.Frames.{cut, complete, keep}
use irbridge.Decoder.Protocol.{buf_of}
use irbridge.Encoder.{received, word_pairs}
use irbridge.Lirc.{is_pulse, duration}
use irbridge.Server.Inbox.{sent_to}
use irbridge.Starfrit.Stream.{weigh_all}
use irbridge.Tests.{alloc, alloc-fresh, tenths_float}
use irbridge.Tests.Racing.{session, link, typed, came, typed-Stays, came-Stays, quit_line}
use irbridge.Tests.Running.{shining-Works}
use irbridge.Tests.Streaming.{
  served, served-Listens, polled, leaving-Works, coming-Works, shining-Stays, leaving-Stays,
  coming-Stays,
}
use irbridge.Unkn0.Symbols.{unkn0_symbol}

client_main-weights_example :
    let rs = typed (codes "3\n") ∷ came ∷ [] in
    let k = cut unkn0_symbol (b'1' ∷ []) (words_in (arrived 5 rs)) in
    (after : Session) × (client_main alloc 0
        (codes "127.0.0.1" ∷ codes "8000" ∷ [])
        link
        (answers 0 5 rs ++ (ready (typed (codes "q\n")) ∷ []))
        session
      ≡ ok (some 0, after))
    × (after.console.shown ≡ session.console.shown ++ weights k.frames)
    × (after.console.decoder ≡ buf_of k.open_bits)
    × (after.closed ≡ session.closed ++ (5 ∷ []))
client_main-weights_example =
    client_main-weights alloc alloc-fresh 0 5 (codes "127.0.0.1") (codes "8000") link
      (typed (codes "3\n") ∷ came ∷ []) (typed (codes "q\n")) [] (b'1' ∷ []) session refl refl
      (omega arith) (typed-Stays, (came-Stays, tt)) refl (omega arith) (refl, tt) refl quit_line

shown_weight : weights (cut unkn0_symbol [] (received 0 weight_words)).frames ≡ 883 ∷ []
unfolding cut weight_of received word_pairs bit_chars row_from unkn0_symbol is_pulse duration
    complete keep bytes_from
shown_weight = refl

-- A read of one word after the other.
abbrev word_reads : List ℕ → List Ready
word_reads (a ∷ b ∷ c ∷ d ∷ bytes) =
    (record {
      is_ready = λ x. x == 5;
      ir = none;
      accepted = none;
      received = λ s. if s == 0 then none else some (a ∷ b ∷ c ∷ d ∷ []);
    })
    ∷ word_reads bytes
word_reads bytes = []

word_reads-Stays : (ws : List ℕ) → All IsWord ws → All (Stays 0 5) (word_reads (bytes_of ws))
unfolding read_server last_key
word_reads-Stays [] small = tt
word_reads-Stays (w ∷ ws) small = (
  record {
    words = w ∷ [];
    given = refl;
    size = omega arith;
    small = (small.0, tt);
    other_key = λ e. cc;
    some_words = λ e. omega arith;
  },
  word_reads-Stays ws small.1,
)

arrived-word_reads :
    (ws : List ℕ) → All IsWord ws → arrived 5 (word_reads (bytes_of ws)) ≡ bytes_of ws
unfolding read_server
arrived-word_reads [] small = refl
arrived-word_reads (w ∷ ws) small = rw (arrived-word_reads ws small.1) refl

abbrev network : Network 0 5
network = record {
  deliver = word_reads;
  deliver-Stays = word_reads-Stays;
  arrived-deliver = arrived-word_reads;
}

abbrev empty_session : Session
empty_session = record session { console = record session.console { decoder = buf_of [] } }

main_loop-client_main_example :
    let k = cut unkn0_symbol [] (words_in (stream 3 polled)) in
    (after : Daemon tenths_float) × (shown : Session) × (main_loop tenths_float alloc
        (λ n. n)
        true
        3
        4
        polled
        served
      ≡ ok (status polled, after))
    × (weigh_all tenths_float alloc (λ n. n) k.frames served.scale ≡ ok after.scale)
    × (client_main alloc 0
          (codes "127.0.0.1" ∷ codes "8000" ∷ [])
          link
          (answers 0 5 (word_reads (sent_to 6 after.relay.server.events))
            ++ (ready (typed (codes "q\n")) ∷ []))
          empty_session
        ≡ ok (some 0, shown))
    × (shown.console.shown ≡ empty_session.console.shown ++ weights k.frames)
main_loop-client_main_example =
    main_loop-client_main tenths_float alloc (λ n. n) alloc-fresh 6 3 4 2 [] polled served 0 5
      network (codes "127.0.0.1") (codes "8000") link (typed (codes "q\n")) [] empty_session
      served-Listens (shining-Works, (leaving-Works, (coming-Works, (shining-Works, tt))))
      (shining-Stays, (leaving-Stays, (coming-Stays, (shining-Stays, tt)))) (omega arith) refl refl
      refl (omega arith) refl refl quit_line
