-- ===== src/Console/Bridge.antt =====
-- The driver's stream from the daemon's loop (raspberrypi/irbrgd/main.c:336) to the Linux client
-- (clients/linux/main.c:49).
use irbridge.Base.{
  ℕ, ◌+◌, ◌<◌, ◌≤◌, ◌≡◌, refl, sym, ap, ◌∙◌, true, inl, inr, Bool-cases, some, List, [], ◌∷◌, ◌++◌,
  ok, All, All-append, Allocates,
}
use irbridge.Console.Session.{Link, Session, client_main}
use irbridge.Console.Showing.{weights}
use irbridge.Console.Watching.{key_of_line, Stays, answers, arrived}
use irbridge.Console.Watching.Run.{client_main-weights}
use irbridge.Daemon.{Polled, interrupted, failed, ready, Ready, Daemon, main_loop}
use irbridge.Daemon.Delivery.{Listens}
use irbridge.Daemon.Run.{AllWork, connections, status}
use irbridge.Daemon.Stream.{stream, AllStay, bytes_of-append}
use irbridge.Daemon.Stream.Run.{main_loop-delivers}
use irbridge.Daemon.Words.{words_in, bytes_of, IsWord}
use irbridge.Decoder.Frames.{cut}
use irbridge.Decoder.Protocol.{buf_of}
use irbridge.Server.{max_clients}
use irbridge.Server.Inbox.{sent_to}
use irbridge.Standalone.{stdin}
use irbridge.Starfrit.Floats.{Float}
use irbridge.Starfrit.Stream.{weigh_all}
use irbridge.Unkn0.Symbols.{unkn0_symbol}

-- A connection as what the client's calls of `select` and `recv` answer to the bytes that are sent:
-- the bytes in order, in reads of whole words.
pub record Network (junk sock : ℕ) : Type 0 where
  pub deliver : List ℕ → List Ready
  pub deliver-Stays : (ws : List ℕ) → All IsWord ws → All (Stays junk sock) (deliver (bytes_of ws))
  pub arrived-deliver :
      (ws : List ℕ) → All IsWord ws → arrived sock (deliver (bytes_of ws)) ≡ bytes_of ws

-- A driver that works gives whole words.
stream-Words :
    (fd : ℕ) (ps : List Polled)
    → AllWork fd ps
    → (ws : List ℕ) × (stream fd ps ≡ bytes_of ws) × All IsWord ws
stream-Words fd [] w = ([], refl, tt)
stream-Words fd (interrupted ∷ ps) w = ([], refl, tt)
stream-Words fd (failed errno ∷ ps) w = ([], refl, tt)
stream-Words fd (ready r ∷ ps) w =
    let (vs, came, small) = stream-Words fd ps w.1 in
    elim (Bool-cases (r.is_ready fd)) [
      | inr off ↦ (vs, rw off came, small)
      | inl on ↦
          let first = w.0 in
          (
            first.words ++ vs,
            rw (on, first.given on, came) (sym (bytes_of-append first.words vs)),
            All-append IsWord first.words vs first.small small,
          )
    ]

module _ (fl : Float) (alloc : ℕ → List ℕ) (time : ℕ → ℕ) (fresh : Allocates alloc) where
  -- What the driver gives is what the scale weighs and the Linux client shows. Let the scale be on;
  -- let the table hold at most `n` clients, `c` among them once and nothing sent to it so far; let
  -- the decoder hold `bits` that fit, the commands for the scale's clients fit `path` for every
  -- weight, and blocks have the size asked for. Over answers of the kernel in which a driver that
  -- is ready gives whole words, less than 2 ^ 32 bytes of them, at most 100 - n clients are
  -- accepted, and `c` neither hangs up nor has its socket given to another, the main loop never
  -- faults. Let a network that gives whole words in order bring what `c` has been sent by the
  -- loop's end to the Linux client, connected by a socket above 0, its decoder with the same bits,
  -- and let `q` be typed afterwards and not before. Then the client's `main` does not fault and
  -- returns 0; the daemon's scale has looked once at each frame of what the driver gave where
  -- `select` found it ready, and the client has shown the weight of each of these frames that is a
  -- scale's, both in order.
  pub main_loop-client_main :
      (c fd listener n : ℕ) (bits : List ℕ) (ps : List Polled) (d : Daemon fl) (junk sock : ℕ)
      (net : Network junk sock) (host port : List ℕ) (link : Link) (last : Ready)
      (more : List Polled) (σ : Session)
      → Listens fl alloc time c n bits d
      → AllWork fd ps
      → AllStay c ps
      → connections ps + n ≤ max_clients
      → sent_to c d.relay.server.events ≡ []
      → link.connected ≡ true
      → link.socket ≡ some sock
      → 0 < sock
      → σ.console.decoder ≡ buf_of bits
      → last.is_ready stdin ≡ true
      → key_of_line junk sock last ≡ b'q'
      → let k = cut unkn0_symbol bits (words_in (stream fd ps)) in
        (after : Daemon fl) × (shown : Session) × (main_loop fl alloc time true fd listener ps d
          ≡ ok (status ps, after))
        × (weigh_all fl alloc time k.frames d.scale ≡ ok after.scale)
        × (client_main alloc junk
              (host ∷ port ∷ [])
              link
              (answers junk sock (net.deliver (sent_to c after.relay.server.events))
                ++ (ready last ∷ more))
              σ
            ≡ ok (some 0, shown))
        × (shown.console.shown ≡ σ.console.shown ++ weights k.frames)
  main_loop-client_main c fd listener n bits ps d junk sock net host port link last more σ s w stays
        room new up got pos dec typed quit =
      let (ws, whole, small) = stream-Words fd ps w in
      let (after, ends, told, weighed, left) =
        main_loop-delivers fl alloc time fresh c fd listener n bits ps d s w stays room in
      let sent : sent_to c after.relay.server.events ≡ bytes_of ws =
        told ∙ ap (λ l. l ++ stream fd ps) new ∙ whole in
      let (shown, done, sees, open_bits, closed) =
        client_main-weights alloc fresh junk sock host port link (net.deliver (bytes_of ws)) last
          more bits σ up got pos (net.deliver-Stays ws small) dec s.fits s.chars typed quit in
      (
        after,
        shown,
        ends,
        weighed,
        rw sent done,
        sees
            ∙ ap (λ l. σ.console.shown ++ weights (cut unkn0_symbol bits (words_in l)).frames)
                (net.arrived-deliver ws small ∙ sym whole),
      )
