-- ===== src/Daemon/Stream/Run.antt =====
-- The driver's stream over all rounds of the main loop, up to what follows it
-- (raspberrypi/irbrgd/main.c:336).
use irbridge.Base.{
  ℕ, ◌+◌, ◌≤◌, ◌≡◌, refl, sym, ap, ◌∙◌, true, List, [], ◌∷◌, ◌++◌, map, append-nil, ok, All,
  All-append, Allocates, arith,
}
use irbridge.Daemon.{
  Polled, interrupted, failed, ready, Daemon, round, loop, close_relay, close_all, main_loop,
}
use irbridge.Daemon.Delivery.{Listens, Hears}
use irbridge.Daemon.Run.{AllWork, connections, status, loop-again}
use irbridge.Daemon.Safety.{accepts}
use irbridge.Daemon.Stream.{
  stream, AllStay, bytes_of-append, Hears-append, Hears-nil, Heard, round-Heard,
}
use irbridge.Daemon.Watch.{watch_all-watched}
use irbridge.Daemon.Words.{words_in, bytes_of, IsWord, words_in-bytes_of}
use irbridge.Decoder.Frames.{cut, cut-append}
use irbridge.Decoder.Protocol.{buf_of}
use irbridge.Server.{max_clients, closed, Server}
use irbridge.Server.Broadcast.{clear_clients-map}
use irbridge.Server.Connect.{end_connection}
use irbridge.Server.Inbox.{sent_to, sent_to-closed}
use irbridge.Starfrit.Floats.{Float}
use irbridge.Starfrit.Stream.{weigh_all}
use irbridge.Unkn0.Symbols.{unkn0_symbol}

module _ (fl : Float) (alloc : ℕ → List ℕ) (time : ℕ → ℕ) (fresh : Allocates alloc) where
  -- What a run does to the stream.
  RunHeard : (c : ℕ) (bits came : List ℕ) (d after : Daemon fl) → Type 0
  RunHeard c bits came d after =
      (ws : List ℕ) × (came ≡ bytes_of ws)
      × All IsWord ws
      × Hears fl alloc time c bits ws d after
      × (after.decoder ≡ buf_of (cut unkn0_symbol bits ws).open_bits)

  close_all-Hears :
      (c sock n : ℕ) (bits : List ℕ) (d : Daemon fl)
      → Listens fl alloc time c n bits d
      → (after : Daemon fl) × (close_all fl alloc time true sock d ≡ ok after)
        × RunHeard c bits [] d after
  unfolding close_all close_relay end_connection RunHeard cut
  close_all-Hears c sock n bits d s =
      let told = d.relay.server.events ++ map closed s.cs in
      let σ : Server = end_connection sock (record d.relay.server { events = told }) in
      let after : Daemon fl = record d { relay = record d.relay { server = σ } } in
      (
        after,
        rw (clear_clients-map s.cs d.relay.server s.holds) refl,
        (
          [],
          refl,
          tt,
          Hears-nil fl alloc time c bits d after
              (sent_to-closed c told (sock ∷ []) ∙ sent_to-closed c d.relay.server.events s.cs)
              refl,
          s.decoder_is,
        ),
      )

  main_loop-RunHeard :
      (c fd sock n : ℕ) (bits : List ℕ) (ps : List Polled) (d : Daemon fl)
      → Listens fl alloc time c n bits d
      → AllWork fd ps
      → AllStay c ps
      → connections ps + n ≤ max_clients
      → (after : Daemon fl) × (main_loop fl alloc time true fd sock ps d ≡ ok (status ps, after))
        × RunHeard c bits (stream fd ps) d after
  unfolding main_loop loop round RunHeard Heard cut
  main_loop-RunHeard c fd sock n bits [] d s w stays room =
      (d, refl, ([], refl, tt, Hears-nil fl alloc time c bits d d refl refl, s.decoder_is))
  main_loop-RunHeard c fd sock n bits (interrupted ∷ ps) d s w stays room =
      let (after, ends, heard) = close_all-Hears c sock n bits d s in
      (after, rw (watch_all-watched s.cs fd sock d.relay.server s.holds, ends) refl, heard)
  main_loop-RunHeard c fd sock n bits (failed errno ∷ ps) d s w stays room = (
    d,
    rw (watch_all-watched s.cs fd sock d.relay.server s.holds) refl,
    ([], refl, tt, Hears-nil fl alloc time c bits d d refl refl, s.decoder_is),
  )
  main_loop-RunHeard c fd sock n bits (ready r ∷ ps) d s w stays room =
      let (d', once, (ws, came, small, heard, s')) =
        round-Heard fl alloc time fresh c fd sock n bits r d s w.0 stays.0 (omega arith) in
      let open_bits = (cut unkn0_symbol bits ws).open_bits in
      let (after, ends, (vs, came', small', heard', left)) =
        main_loop-RunHeard c fd sock (accepts r + n) open_bits ps d' s' w.1 stays.1 (omega arith) in
      (
        after,
        loop-again (round fl alloc time true fd sock) (close_all fl alloc time true sock) (ready r)
              ps d d' once
            ∙ ends,
        (
          ws ++ vs,
          ap (λ l. l ++ stream fd ps) came
              ∙ ap (◌++◌ (bytes_of ws)) came'
              ∙ sym (bytes_of-append ws vs),
          All-append IsWord ws vs small small',
          Hears-append fl alloc time c bits ws vs d d' after heard heard',
          left ∙ ap (λ k. buf_of k.open_bits) (sym (cut-append unkn0_symbol bits ws vs)),
        ),
      )

  -- Let the scale be on. The table holds at most `n` clients, `c` among them once; the decoder
  -- holds `bits` that fit, and the commands for the scale's clients fit `path` for every weight.
  -- Blocks have the size asked for. Over answers of the kernel in which a driver that is ready
  -- gives whole words, less than 2 ^ 32 bytes of them, at most 100 - n clients are accepted, and
  -- `c` neither hangs up nor has its socket given to another, the main loop never faults. By its
  -- end, `c` has been sent just what the driver has given where `select` found it ready, in order
  -- and once; and the scale has looked once at the packed bytes of each frame of that stream, in
  -- order, wherever the reads divide it and whatever the clients do in between, and its decoder
  -- holds the bits of the unfinished frame.
  pub main_loop-delivers :
      (c fd sock n : ℕ) (bits : List ℕ) (ps : List Polled) (d : Daemon fl)
      → Listens fl alloc time c n bits d
      → AllWork fd ps
      → AllStay c ps
      → connections ps + n ≤ max_clients
      → let k = cut unkn0_symbol bits (words_in (stream fd ps)) in
        (after : Daemon fl) × (main_loop fl alloc time true fd sock ps d ≡ ok (status ps, after))
        × (sent_to c after.relay.server.events ≡ sent_to c d.relay.server.events ++ stream fd ps)
        × (weigh_all fl alloc time k.frames d.scale ≡ ok after.scale)
        × (after.decoder ≡ buf_of k.open_bits)
  unfolding RunHeard
  main_loop-delivers c fd sock n bits ps d s w stays room =
      let (after, ends, (ws, came, small, heard, left)) =
        main_loop-RunHeard c fd sock n bits ps d s w stays room in
      let whole : ws ≡ words_in (stream fd ps) = sym (
        ap words_in (came ∙ sym (append-nil (bytes_of ws)))
        ∙ words_in-bytes_of ws [] small
        ∙ append-nil ws) in
      (
        after,
        ends,
        heard.told ∙ ap (◌++◌ (sent_to c d.relay.server.events)) (sym came),
        ap (λ l. weigh_all fl alloc time (cut unkn0_symbol bits l).frames d.scale) (sym whole)
            ∙ heard.weighed,
        left ∙ ap (λ l. buf_of (cut unkn0_symbol bits l).open_bits) whole,
      )
