-- ===== src/Console/Watching/Run.antt =====
-- What the Linux client has shown when `q` is typed (clients/linux/main.c:49).
use irbridge.Base.{
  ℕ, ◌<◌, ◌≡◌, refl, sym, ap, ◌∙◌, true, false, some, List, [], ◌∷◌, ◌++◌, append-nil, ok, All,
  All-append, Allocates, leb, arith,
}
use irbridge.Chars.{IsBit}
use irbridge.Console.{on_key}
use irbridge.Console.Session.{Link, Session, end_connection, session_round, client_main}
use irbridge.Console.Showing.{weights}
use irbridge.Console.Watching.{
  key_of_line, Stays, answers, init_connection_made, arrived, Seen, Seen-append, Seen-nil, Watched,
  session_round-Watched,
}
use irbridge.Daemon.{Polled, Ready, ready, loop}
use irbridge.Daemon.Stream.{bytes_of-append}
use irbridge.Daemon.Words.{words_in, bytes_of, IsWord, words_in-bytes_of}
use irbridge.Decoder.Drain.Chunks.{open-Fits}
use irbridge.Decoder.Frames.{Fits, cut}
use irbridge.Decoder.Protocol.{buf_of}
use irbridge.FrameBits.{cut-Bits}
use irbridge.Standalone.{stdin}
use irbridge.Starfrit.Stream.{unkn0-binary}
use irbridge.Unkn0.Symbols.{unkn0_symbol}

module _ (alloc : ℕ → List ℕ) (fresh : Allocates alloc) (junk sock : ℕ) where
  -- What some rounds and the last one have shown.
  RunWatched : (bits bytes : List ℕ) (σ after : Session) → Type 0
  RunWatched bits bytes σ after =
      (ws : List ℕ) × (bytes ≡ bytes_of ws)
      × All IsWord ws
      × Seen bits ws σ.console after.console
      × (after.closed ≡ σ.closed ++ (sock ∷ []))

  loop-RunWatched :
      (rs : List Ready) (last : Ready) (more : List Polled) (bits : List ℕ) (σ : Session)
      → All (Stays junk sock) rs
      → σ.console.decoder ≡ buf_of bits
      → Fits bits
      → All IsBit bits
      → last.is_ready stdin ≡ true
      → key_of_line junk sock last ≡ b'q'
      → (after : Session) × (loop
            (session_round alloc junk sock)
            (λ τ. ok (end_connection (some sock) τ))
            (answers junk sock rs ++ (ready last ∷ more))
            σ
          ≡ ok (some 0, after))
        × RunWatched bits (arrived sock rs) σ after
  unfolding loop session_round end_connection on_key RunWatched Watched
  loop-RunWatched [] last more bits σ h dec fits bs typed quit = (
    record σ { closed = σ.closed ++ (sock ∷ []) },
    rw (typed, quit) refl,
    ([], refl, tt, Seen-nil bits σ.console σ.console dec refl refl, refl),
  )
  loop-RunWatched (r ∷ rs) last more bits σ h dec fits bs typed quit =
      let (next, e, (ws, read, small, seen, same)) =
        session_round-Watched alloc fresh junk sock r bits σ h.0 dec fits bs in
      let (after, e', (vs, read', small', seen', closed)) =
        loop-RunWatched rs last more (cut unkn0_symbol bits ws).open_bits next h.1 seen.decoder_is
          (open-Fits unkn0_symbol bits ws fits) (cut-Bits unkn0_symbol unkn0-binary ws bits bs)
          typed quit in
      (
        after,
        rw e e',
        (
          ws ++ vs,
          ap (λ l. l ++ arrived sock rs) read
              ∙ ap (◌++◌ (bytes_of ws)) read'
              ∙ sym (bytes_of-append ws vs),
          All-append IsWord ws vs small small',
          Seen-append bits ws vs σ.console next.console after.console seen seen',
          closed ∙ ap (λ l. l ++ (sock ∷ [])) same,
        ),
      )

  -- Let the Linux client be connected by a socket above 0, with an allocator that gives blocks of
  -- the size asked for, while its decoder holds `bits` that fit. Over rounds in which a line ends
  -- in another key than `q`, or some whole words, less than 2 ^ 32 bytes of them, come from the
  -- server, or nothing does, and a last one in which `q` is typed, `main` never faults; it returns
  -- 0 in the last round, whatever comes behind it. By then it has shown, for the frames of all
  -- words it has read, in order and wherever the reads divide them, the weight of each that is a
  -- scale's, and nothing else; its decoder holds the bits of the unfinished frame; and it has
  -- closed its socket and no other.
  pub client_main-weights :
      (host port : List ℕ) (link : Link) (rs : List Ready) (last : Ready) (more : List Polled)
      (bits : List ℕ) (σ : Session)
      → link.connected ≡ true
      → link.socket ≡ some sock
      → 0 < sock
      → All (Stays junk sock) rs
      → σ.console.decoder ≡ buf_of bits
      → Fits bits
      → All IsBit bits
      → last.is_ready stdin ≡ true
      → key_of_line junk sock last ≡ b'q'
      → let k = cut unkn0_symbol bits (words_in (arrived sock rs)) in
        (after : Session) × (client_main alloc junk
            (host ∷ port ∷ [])
            link
            (answers junk sock rs ++ (ready last ∷ more))
            σ
          ≡ ok (some 0, after))
        × (after.console.shown ≡ σ.console.shown ++ weights k.frames)
        × (after.console.decoder ≡ buf_of k.open_bits)
        × (after.closed ≡ σ.closed ++ (sock ∷ []))
  unfolding client_main RunWatched
  client_main-weights host port link rs last more bits σ up got pos h dec fits bs typed quit =
      let (after, e, (ws, read, small, seen, closed)) =
        loop-RunWatched rs last more bits σ h dec fits bs typed quit in
      let above : leb sock 0 ≡ false = ground arith in
      let made = init_connection_made sock link σ up got in
      let whole : ws ≡ words_in (arrived sock rs) = sym (
        ap words_in (read ∙ sym (append-nil (bytes_of ws)))
        ∙ words_in-bytes_of ws [] small
        ∙ append-nil ws) in
      (
        after,
        rw (made, above, made) e,
        seen.shown_is ∙ ap (λ l. σ.console.shown ++ weights (cut unkn0_symbol bits l).frames) whole,
        seen.decoder_is ∙ ap (λ l. buf_of (cut unkn0_symbol bits l).open_bits) whole,
        closed,
      )
