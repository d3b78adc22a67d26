-- ===== src/Console/Watching.antt =====
-- What the Linux client shows over its whole run (clients/linux/main.c:49).
pub mod Run
use irbridge.Base.{
  ℕ, ◌^◌, ◌<◌, ◌≡◌, refl, sym, ap, ◌∙◌, true, false, inl, inr, Bool-cases, some, List, [], ◌∷◌,
  ◌++◌, append_assoc, append-nil, Outcome, ok, All, All-append, Allocates, length, leb, ◌==◌,
  if◌then◌else◌, arith,
}
use irbridge.Chars.{IsBit}
use irbridge.Console.{Console, last_key, on_key, read_server}
use irbridge.Console.Safety.{on_key-Keeps}
use irbridge.Console.Session.{
  Link, Session, init_connection, end_connection, session_round, client_main,
}
use irbridge.Console.Showing.{weight_of, weights, from_server-weights}
use irbridge.Daemon.{Ready, Polled, ready, Next, again, into, loop}
use irbridge.Daemon.Stream.{bytes_of-append}
use irbridge.Daemon.Words.{words_in, bytes_of, IsWord, words_in-bytes_of}
use irbridge.Decoder.Refine.{bytes}
use irbridge.Decoder.Drain.Chunks.{open-Fits}
use irbridge.Decoder.Frames.{Fits, cut, cut-append}
use irbridge.Decoder.Protocol.{buf_of}
use irbridge.FrameBits.{cut-Bits}
use irbridge.Standalone.{stdin}
use irbridge.Starfrit.Stream.{unkn0-binary}
use irbridge.Unkn0.Symbols.{unkn0_symbol}

module _ (junk sock : ℕ) where
  -- The key of a line.
  abbrev pub key_of_line : Ready → ℕ
  key_of_line r = last_key (read_server (r.received stdin)) junk

  -- An answer that does not end the loop: a line with another key, some whole words from the server,
  -- or nothing.
  pub record Stays (r : Ready) : Type 0 where
    pub words : List ℕ
    pub given : read_server (r.received sock) ≡ bytes_of words
    pub size : bytes words < 2 ^ 32
    pub small : All IsWord words
    pub other_key : r.is_ready stdin ≡ true → (key_of_line r == b'q') ≡ false
    pub some_words : r.is_ready sock ≡ true → 0 < length words

  abbrev pub answers : List Ready → List Polled
  answers [] = []
  answers (r ∷ rs) = ready r ∷ answers rs

pub init_connection_made :
    (sock : ℕ) (link : Link) (σ : Session)
    → link.connected ≡ true
    → link.socket ≡ some sock
    → init_connection link σ ≡ (some sock, σ)
unfolding init_connection
init_connection_made sock link σ up got = rw (up, got) refl

-- The bytes that are read from the server: in a round with a key, none are.
abbrev pub arrives : ℕ → Ready → List ℕ
arrives sock r =
    if r.is_ready stdin then [] else if r.is_ready sock then read_server (r.received sock) else []

abbrev pub arrived : ℕ → List Ready → List ℕ
arrived sock [] = []
arrived sock (r ∷ rs) = arrives sock r ++ arrived sock rs

weights-append : (fs gs : List (List ℕ)) → weights (fs ++ gs) ≡ weights fs ++ weights gs
weights-append [] gs = refl
weights-append (f ∷ fs) gs =
    ap (◌++◌ (weight_of f)) (weights-append fs gs)
    ∙ sym (append_assoc (weight_of f) (weights fs) (weights gs))

-- That the weights of some words have been shown.
pub record Seen (bits ws : List ℕ) (σ after : Console) : Type 0 where
  pub shown_is : after.shown ≡ σ.shown ++ weights (cut unkn0_symbol bits ws).frames
  pub decoder_is : after.decoder ≡ buf_of (cut unkn0_symbol bits ws).open_bits

Seen-append :
    (bits ws vs : List ℕ) (σ σ' after : Console)
    → Seen bits ws σ σ'
    → Seen (cut unkn0_symbol bits ws).open_bits vs σ' after
    → Seen bits (ws ++ vs) σ after
Seen-append bits ws vs σ σ' after h k =
    let c = cut unkn0_symbol bits ws in
    let d = cut unkn0_symbol c.open_bits vs in
    record {
      shown_is =
          k.shown_is
          ∙ ap (λ l. l ++ weights d.frames) h.shown_is
          ∙ append_assoc σ.shown (weights c.frames) (weights d.frames)
          ∙ ap (◌++◌ σ.shown) (sym (weights-append c.frames d.frames))
          ∙ ap (λ e. σ.shown ++ weights e.frames) (sym (cut-append unkn0_symbol bits ws vs));
      decoder_is =
          k.decoder_is ∙ ap (λ e. buf_of e.open_bits) (sym (cut-append unkn0_symbol bits ws vs));
    }

Seen-nil :
    (bits : List ℕ) (σ after : Console)
    → σ.decoder ≡ buf_of bits
    → after.shown ≡ σ.shown
    → after.decoder ≡ σ.decoder
    → Seen bits [] σ after
unfolding cut
Seen-nil bits σ after dec same same' = record {
  shown_is = same ∙ sym (append-nil σ.shown);
  decoder_is = same' ∙ dec;
}

module _ (alloc : ℕ → List ℕ) (fresh : Allocates alloc) (junk sock : ℕ) where
  -- What some rounds have read and shown.
  Watched : (bits bytes : List ℕ) (σ after : Session) → Type 0
  Watched bits bytes σ after =
      (ws : List ℕ) × (bytes ≡ bytes_of ws)
      × All IsWord ws
      × Seen bits ws σ.console after.console
      × (after.closed ≡ σ.closed)

  session_round-Watched :
      (r : Ready) (bits : List ℕ) (σ : Session)
      → Stays junk sock r
      → σ.console.decoder ≡ buf_of bits
      → Fits bits
      → All IsBit bits
      → (after : Session) × (session_round alloc junk sock (ready r) σ ≡ ok (again, after))
        × Watched bits (arrives sock r) σ after
  unfolding session_round Watched
  session_round-Watched r bits σ s dec fits bs = elim (Bool-cases (r.is_ready stdin)) [
    | inl typed ↦
        let (after, e, same, same') =
          on_key-Keeps alloc fresh (key_of_line junk sock r) σ.console (s.other_key typed) in
        (
          record σ { console = after },
          rw (typed, e) refl,
          ([], rw typed refl, tt, Seen-nil bits σ.console after dec same same', refl),
        )
    | inr quiet ↦ elim (Bool-cases (r.is_ready sock)) [
      | inl came ↦
          let c = cut unkn0_symbol bits s.words in
          let after : Console = record σ.console {
            shown = σ.console.shown ++ weights c.frames;
            decoder = buf_of c.open_bits;
          } in
          (
            record σ { console = after; buffer = into σ.buffer (bytes_of s.words) },
            rw
                (
                  quiet,
                  came,
                  s.given,
                  from_server-weights alloc fresh s.words σ.buffer bits σ.console s.size s.small
                      (s.some_words came) dec fits bs,
                )
                refl,
            (
              s.words,
              rw (quiet, came) s.given,
              s.small,
              record { shown_is = refl; decoder_is = refl },
              refl,
            ),
          )
      | inr nothing_came ↦ (
        σ,
        rw (quiet, nothing_came) refl,
        (
          [],
          rw (quiet, nothing_came) refl,
          tt,
          Seen-nil bits σ.console σ.console dec refl refl,
          refl,
        ),
      )
    ]
  ]
