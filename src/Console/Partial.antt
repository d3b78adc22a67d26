-- ===== src/Console/Partial.antt =====
-- A part of a word from the server (clients/linux/main.c:145): TCP may deliver bytes one by one.
use irbridge.Base.{
  ℕ, suc, ◌%◌, ◌≡◌, ◌≢◌, refl, false, List, fault, length, map, Ends, Ends->>=, Ends-if, Ends-ok,
  Ends-read, Ends-c_string, ◌==◌, arith,
}
use irbridge.Bitops.Ending.{string2bytes-Ends}
use irbridge.Console.{Console, show_frame, from_server}
use irbridge.Daemon.Words.{words_in}
use irbridge.Decoder.{DecodeBuf}
use irbridge.Decoder.Drain.Unaligned.{drain-unaligned}
use irbridge.Decoder.Frames.{Fits}
use irbridge.Decoder.Protocol.{buf_of}
use irbridge.Lirc.{lirc_size}
use irbridge.Loopback.{words_of}
use irbridge.Starfrit.{invert}
use irbridge.Unkn0.Symbols.{unkn0}

module _ (alloc : ℕ → List ℕ) where
  show_frame-Ends : (s : DecodeBuf) (shown : List ℕ) → Ends (show_frame alloc s shown)
  unfolding show_frame
  show_frame-Ends s shown = Ends->>= _ _ (Ends-c_string s.buff) λ text.
      Ends->>= _ _ (string2bytes-Ends alloc text) λ r.
        let d = map invert (words_of r.out) in
        Ends-if (s.idx == 39) _ _
          (Ends->>= _ _ (Ends-read d 0) λ d0.
            Ends-if (d0 == 0xab) _ _
              (Ends->>= _ _ (Ends-read d 2) λ d2. Ends->>= _ _ (Ends-read d 3) λ d3. Ends-ok _)
              (Ends-ok shown))
          (Ends-ok shown)

  -- With a length that is no whole number of words, and a decoder whose bits fit, what the client
  -- does with the bytes from the server ends in a fault, whatever lies in the buffer.
  pub from_server_unaligned :
      (buffer bits : List ℕ) (len : ℕ) (σ : Console)
      → len % lirc_size ≢ 0
      → σ.decoder ≡ buf_of bits
      → Fits bits
      → from_server alloc buffer len σ ≡ fault
  unfolding from_server
  from_server_unaligned buffer bits len σ odd dec fits =
      let words = words_in buffer in
      let some_bytes : (len == 0) ≡ false = ground (arith, odd) in
      rw
        (
          some_bytes,
          dec,
          drain-unaligned unkn0 (show_frame alloc) (suc (length words)) words bits len σ.shown
              (omega arith) odd fits λ b shown. show_frame-Ends (buf_of b) shown,
        )
        refl
