-- ===== src/Decoder/Drain.antt =====
-- The loop by which every client empties a buffer of words:
--   do { if (DECODE(&in, &len)) { ... RESET(); } } while (len > 0);
-- (raspberrypi/irbrgd/starfrit.c:298, clients/linux/main.c:152, ircodec/src/main.c:59, and the
-- programs raspberrypi/ir-test1 to ir-test3). What stands for the dots is `handle`.
pub mod Laws
pub mod Chunks
pub mod Unaligned
use irbridge.Base.{
  ℕ, zero, suc, ◌+◌, ◌*◌, ◌^◌, ◌<◌, ◌≤◌, List, [], ◌∷◌, ◌++◌, Outcome, ok, fault, out_of_fuel,
  ◌>>=◌, ◌≡◌, refl, length, ◌==◌, if◌then◌else◌, arith,
}
use irbridge.Decoder.{DecodeBuf, Decoded}
use irbridge.Decoder.Protocol.{Protocol, buf_of}

module _ (p : Protocol) {S : Type 0} (handle : DecodeBuf → S → Outcome S) where
  -- What the body of the loop does with a call's result.
  unfoldable pub handled : Decoded → S → Outcome (S × DecodeBuf)
  handled d σ =
      if d.ret == 0
      then ok (σ, d.state)
      else (handle d.state σ >>= λ σ'. p.reset d.state >>= λ s. ok (σ', s))

  unfoldable pub drain : ℕ → List ℕ → ℕ → DecodeBuf → S → Outcome (S × DecodeBuf)
  drain zero words len s σ = out_of_fuel
  drain (suc fuel) words len s σ = p.decode words len s >>= λ d. handled d σ >>= λ r.
      let again = drain fuel d.rest d.len r.1 r.0 in if d.len == 0 then ok r else again
