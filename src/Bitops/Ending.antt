-- ===== src/Bitops/Ending.antt =====
-- string2bytes (ircodec/src/bitops.c:26) ends on every text.
use irbridge.Base.{
  ℕ, ◌-◌, List, [], ◌∷◌, Ends, Ends->>=, Ends-if, Ends-ok, Ends-write, length, ◌==◌,
}
use irbridge.Bitops.{Packer, pack_char, pack_chars, string2bytes}

pack_char-Ends : (c : ℕ) (s : Packer) → Ends (pack_char c s)
unfolding pack_char
pack_char-Ends c s =
    Ends-if (s.b - 1 == 0) _ _ (Ends->>= _ _ (Ends-write s.out s.j _) (λ out. Ends-ok _))
      (Ends-ok _)

pack_chars-Ends : (cs : List ℕ) (s : Packer) → Ends (pack_chars cs s)
unfolding pack_chars
pack_chars-Ends [] s = Ends-ok s
pack_chars-Ends (c ∷ cs) s = Ends->>= _ _ (pack_char-Ends c s) (pack_chars-Ends cs)

pub string2bytes-Ends : (alloc : ℕ → List ℕ) (text : List ℕ) → Ends (string2bytes alloc text)
unfolding string2bytes
string2bytes-Ends alloc text = Ends-if (length text == 0) _ _ (Ends-ok _) (
    Ends->>= _ _ (pack_chars-Ends text _) λ s.
      Ends->>= _ _ (Ends-if (s.b == 8) _ _ (Ends-ok _) (Ends-write s.out s.j s.data'))
        (λ out. Ends-ok _))
