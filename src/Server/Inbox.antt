-- ===== src/Server/Inbox.antt =====
-- What one client of the table in raspberrypi/irbrgd/server.c has been sent, and how often it stands
-- in the table.
use irbridge.Base.{
  ℕ, suc, ◌+◌, ◌<◌, ◌≡◌, ◌≢◌, refl, sym, ap, ◌∙◌, inl, inr, Bool-cases, List, [], ◌∷◌, ◌++◌, map,
  append_assoc, append-nil, ◌==◌, if◌then◌else◌, arith,
}
use irbridge.Server.{Event, closed, sent}
use irbridge.Server.Removal.{removed}

-- How often a socket stands in the table.
abbrev pub occurs : ℕ → List ℕ → ℕ
occurs x [] = 0
occurs x (y ∷ ys) = let rest = occurs x ys in if y == x then suc rest else rest

pub occurs-append : (x : ℕ) (xs ys : List ℕ) → occurs x (xs ++ ys) ≡ occurs x xs + occurs x ys
occurs-append x [] ys = omega arith
occurs-append x (y ∷ xs) ys = ground (arith, occurs-append x xs ys)

-- A client that stands in the table is removed alone.
pub occurs-removed :
    (x s : ℕ) (cs : List ℕ) → x ≢ s → 0 < occurs s cs → occurs x (removed s cs) ≡ occurs x cs
occurs-removed x s [] other here = refl
occurs-removed x s (c ∷ []) other here = ground arith
occurs-removed x s (c ∷ d ∷ cs) other here = elim (Bool-cases (c == s)) [
  | inl e ↦ ground arith
  | inr e ↦ ground (arith, occurs-removed x s (d ∷ cs))
]

-- The bytes that `send` has been given for a socket, in order.
abbrev pub sent_to : ℕ → List Event → List ℕ
sent_to x [] = []
sent_to x (closed c ∷ es) = sent_to x es
sent_to x (sent c bytes ∷ es) = let rest = sent_to x es in if c == x then bytes ++ rest else rest

pub sent_to-append :
    (x : ℕ) (es fs : List Event) → sent_to x (es ++ fs) ≡ sent_to x es ++ sent_to x fs
sent_to-append x [] fs = refl
sent_to-append x (closed c ∷ es) fs = sent_to-append x es fs
sent_to-append x (sent c bytes ∷ es) fs = elim (Bool-cases (c == x)) [
  | inl e ↦ rw e (
      ap (◌++◌ bytes) (sent_to-append x es fs)
      ∙ sym (append_assoc bytes (sent_to x es) (sent_to x fs)))
  | inr e ↦ rw e (sent_to-append x es fs)
]

pub sent_to-closed :
    (x : ℕ) (es : List Event) (cs : List ℕ) → sent_to x (es ++ map closed cs) ≡ sent_to x es
sent_to-closed x es cs =
    sent_to-append x es (map closed cs)
    ∙ ap (◌++◌ (sent_to x es)) (none_sent cs)
    ∙ append-nil (sent_to x es)
  where
    none_sent : (l : List ℕ) → sent_to x (map closed l) ≡ []
    none_sent [] = refl
    none_sent (c ∷ l) = none_sent l

sent_to-map_absent :
    (x : ℕ) (bytes cs : List ℕ) → occurs x cs ≡ 0 → sent_to x (map (λ c. sent c bytes) cs) ≡ []
sent_to-map_absent x bytes [] h = refl
sent_to-map_absent x bytes (c ∷ cs) h = ground (arith, sent_to-map_absent x bytes cs)

-- A client that stands once in the table gets once what all clients are sent.
pub sent_to-map :
    (x : ℕ) (bytes cs : List ℕ) → occurs x cs ≡ 1 → sent_to x (map (λ c. sent c bytes) cs) ≡ bytes
sent_to-map x bytes [] h = absurd (omega arith)
sent_to-map x bytes (c ∷ cs) h = elim (Bool-cases (c == x)) [
  | inl e ↦
      let once : occurs x cs ≡ 0 = ground arith in
      rw e (ap (◌++◌ bytes) (sent_to-map_absent x bytes cs once) ∙ append-nil bytes)
  | inr e ↦ let later : occurs x cs ≡ 1 = ground arith in rw e (sent_to-map x bytes cs later)
]
