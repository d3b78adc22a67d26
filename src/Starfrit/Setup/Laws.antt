-- ===== src/Starfrit/Setup/Laws.antt =====
-- starfrit_setup on tokens in groups of three.
use irbridge.Base.{
  ℕ, ◌+◌, ◌%◌, ◌≤◌, ◌≡◌, refl, sym, ap, ◌∙◌, inl, inr, true, false, Bool-cases, List, [], ◌∷◌, ◌++◌,
  append_assoc, append-nil, ok, ◌>>=◌, All, length, length-append, codes, ltb, leb, if◌then◌else◌,
  arith,
}
use irbridge.Config.Trim.{trim}
use irbridge.Starfrit.Floats.{Float}
use irbridge.Starfrit.{Client}
use irbridge.Starfrit.Setup.{
  max_conf, starts_with, Entries, set_entry, setup_tokens, starfrit_setup,
}

-- The tokens of one client.
pub record Group : Type 0 where
  pub low : List ℕ
  pub high : List ℕ
  pub url : List ℕ

abbrev pub tokens_of : List Group → List (List ℕ)
tokens_of [] = []
tokens_of (g ∷ gs) = g.low ∷ g.high ∷ g.url ∷ tokens_of gs

module _ (fl : Float) where
  -- The bound that a token asks for: its number, or zero where that is negative.
  pub bound_of : List ℕ → fl.F
  bound_of token =
      if fl.lt (fl.atof (trim token).text) fl.zero then fl.zero else fl.atof (trim token).text

  abbrev pub client_of : Group → Client fl
  client_of g = record { min = bound_of g.low; max = bound_of g.high; url = (trim g.url).text }

  -- The clients of the groups that have a web address.
  abbrev pub clients_of : List Group → List (Client fl)
  clients_of [] = []
  clients_of (g ∷ gs) =
      if starts_with (codes "http://") (trim g.url).text
      then client_of g ∷ clients_of gs
      else clients_of gs

  -- That neither bound of a client is below zero.
  pub record IsAboveZero (c : Client fl) : Type 0 where
    pub min_above : fl.lt c.min fl.zero ≡ false
    pub max_above : fl.lt c.max fl.zero ≡ false

  bound_of-zero : (token : List ℕ) → fl.lt (bound_of token) fl.zero ≡ false
  unfolding bound_of
  bound_of-zero token = elim (Bool-cases (fl.lt (fl.atof (trim token).text) fl.zero)) [
    | inl negative ↦ rw (bound_of, negative) fl.lt-zero
    | inr positive ↦ rw (bound_of, positive) positive
  ]

  clients_of-IsAboveZero : (gs : List Group) → All IsAboveZero (clients_of gs)
  clients_of-IsAboveZero [] = tt
  clients_of-IsAboveZero (g ∷ gs) =
      elim (Bool-cases (starts_with (codes "http://") (trim g.url).text)) [
        | inl h ↦ rw h (
          record { min_above = bound_of-zero g.low; max_above = bound_of-zero g.high },
          clients_of-IsAboveZero gs,
        )
        | inr h ↦ rw h (clients_of-IsAboveZero gs)
      ]

  set_entry_min :
      (n : ℕ) (token : List ℕ) (e : Entries fl)
      → n % 3 ≡ 0
      → set_entry fl n (trim token).text e ≡ record e { min = bound_of token }
  unfolding set_entry bound_of
  set_entry_min n token e z = rw z refl

  set_entry_max :
      (n : ℕ) (token : List ℕ) (e : Entries fl)
      → n % 3 ≡ 1
      → set_entry fl n (trim token).text e ≡ record e { max = bound_of token }
  unfolding set_entry bound_of
  set_entry_max n token e z = rw z refl

  set_entry_url :
      (n : ℕ) (p : List ℕ) (e : Entries fl)
      → n % 3 ≡ 2
      → set_entry fl n p e ≡ (
          if starts_with (codes "http://") p
          then record {
            done = e.done ++ (record { min = e.min; max = e.max; url = p } ∷ []);
            min = fl.zero;
            max = fl.zero;
          }
          else e)
  unfolding set_entry
  set_entry_url n p e z = rw z refl

  setup_groups :
      (gs : List Group) (n : ℕ) (e : Entries fl)
      → n % 3 ≡ 0
      → length e.done + length gs ≤ max_conf
      → (setup_tokens fl (tokens_of gs) n e >>= λ r. ok r.done) ≡ ok (e.done ++ clients_of gs)
  unfolding setup_tokens
  setup_groups [] n e z room = ap ok (sym (append-nil e.done))
  setup_groups (g ∷ gs) n e z room =
      let e1 = record e { min = (client_of g).min } in
      let e2 = record e1 { max = (client_of g).max } in
      let t0 : ltb (n % 3) 2 ≡ true = ground arith in
      let t1 : ltb ((n + 1) % 3) 2 ≡ true = ground arith in
      let t2 : ltb ((n + 1 + 1) % 3) 2 ≡ false = ground arith in
      let free : leb max_conf (length e.done) ≡ false = ground arith in
      let z' : (n + 1 + 1 + 1) % 3 ≡ 0 = omega arith in
      let lower = set_entry_min n g.low e z in
      let upper = set_entry_max (n + 1) g.high e1 (omega arith) in
      let named = set_entry_url (n + 1 + 1) (trim g.url).text e2 (omega arith) in
      elim (Bool-cases (starts_with (codes "http://") (trim g.url).text)) [
        | inl h ↦
            rw (t0, free, lower, t1, free, upper, t2, h, free, named, h)
              (setup_groups gs (n + 1 + 1 + 1) _ z'
                  (omega (arith, length-append e.done (client_of g ∷ [])))
                ∙ ap ok (append_assoc e.done (client_of g ∷ []) (clients_of gs)))
        | inr h ↦
            rw (t0, free, lower, t1, free, upper, t2, h, named, h)
              (setup_groups gs (n + 1 + 1 + 1) e2 z' (omega arith))
      ]

  -- Tokens in groups of three, no more groups than the table has entries, give one client for each
  -- group with a web address, in order, without a store behind the table. A bound of a client is
  -- the number of its token, or zero where that is negative, and so no bound is below zero.
  pub starfrit_setup-clients_of :
      (gs : List Group)
      → length gs ≤ max_conf
      → (starfrit_setup fl (tokens_of gs) ≡ ok (clients_of gs)) × All IsAboveZero (clients_of gs)
  unfolding starfrit_setup
  starfrit_setup-clients_of gs room = (
    setup_groups gs 0 (record { done = []; min = fl.zero; max = fl.zero }) refl (omega arith),
    clients_of-IsAboveZero gs,
  )
