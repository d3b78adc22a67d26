-- ===== src/Daemon/Hub/Clients.antt =====
-- The list of the clients in the hub: it stays without repetition, and grows only by new clients
-- (raspberrypi/irbrgd/server.c:55).
use irbridge.Base.{
  ℕ, ◌+◌, ◌≤◌, ◌<◌, ◌≡◌, refl, true, inl, inr, Bool-cases, ==-eq, ==_refl, Option, none, some, List,
  [], ◌∷◌, ◌++◌, length, length-append, ◌==◌, arith,
}
use irbridge.Daemon.{Ready, is_in}
use irbridge.Daemon.Hub.{Hub, turn, broadcast, take_in, hub_round, Distinct, IsNew}
use irbridge.Decoder.Refine.{bytes}
use irbridge.Server.{read_client}
use irbridge.Server.Inbox.{occurs, occurs-append}

pub broadcast-clients : (bytes : List ℕ) (h : Hub) → (broadcast bytes h).clients ≡ h.clients
broadcast-clients [] h = refl
broadcast-clients (b ∷ bytes) h = refl

-- The clients of the hub are above 0.
pub Distinct-pos : (x : ℕ) (cs : List ℕ) → Distinct cs → is_in x cs ≡ true → 0 < x
Distinct-pos x [] h m = cc m
Distinct-pos x (c ∷ cs) h m = elim (Bool-cases (x == c)) [
  | inl e ↦ let same = ==-eq x c e in omega (arith, h.0)
  | inr e ↦ Distinct-pos x cs h.2 (ground (arith, m))
]

Distinct-snoc :
    (c : ℕ) (cs : List ℕ) → Distinct cs → 0 < c → occurs c cs ≡ 0 → Distinct (cs ++ (c ∷ []))
Distinct-snoc c [] h pos new = (pos, refl, tt)
Distinct-snoc c (x ∷ cs) h pos new = (
  h.0,
  ground (arith, h.1, occurs-append x cs (c ∷ []), ==_refl x),
  Distinct-snoc c cs h.2 pos (ground arith),
)

module _ (r : Ready) where
  -- Who stays has been there.
  occurs-turn : (x : ℕ) (cs : List ℕ) → occurs x cs ≡ 0 → occurs x (turn r cs).left ≡ 0
  occurs-turn x [] h = refl
  occurs-turn x (c ∷ []) h = ground arith
  occurs-turn x (c ∷ d ∷ cs) h = ground (arith, occurs-turn x (d ∷ cs), occurs-turn x cs)

  pub length-turn : (cs : List ℕ) → length (turn r cs).left ≤ length cs
  length-turn [] = omega arith
  length-turn (c ∷ []) = ground arith
  length-turn (c ∷ d ∷ cs) = ground (arith, length-turn (d ∷ cs), length-turn cs)

  Distinct-turn : (cs : List ℕ) → Distinct cs → Distinct (turn r cs).left
  Distinct-turn [] h = tt
  Distinct-turn (c ∷ []) h = elim (Bool-cases (r.is_ready c)) [
    | inr quiet ↦ rw quiet h
    | inl on ↦ elim (Bool-cases (length (read_client (r.received c)) == 0)) [
      | inr sends ↦ rw (on, sends) h
      | inl ends ↦ rw (on, ends) tt
    ]
  ]
  Distinct-turn (c ∷ d ∷ cs) h = elim (Bool-cases (r.is_ready c)) [
    | inr quiet ↦ rw quiet (h.0, occurs-turn c (d ∷ cs) h.1, Distinct-turn (d ∷ cs) h.2)
    | inl on ↦ elim (Bool-cases (length (read_client (r.received c)) == 0)) [
      | inr sends ↦ rw (on, sends) h
      | inl ends ↦ rw (on, ends) (h.2.0, occurs-turn d cs h.2.1, Distinct-turn cs h.2.2)
    ]
  ]

pub length-take_in :
    (a : Option ℕ) (h : Hub) (n : ℕ)
    → length h.clients ≤ n
    → length (take_in a h).clients ≤ elim a [ none ↦ 0 | some _ ↦ 1 ] + n
length-take_in none h n few = omega arith
length-take_in (some c) h n few = omega (arith, length-append h.clients (c ∷ []))

pub Distinct-round :
    (fd sock : ℕ) (r : Ready) (h : Hub)
    → Distinct h.clients
    → IsNew r.accepted h.clients
    → Distinct (hub_round fd sock r h).clients
Distinct-round fd sock r h apart new = elim (Bool-cases (r.is_ready fd)) [
  | inl on ↦ rw on (from_ir r.ir)
  | inr off ↦ elim (Bool-cases (r.is_ready sock)) [
    | inl comes ↦ rw (off, comes) (joined r.accepted new)
    | inr old ↦ rw (off, old) (Distinct-turn r h.clients apart)
  ]
]
  where
    told : (bytes : List ℕ) → Distinct (broadcast bytes h).clients
    told [] = apart
    told (b ∷ bytes) = apart

    from_ir :
        (ir : Option (List ℕ))
        → Distinct (elim ir as (λ _. Hub) [ none ↦ h | some bytes ↦ broadcast bytes h ]).clients
    from_ir none = apart
    from_ir (some bytes) = told bytes

    joined : (a : Option ℕ) → IsNew a h.clients → Distinct (take_in a h).clients
    joined none n = apart
    joined (some c) n = Distinct-snoc c h.clients apart n.0 n.1
