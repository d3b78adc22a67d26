-- ===== src/Server/Contract.antt =====
-- The table of raspberrypi/irbrgd/server.c as a list of clients.
use irbridge.Base.{
  ℕ, zero, suc, ◌+◌, ◌-◌, ◌<◌, false, some, List, [], ◌∷◌, ◌++◌, Outcome, ok, fault, ◌≡◌, refl, ap,
  ◌∙◌, length, length-append, snoc-append, take, drop, length-drop, write, write-append, ltb, arith,
}
use irbridge.Server.{max_clients, Event, closed, Server, add_client, remove_client}
use irbridge.Server.Removal.{removed, length-removed, slid, length-slid, move_up-slid, take-slid}

-- That the table holds the clients `cs`, in the order of their slots.
pub record Holds (cs : List ℕ) (σ : Server) : Type 0 where
  pub spare : List ℕ
  pub slots_are : σ.slots ≡ cs ++ spare
  pub counted : σ.count ≡ length cs
  pub sized : length cs + length spare ≡ max_clients

-- Requests do not change the table.
pub Holds-events :
    {cs : List ℕ} {σ : Server} (es : List Event) → Holds cs σ → Holds cs (record σ { events = es })
Holds-events es h = record {
  spare = h.spare;
  slots_are = h.slots_are;
  counted = h.counted;
  sized = h.sized;
}

-- A call's outcome that leaves a table with the clients `cs` and has made the requests `es`.
pub record Leaves (cs : List ℕ) (es : List Event) (result : Outcome Server) : Type 0 where
  pub after : Server
  pub returns : result ≡ ok after
  pub holds : Holds cs after
  pub asked : after.events ≡ es

-- On a table that holds fewer than 100 clients, `add_client` ends without a fault and leaves a
-- table that holds the socket that `accept` has returned behind the others, and makes no other
-- request.
pub add_client-Leaves :
    (cs : List ℕ) (csock : ℕ) (σ : Server)
    → Holds cs σ
    → length cs < max_clients
    → Leaves (cs ++ (csock ∷ [])) σ.events (add_client (some csock) σ)
unfolding add_client
add_client-Leaves cs csock σ h room = go h.spare h.slots_are h.sized
  where
    go :
        (spare : List ℕ)
        → σ.slots ≡ cs ++ spare
        → length cs + length spare ≡ max_clients
        → Leaves (cs ++ (csock ∷ [])) σ.events (add_client (some csock) σ)
    go [] e k = absurd (omega arith)
    go (x ∷ spare) e k = record {
      after = record σ { slots = cs ++ (csock ∷ spare); count = σ.count + 1 };
      returns = rw (e, write-append cs spare x csock σ.count h.counted) refl;
      holds = record {
        spare = spare;
        slots_are = snoc-append cs spare csock;
        counted = omega (arith, length-append cs (csock ∷ []), h.counted);
        sized = omega (arith, length-append cs (csock ∷ []));
      };
      asked = refl;
    }

-- On a table that holds 100 clients, `add_client` writes the next socket behind the table.
pub add_client_overflow :
    (cs : List ℕ) (csock : ℕ) (σ : Server)
    → Holds cs σ
    → length cs ≡ max_clients
    → add_client (some csock) σ ≡ fault
unfolding add_client write
add_client_overflow cs csock σ h full =
    let n : length σ.slots ≡ max_clients =
      ap length h.slots_are ∙ length-append cs h.spare ∙ h.sized in
    let past : ltb σ.count (length σ.slots) ≡ false = ground (arith, h.counted) in rw past refl

last_behind : (n : ℕ) (xs spare : List ℕ) → xs ++ spare ≡ take n xs ++ (drop n xs ++ spare)
last_behind zero xs spare = refl
last_behind (suc n) [] spare = refl
last_behind (suc n) (x ∷ xs) spare = ap (◌∷◌ x) (last_behind n xs spare)

-- On a table that holds the clients `cs`, `remove_client` ends without a fault, closes the socket,
-- and leaves a table that holds `cs` without the first entry of that socket, or without the last
-- client where the socket has no entry; the order of the others is kept.
pub remove_client-Leaves :
    (cs : List ℕ) (csock : ℕ) (σ : Server)
    → Holds cs σ
    → Leaves (removed csock cs) (σ.events ++ (closed csock ∷ [])) (remove_client csock σ)
unfolding remove_client
remove_client-Leaves cs csock σ h = record {
  after = record {
    slots = slid csock false cs ++ h.spare;
    count = σ.count - 1;
    events = σ.events ++ (closed csock ∷ []);
  };
  returns =
      rw
        (
          h.counted,
          h.slots_are,
          move_up-slid csock [] cs h.spare 0 (length cs) false refl (omega arith),
        )
        refl;
  holds = held cs h.counted h.sized;
  asked = refl;
}
  where
    held :
        (l : List ℕ)
        → σ.count ≡ length l
        → length l + length h.spare ≡ max_clients
        → Holds (removed csock l) (record {
          slots = slid csock false l ++ h.spare;
          count = σ.count - 1;
          events = σ.events ++ (closed csock ∷ []);
        })
    held [] k size = record {
      spare = h.spare;
      slots_are = refl;
      counted = omega arith;
      sized = size;
    }
    held (c ∷ l) k size = record {
      spare = drop (length l) (slid csock false (c ∷ l)) ++ h.spare;
      slots_are =
          last_behind (length l) (slid csock false (c ∷ l)) h.spare
          ∙ ap (λ r. r ++ (drop (length l) (slid csock false (c ∷ l)) ++ h.spare))
              (take-slid csock c l);
      counted = omega (arith, length-removed csock (c ∷ l));
      sized = omega (
        arith,
        length-removed csock (c ∷ l),
        length-append (drop (length l) (slid csock false (c ∷ l))) h.spare,
        length-drop (length l) (slid csock false (c ∷ l)),
        length-slid csock false (c ∷ l),
      );
    }
