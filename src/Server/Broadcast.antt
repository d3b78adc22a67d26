-- ===== src/Server/Broadcast.antt =====
-- The loops of raspberrypi/irbrgd/server.c over all clients.
use irbridge.Base.{
  ℕ, suc, ◌+◌, false, List, [], ◌∷◌, ◌++◌, ok, ◌≡◌, refl, sym, ap, ◌∙◌, length, length-append,
  snoc-append, read-append, take, read, leb, arith, map, append_assoc, append-nil,
}
use irbridge.Server.{
  Event, closed, sent, Server, client, close_from, clear_clients, write_from, write_toallclients,
}
use irbridge.Server.Contract.{Holds}

-- The table with other requests made.
abbrev asking : List Event → Server → Server
asking es σ = record σ { events = es }

write_from-map :
    (pre cs spare : List ℕ) (buffer : List ℕ) (idx : ℕ) (es : List Event) (σ : Server)
    → σ.slots ≡ pre ++ (cs ++ spare)
    → idx ≡ length pre
    → σ.count ≡ idx + length cs
    → write_from (length cs) idx buffer (asking es σ)
      ≡ ok (asking (es ++ map (λ c. sent c buffer) cs) σ)
unfolding write_from client
write_from-map pre [] spare buffer idx es σ e i k = ap (λ l. ok (asking l σ)) (sym (append-nil es))
write_from-map pre (c ∷ cs) spare buffer idx es σ e i k =
    let inside : leb σ.count idx ≡ false = ground arith in
    let now : read σ.slots idx ≡ ok c =
      ap (λ l. read l idx) e ∙ read-append pre (cs ++ spare) c idx i in
    rw (inside, now)
      (write_from-map (pre ++ (c ∷ [])) cs spare buffer (suc idx) (es ++ (sent c buffer ∷ [])) σ
          (e ∙ snoc-append pre (cs ++ spare) c) (omega (arith, length-append pre (c ∷ [])))
          (omega arith)
        ∙ ap (λ l. ok (asking l σ))
            (append_assoc es (sent c buffer ∷ []) (map (λ x. sent x buffer) cs)))

-- On a table that holds the clients `cs`, `write_toallclients` sends the first `len` bytes of the
-- buffer to every client once, in the order of the slots, and leaves the table as it is.
pub write_toallclients-map :
    (cs buffer : List ℕ) (len : ℕ) (σ : Server)
    → Holds cs σ
    → write_toallclients buffer len σ
      ≡ ok (record σ { events = σ.events ++ map (λ c. sent c (take len buffer)) cs })
unfolding write_toallclients
write_toallclients-map cs buffer len σ h =
    ap (λ n. write_from n 0 (take len buffer) σ) h.counted
    ∙ write_from-map [] cs h.spare (take len buffer) 0 σ.events σ h.slots_are refl
        (omega (arith, h.counted))

close_from-map :
    (pre cs spare : List ℕ) (idx : ℕ) (es : List Event) (σ : Server)
    → σ.slots ≡ pre ++ (cs ++ spare)
    → idx ≡ length pre
    → close_from (length cs) idx (asking es σ) ≡ ok (asking (es ++ map closed cs) σ)
unfolding close_from
close_from-map pre [] spare idx es σ e i = ap (λ l. ok (asking l σ)) (sym (append-nil es))
close_from-map pre (c ∷ cs) spare idx es σ e i =
    let now : read σ.slots idx ≡ ok c =
      ap (λ l. read l idx) e ∙ read-append pre (cs ++ spare) c idx i in
    rw now (
      close_from-map (pre ++ (c ∷ [])) cs spare (suc idx) (es ++ (closed c ∷ [])) σ
        (e ∙ snoc-append pre (cs ++ spare) c) (omega (arith, length-append pre (c ∷ [])))
      ∙ ap (λ l. ok (asking l σ)) (append_assoc es (closed c ∷ []) (map closed cs)))

-- On a table that holds the clients `cs`, `clear_clients` closes every client once, in the order of
-- the slots, and leaves the table as it is.
pub clear_clients-map :
    (cs : List ℕ) (σ : Server)
    → Holds cs σ
    → clear_clients σ ≡ ok (record σ { events = σ.events ++ map closed cs })
unfolding clear_clients
clear_clients-map cs σ h =
    ap (λ n. close_from n 0 σ) h.counted
    ∙ close_from-map [] cs h.spare 0 σ.events σ h.slots_are refl
