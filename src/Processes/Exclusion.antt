-- ===== src/Processes/Exclusion.antt =====
-- At most one daemon runs, in whatever order the processes take their steps.
use mathlib.Core.Path.{subst}
use irbridge.Base.{
  ℕ, ◌≤◌, ◌≡◌, ◌≢◌, refl, sym, ap, ◌∙◌, inl, inr, Bool, true, false, Bool-cases, ==-eq, ==_refl,
  Option, none, some, List, [], ◌∷◌, Outcome, ok, fault, out_of_fuel, ◌>>=◌, length, ◌==◌, arith,
}
use irbridge.Processes.{
  returns, exits, record_pid, daemonize, LockFile, child_of, without, World, Step, fork_child,
  become_daemon, give_up_lock, end_daemon, Run, no_step, then_step,
}

-- A process that is its own only one, or none.
abbrev pub list_of : Option ℕ → List ℕ
list_of none = []
list_of (some p) = p ∷ []

-- A child that returns has the lock.
daemonize_locked :
    (digits : ℕ → List ℕ) (p : ℕ) (locked : Bool) (text : List ℕ)
    → daemonize digits (child_of p locked) ≡ ok (returns text)
    → locked ≡ true
unfolding daemonize
daemonize_locked digits p true text e = refl
daemonize_locked digits p false text e = cc e

returned_only :
    (m : Outcome (List ℕ)) (status : ℕ) → (m >>= λ text. ok (returns text)) ≢ ok (exits status)
returned_only (ok text) status e = cc e
returned_only fault status e = cc e
returned_only out_of_fuel status e = cc e

-- A child that exits has not got it.
daemonize_exits :
    (digits : ℕ → List ℕ) (p : ℕ) (locked : Bool) (status : ℕ)
    → daemonize digits (child_of p locked) ≡ ok (exits status)
    → locked ≡ false
unfolding daemonize
daemonize_exits digits p false status e = refl
daemonize_exits digits p true status e = absurd (returned_only (record_pid digits p) status e)

without-other : (p q : ℕ) → without p (q ∷ []) ≡ q ∷ [] → p ≢ q
unfolding without
without-other p q e same =
    let own : (q == p) ≡ true = ap (λ x. q == x) same ∙ ==_refl q in
    let gone : List ℕ = without p (q ∷ []) in
    let empty : without p (q ∷ []) ≡ [] = rw own refl in cc (empty, e)

module _ (digits : ℕ → List ℕ) (file : LockFile) where
  -- The daemons are just the process that holds the lock.
  pub IsExclusive : World digits file → Type 0
  IsExclusive w = w.daemons ≡ list_of (file.holder w.lock)

  after_acquire :
      (w : World digits file) (p : ℕ) (h : Option ℕ)
      → file.holder w.lock ≡ h
      → IsExclusive w
      → without p w.daemons ≡ w.daemons
      → (file.acquire p w.lock).0 ≡ true
      → p ∷ w.daemons ≡ list_of (file.holder (file.acquire p w.lock).1)
  unfolding IsExclusive
  after_acquire w p none e i fresh got =
      ap (◌∷◌ p) (i ∙ ap list_of e) ∙ sym (ap list_of (file.acquire-free p w.lock e).1)
  after_acquire w p (some q) e i fresh got =
      let alone : w.daemons ≡ q ∷ [] = i ∙ ap list_of e in
      let other = without-other p q (subst (λ l. without p l ≡ l) alone fresh) in
      absurd (cc (got, (file.acquire-held p q w.lock e other).0))

  after_refusal :
      (w : World digits file) (p : ℕ) (h : Option ℕ)
      → file.holder w.lock ≡ h
      → IsExclusive w
      → without p w.daemons ≡ w.daemons
      → (file.acquire p w.lock).0 ≡ false
      → w.daemons ≡ list_of (file.holder (file.release p (file.acquire p w.lock).1))
  unfolding IsExclusive
  after_refusal w p none e i fresh refused = absurd (cc (refused, (file.acquire-free p w.lock e).0))
  after_refusal w p (some q) e i fresh refused =
      let alone : w.daemons ≡ q ∷ [] = i ∙ ap list_of e in
      let other = without-other p q (subst (λ l. without p l ≡ l) alone fresh) in
      let held = (file.acquire-held p q w.lock e other).1 in
      alone ∙ sym (ap list_of (file.release-other p q (file.acquire p w.lock).1 held other))

  after_end :
      (w : World digits file) (p : ℕ) (h : Option ℕ)
      → file.holder w.lock ≡ h
      → IsExclusive w
      → without p w.daemons ≢ w.daemons
      → without p w.daemons ≡ list_of (file.holder (file.release p w.lock))
  unfolding IsExclusive without
  after_end w p none e i mine =
      let empty : w.daemons ≡ [] = i ∙ ap list_of e in
      absurd (mine (ap (without p) empty ∙ sym empty))
  after_end w p (some q) e i mine =
      let alone : w.daemons ≡ q ∷ [] = i ∙ ap list_of e in
      elim (Bool-cases (q == p)) [
        | inl own ↦
            let held : file.holder w.lock ≡ some p = e ∙ ap some (==-eq q p own) in
            let gone : without p (q ∷ []) ≡ [] = rw own refl in
            ap (without p) alone ∙ gone ∙ sym (ap list_of (file.release-held p w.lock held))
        | inr other ↦
            let kept : without p (q ∷ []) ≡ q ∷ [] = rw other refl in
            absurd (mine (ap (without p) alone ∙ kept ∙ sym alone))
      ]

  Step-IsExclusive :
      {v w : World digits file} → Step digits file v w → IsExclusive v → IsExclusive w
  unfolding IsExclusive
  Step-IsExclusive (fork_child w p found) i = i
  Step-IsExclusive (become_daemon w p text waits fresh e) i =
      after_acquire w p (file.holder w.lock) refl i fresh
        (daemonize_locked digits p (file.acquire p w.lock).0 text e)
  Step-IsExclusive (give_up_lock w p status waits fresh e) i =
      after_refusal w p (file.holder w.lock) refl i fresh
        (daemonize_exits digits p (file.acquire p w.lock).0 status e)
  Step-IsExclusive (end_daemon w p mine) i = after_end w p (file.holder w.lock) refl i mine

  Run-IsExclusive : {v w : World digits file} → Run digits file v w → IsExclusive v → IsExclusive w
  Run-IsExclusive (no_step w) i = i
  Run-IsExclusive (then_step r s) i = Step-IsExclusive s (Run-IsExclusive r i)

  length-list_of : (h : Option ℕ) → length (list_of h) ≤ 1
  length-list_of none = omega arith
  length-list_of (some p) = omega arith

  -- Let some processes, none of them started by init, start and end the daemon, in any order of
  -- their steps, from a state in which the daemons are just the process that holds the lock file,
  -- for any lock that keeps to its laws. Then at most one daemon runs, and the daemons are again
  -- just the process that holds the lock, even where several processes have asked `getPID` before
  -- one had the lock.
  pub one_daemon :
      (v w : World digits file)
      → v.daemons ≡ list_of (file.holder v.lock)
      → Run digits file v w
      → (length w.daemons ≤ 1) × (w.daemons ≡ list_of (file.holder w.lock))
  unfolding IsExclusive
  one_daemon v w i r =
      let e = Run-IsExclusive r i in
      (omega (arith, ap length e, length-list_of (file.holder w.lock)), e)
