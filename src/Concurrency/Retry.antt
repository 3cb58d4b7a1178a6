-- ===== src/Concurrency/Retry.antt =====
-- The retries of frappe_wms/services/concurrency.py.
use frappe_ewm.Base.{
  Bool, Bool-cases, Name, [], arith, false, inl, inr, ltb, refl, subst, suc, sym, true, zero, ℕ,
  ◌+◌, ◌<◌, ◌==◌, ◌||◌, ◌≡◌, ◌≤◌, ◌⊎◌,
}
use frappe_ewm.Concurrency.{
  Outcome, Request, abandon, aborted, attempt_from, attempts, raised, retry_on_deadlock, returned,
}

abbrev pub is_aborted : {A : Type 0} → Outcome A → Bool
is_aborted aborted = true
is_aborted (returned a) = false
is_aborted (raised e) = false

Outcome-cases :
    {A : Type 0} (out : Outcome A)
    → (out ≡ aborted)
      ⊎ ((is_aborted out ≡ false)
          × (((a : A) × (out ≡ returned a)) ⊎ ((e : Name) × (out ≡ raised e))))
Outcome-cases aborted = inl refl
Outcome-cases (returned a) = inr (refl, inl (a, refl))
Outcome-cases (raised e) = inr (refl, inr (e, refl))

module _ {S : Type 0} {A : Type 0} (rollback : S → S)
    (fn : ℕ → Request S → Outcome A × Request S) where
  -- What an aborted attempt did to the tables is undone by a rollback, and no attempt that is aborted
  -- leaves the flags of the request changed.
  abbrev pub RollsBack : Request S → Type 0
  RollsBack start =
      (n : ℕ)
      → is_aborted (fn n start).0 ≡ true
      → (rollback (fn n start).1.tables ≡ start.tables)
        × ((fn n start).1.wms_retry_active ≡ start.wms_retry_active)
        × ((fn n start).1.in_test ≡ start.in_test)

  abandon-start :
      (start : Request S) (n : ℕ)
      → RollsBack start
      → start.message_log ≡ []
      → is_aborted (fn n start).0 ≡ true
      → abandon rollback fn (fn n start).1 ≡ start
  abandon-start start n undo silent aborts =
      let (tables, active, test) = undo n aborts in rw (tables, active, test, ← silent) refl

  -- An attempt that is not aborted is the last.
  stops :
      (start : Request S) (first k : ℕ)
      → first ≤ k
      → ((j : ℕ) → first ≤ j → j < k → is_aborted (fn j start).0 ≡ true)
      → is_aborted (fn first start).0 ≡ false
      → k ≡ first
  stops start first k le before no_abort = elim (Bool-cases (ltb first k)) [
    | inl later ↦ cc (before first (omega arith) (ground arith), no_abort)
    | inr here ↦ ground arith
  ]

  -- The attempts from the one numbered `first` on end with the first that is not aborted, `k`.
  attempt_from-first :
      (start : Request S) (first left k : ℕ)
      → RollsBack start
      → start.message_log ≡ []
      → first ≤ k
      → k ≤ first + left
      → ((j : ℕ) → first ≤ j → j < k → is_aborted (fn j start).0 ≡ true)
      → (is_aborted (fn k start).0 ≡ false) ⊎ (k ≡ first + left)
      → attempt_from rollback fn first left start ≡ fn k start
  unfolding attempt_from
  attempt_from-first start first zero k undo silent low le before now =
      let same : k ≡ first = omega arith in rw same refl
  attempt_from-first start first (suc left) k undo silent low le before now =
      elim (Outcome-cases (fn first start).0) [
        | inl aborts ↦
            let again = abandon-start start first undo silent (rw aborts refl) in
            let more : first < k = elim (Bool-cases (first == k)) [
              | inl here ↦
                  let same : k ≡ first = ground arith in
                  elim (rw same at now) [
                    | inl no_abort ↦ cc (rw aborts at no_abort)
                    | inr last ↦ omega arith
                  ]
              | inr other ↦ ground arith
            ] in
            rw (attempt_from, aborts)
              (subst (λ s. attempt_from rollback fn (suc first) left s ≡ fn k start) (sym again)
                (attempt_from-first start (suc first) left k undo silent (omega arith) (omega arith)
                  (λ j a b. before j (omega arith) b)
                  (elim now [ inl no_abort ↦ inl no_abort | inr last ↦ inr (omega arith) ])))
        | inr (no_abort, inl (a, e)) ↦
            let same = stops start first k low before no_abort in rw same (cc e)
        | inr (no_abort, inr (c, e)) ↦
            let same = stops start first k low before no_abort in rw same (cc e)
      ]

  -- A call outside another retried call and outside tests comes to what its first attempt that is
  -- not aborted, or else the fourth, makes of the request as it was at the start: of an aborted
  -- attempt nothing is left. The conditions are that a rollback undoes what an aborted attempt did
  -- to the tables, that an aborted attempt leaves the request's flags, and that no message was
  -- logged before.
  pub retry_on_deadlock-first :
      (r : Request S) (k : ℕ)
      → r.wms_retry_active || r.in_test ≡ false
      → RollsBack (record r { wms_retry_active = true })
      → r.message_log ≡ []
      → k < attempts
      → ((j : ℕ) → j < k → is_aborted (fn j (record r { wms_retry_active = true })).0 ≡ true)
      → (is_aborted (fn k (record r { wms_retry_active = true })).0 ≡ false) ⊎ (suc k ≡ attempts)
      → let out = fn k (record r { wms_retry_active = true }) in
        retry_on_deadlock rollback fn r ≡ (out.0, record out.1 { wms_retry_active = false })
  unfolding retry_on_deadlock
  retry_on_deadlock-first r k outer undo silent le before now =
      rw
        (
          outer,
          attempt_from-first (record r { wms_retry_active = true }) 0 3 k undo silent (omega arith)
              (omega arith) (λ j _ below. before j below)
              (elim now [ inl no_abort ↦ inl no_abort | inr last ↦ inr (omega arith) ]),
        )
        refl

  -- A call inside another retried call is run once.
  retry_on_deadlock-nested :
      (r : Request S) → r.wms_retry_active ≡ true → retry_on_deadlock rollback fn r ≡ fn 0 r
  unfolding retry_on_deadlock
  retry_on_deadlock-nested r inner = rw inner
