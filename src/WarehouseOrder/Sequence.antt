-- ===== src/WarehouseOrder/Sequence.antt =====
-- The strict sequence of frappe_wms/services/warehouse_order.py.
use frappe_ewm.Base.{
  All, All-map, All-map2, Bool, Bool-cases, List, Name, Option, Option-cases, [], any, any-false,
  arith, false, from_option, inl, inr, ltb, map, map-All, none, not, refl, some, true, ℕ, ◌&&◌, ◌∷◌,
  ◌≡◌, ◌≢◌, ◌≤◌, ◌⊎◌,
}
use frappe_ewm.WarehouseOrder.{
  Order, Task, TaskStatus, gate_on_sequence, is_pending, is_waiting, is_workable, min_waiting,
  non_terminal, release_at, release_next_in_sequence, release_task, released_status, seq,
}

-- Nobody works on a task while a task of a lower sequence has not ended.
abbrev pub IsFirst : List Task → Task → Type 0
IsFirst ts t = is_workable t ≡ true → All (λ s. is_pending s ≡ true → seq t ≤ seq s) ts

abbrev pub IsSequenced : List Task → Type 0
IsSequenced ts = All (IsFirst ts) ts

-- If there is no lowest waiting sequence, no task waits.
min_waiting-none : (ts : List Task) → min_waiting ts ≡ none → All (λ t. is_waiting t ≡ false) ts
unfolding min_waiting
min_waiting-none [] h = tt
min_waiting-none (t ∷ ts) h = elim (Bool-cases (is_waiting t)) [
  | inr not_waiting ↦ (not_waiting, min_waiting-none ts (rw not_waiting at h))
  | inl waiting ↦ cc (rw waiting at h)
]

-- The lowest waiting sequence is at most that of every waiting task.
min_waiting-le :
    (ts : List Task) {m : ℕ}
    → min_waiting ts ≡ some m
    → All (λ t. is_waiting t ≡ true → m ≤ seq t) ts
unfolding min_waiting
min_waiting-le [] h = tt
min_waiting-le (t ∷ ts) {m} h = elim (Bool-cases (is_waiting t)) [
  | inr not_waiting ↦ (λ w. cc (w, not_waiting), min_waiting-le ts (rw not_waiting at h))
  | inl waiting ↦ elim (Option-cases (min_waiting ts)) [
    | inl no_other ↦ (
      λ _. ground arith,
      All-map (λ t. is_waiting t ≡ false) (λ t. is_waiting t ≡ true → m ≤ seq t) ts
          (λ t n w. cc (n, w)) (min_waiting-none ts no_other),
    )
    | inr (n, others) ↦ (
      λ _. ground arith,
      All-map (λ t. is_waiting t ≡ true → n ≤ seq t) (λ t. is_waiting t ≡ true → m ≤ seq t) ts
          (λ t low w. let below = low w in ground arith) (min_waiting-le ts others),
    )
  ]
]

-- A task that has not ended is workable or waits its turn.
pending-cases : (t : Task) → is_pending t ≡ true → (is_workable t ≡ true) ⊎ (is_waiting t ≡ true)
pending-cases t h = ground arith

release_task-seq : (st : TaskStatus) (m : ℕ) (t : Task) → seq (release_task st m t) ≡ seq t
unfolding release_task
release_task-seq st m t = ground arith

-- A release ends no task and revives none.
release_task-is_pending :
    (st : TaskStatus) (m : ℕ) (t : Task)
    → non_terminal st ≡ true
    → is_pending (release_task st m t) ≡ true
    → is_pending t ≡ true
unfolding release_task
release_task-is_pending st m t h p = ground arith

-- A task is workable after a release if it was before, or if it is one of those that waited longest.
release_task-is_workable :
    (st : TaskStatus) (m : ℕ) (t : Task)
    → is_workable (release_task st m t) ≡ true
    → (is_workable t ≡ true) ⊎ (seq t ≡ m)
unfolding release_task
release_task-is_workable st m t w = ground arith

-- Every task that has not ended comes at the released sequence or later.
pending-le :
    (ts : List Task) (m : ℕ)
    → min_waiting ts ≡ some m
    → any (λ t. is_workable t && ltb (seq t) m) ts ≡ false
    → All (λ t. is_pending t ≡ true → m ≤ seq t) ts
pending-le ts m low free =
    All-map2 (λ t. is_waiting t ≡ true → m ≤ seq t) (λ t. (is_workable t && ltb (seq t) m) ≡ false)
      (λ t. is_pending t ≡ true → m ≤ seq t) ts
      (λ t waits works p. elim (pending-cases t p) [
        | inl work ↦ ground arith
        | inr wait ↦ waits wait
      ])
      (min_waiting-le ts low) ((any-false _ ts).0 free)

release-IsFirst :
    (st : TaskStatus) (m : ℕ) (ts : List Task) (t : Task)
    → non_terminal st ≡ true
    → All (λ s. is_pending s ≡ true → m ≤ seq s) ts
    → IsFirst ts t
    → IsFirst (map (release_task st m) ts) (release_task st m t)
release-IsFirst st m ts t live low first works =
    let at_least : All (λ s. is_pending s ≡ true → seq t ≤ seq s) ts =
      elim (release_task-is_workable st m t works) [
        | inl before ↦ first before
        | inr released ↦ rw released low
      ] in
    map-All (λ s. is_pending s ≡ true → seq (release_task st m t) ≤ seq s) (release_task st m) ts
      (All-map (λ s. is_pending s ≡ true → seq t ≤ seq s)
        (λ s.
          is_pending (release_task st m s) ≡ true
          → seq (release_task st m t) ≤ seq (release_task st m s))
        ts
        (λ s le p.
          rw (release_task-seq st m t, release_task-seq st m s)
            (le (release_task-is_pending st m s live p)))
        at_least)

release_at-IsSequenced :
    (o : Order) (ts : List Task) (lowest : Option ℕ)
    → min_waiting ts ≡ lowest
    → IsSequenced ts
    → IsSequenced (release_at o lowest ts).1
unfolding release_at
release_at-IsSequenced o ts none low h = h
release_at-IsSequenced o ts (some m) low h =
    elim (Bool-cases (any (λ t. is_workable t && ltb (seq t) m) ts)) [
      | inl blocked ↦ rw blocked h
      | inr free ↦
          let live : non_terminal (released_status o) ≡ true = ground arith in
          rw free (
            map-All (IsFirst (map (release_task (released_status o) m) ts))
              (release_task (released_status o) m) ts
              (All-map (IsFirst ts)
                (λ t.
                  IsFirst (map (release_task (released_status o) m) ts)
                    (release_task (released_status o) m t))
                ts (λ t. release-IsFirst (released_status o) m ts t live (pending-le ts m low free))
                h))
    ]

-- Releasing the next tasks of an order lets no task be worked on while a task of a lower sequence
-- has not ended, if that was so before.
pub release_next-IsSequenced :
    (o : Order) (ts : List Task) → IsSequenced ts → IsSequenced (release_next_in_sequence o ts).1
unfolding release_next_in_sequence
release_next-IsSequenced o ts h = release_at-IsSequenced o ts (min_waiting ts) refl h

never : (b : Bool) → (b && false) ≢ true
never b h = ground arith

-- A task that is put into an order is workable only if no task of a lower sequence has not ended.
gate_on_sequence-holds :
    (reason : Name) (task : Task) (arrival : ℕ) (siblings : List Task)
    → is_workable (gate_on_sequence reason task arrival siblings) ≡ true
    → All (λ s. is_pending s ≡ true → from_option arrival task.sequence ≤ seq s) siblings
unfolding gate_on_sequence
gate_on_sequence-holds reason task arrival siblings h =
    elim (Bool-cases
      (any (λ s. is_pending s && ltb (seq s) (from_option arrival task.sequence)) siblings)) [
        | inl blocked ↦ absurd (never (not task.doc_cancelled) (rw blocked at h))
        | inr free ↦
            All-map (λ s. (is_pending s && ltb (seq s) (from_option arrival task.sequence)) ≡ false)
              (λ s. is_pending s ≡ true → from_option arrival task.sequence ≤ seq s) siblings
              (λ s f p. ground arith) ((any-false _ siblings).0 free)
      ]
