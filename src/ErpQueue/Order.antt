-- ===== src/ErpQueue/Order.antt =====
-- What the queue of frappe_wms/services/erp_sync_queue.py does to its logs.
use frappe_ewm.Base.{
  Bool, Bool-cases, List, Name, [], ap, arith, false, inl, inr, not, refl, some, subst, sym, true,
  ◌++◌, ◌==◌, ◌∙◌, ◌∷◌, ◌≡◌, ◌≤◌, ◌⊎◌,
}
use frappe_ewm.ErpQueue.Logs.{
  cancel_forward, cancel_log, fail_log, find_log, finish_log, is_forward, is_pending, is_waiting,
  postpone_log, reopen, unstick, unstick_from, update_log,
}
use frappe_ewm.ErpQueue.Types.{
  Call, Document, Error, Log, Operation, Status, cancelled, done, failed, queued, running,
}

abbrev pub is_final : Status → Bool
is_final s = not (is_pending s)

-- The same log, later: it counts its attempts up, and a log that is done or cancelled stays as it is.
abbrev pub LaterLog : Log → Log → Type 0
LaterLog l m =
    (m.name ≡ l.name)
    × (m.operation ≡ l.operation)
    × (m.reference_doctype ≡ l.reference_doctype)
    × (m.reference_name ≡ l.reference_name)
    × (m.creation ≡ l.creation)
    × (l.attempts ≤ m.attempts)
    × ((m ≡ l) ⊎ (is_final l.status ≡ false))

-- The same logs in the same order, later, and new ones after them.
abbrev pub LaterLogs : List Log → List Log → Type 0
LaterLogs [] ms = Unit
LaterLogs (l ∷ ls) [] = ⊥
LaterLogs (l ∷ ls) (m ∷ ms) = LaterLog l m × LaterLogs ls ms

LaterLog-refl : (l : Log) → LaterLog l l
LaterLog-refl l = (refl, refl, refl, refl, refl, omega arith, inl refl)

LaterLog-trans : (l m n : Log) → LaterLog l m → LaterLog m n → LaterLog l n
LaterLog-trans l m n (a, b, c, d, e, f, g) (a', b', c', d', e', f', g') = (
  a' ∙ a,
  b' ∙ b,
  c' ∙ c,
  d' ∙ d,
  e' ∙ e,
  omega arith,
  elim g [
    | inr moving ↦ inr moving
    | inl same ↦ elim g' [
      | inl same' ↦ inl (same' ∙ same)
      | inr moving ↦ inr (sym (ap (λ x. is_final x.status) same) ∙ moving)
    ]
  ],
)

pub LaterLogs-refl : (ls : List Log) → LaterLogs ls ls
LaterLogs-refl [] = tt
LaterLogs-refl (l ∷ ls) = (LaterLog-refl l, LaterLogs-refl ls)

pub LaterLogs-trans : (ls ms ns : List Log) → LaterLogs ls ms → LaterLogs ms ns → LaterLogs ls ns
LaterLogs-trans [] ms ns p q = tt
LaterLogs-trans (l ∷ ls) [] ns p q = absurd p
LaterLogs-trans (l ∷ ls) (m ∷ ms) [] p q = absurd q
LaterLogs-trans (l ∷ ls) (m ∷ ms) (n ∷ ns) p q =
    (LaterLog-trans l m n p.0 q.0, LaterLogs-trans ls ms ns p.1 q.1)

pub LaterLogs-append : (ls ms : List Log) → LaterLogs ls (ls ++ ms)
LaterLogs-append [] ms = tt
LaterLogs-append (l ∷ ls) ms = (LaterLog-refl l, LaterLogs-append ls ms)

-- A change of one log that was found by its name.
pub update_log-LaterLogs :
    (n : Name) (f : Log → Log) (ls : List Log) {l : Log}
    → find_log n ls ≡ some l
    → LaterLog l (f l)
    → LaterLogs ls (update_log n f ls)
unfolding update_log find_log
update_log-LaterLogs n f [] found later = tt
update_log-LaterLogs n f (x ∷ xs) {l} found later = elim (Bool-cases (x.name == n)) [
  | inl here ↦
      let same : x ≡ l = ground arith in
      rw here (subst (λ y. LaterLog y (f y)) (sym same) later, LaterLogs-refl xs)
  | inr not_here ↦
      rw not_here (LaterLog-refl x, update_log-LaterLogs n f xs (rw not_here at found) later)
]

-- A change that is good for every log.
pub update_log-LaterLogs_all :
    (n : Name) (f : Log → Log) (ls : List Log)
    → ((l : Log) → LaterLog l (f l))
    → LaterLogs ls (update_log n f ls)
unfolding update_log
update_log-LaterLogs_all n f [] later = tt
update_log-LaterLogs_all n f (x ∷ xs) later = elim (Bool-cases (x.name == n)) [
  | inl here ↦ rw here (later x, LaterLogs-refl xs)
  | inr not_here ↦ rw not_here (LaterLog-refl x, update_log-LaterLogs_all n f xs later)
]

pub find_log-name : (n : Name) (ls : List Log) {l : Log} → find_log n ls ≡ some l → l.name ≡ n
unfolding find_log
find_log-name n [] found = cc
find_log-name n (x ∷ xs) found = elim (Bool-cases (x.name == n)) [
  | inl here ↦ ground arith
  | inr not_here ↦ find_log-name n xs (rw not_here at found)
]

waiting-moves : (s : Status) → is_waiting s ≡ true → is_final s ≡ false
waiting-moves s h = ground arith

pub fail_log-LaterLog :
    (c : Call) (e : Error) (l : Log) → is_waiting l.status ≡ true → LaterLog l (fail_log c e l)
unfolding fail_log
fail_log-LaterLog c e l h =
    (refl, refl, refl, refl, refl, omega arith, inr (waiting-moves l.status h))

pub finish_log-LaterLog :
    (c : Call) (l : Log) → is_waiting l.status ≡ true → LaterLog l (finish_log c l)
unfolding finish_log
finish_log-LaterLog c l h =
    (refl, refl, refl, refl, refl, omega arith, inr (waiting-moves l.status h))

pub postpone_log-LaterLog :
    (c : Call) (l : Log) → is_waiting l.status ≡ true → LaterLog l (postpone_log c l)
unfolding postpone_log
postpone_log-LaterLog c l h =
    (refl, refl, refl, refl, refl, omega arith, inr (waiting-moves l.status h))

pub reopen-LaterLog : (l : Log) → is_waiting l.status ≡ true → LaterLog l (reopen l)
unfolding reopen
reopen-LaterLog l h = (refl, refl, refl, refl, refl, omega arith, inr (waiting-moves l.status h))

unstick_from-LaterLog : (l : Log) (s : Status) → l.status ≡ s → LaterLog l (unstick_from s l)
unfolding unstick_from
unstick_from-LaterLog l queued h = LaterLog-refl l
unstick_from-LaterLog l running h =
    (refl, refl, refl, refl, refl, omega arith, inr (ap (λ s. is_final s) h))
unstick_from-LaterLog l failed h = LaterLog-refl l
unstick_from-LaterLog l done h = LaterLog-refl l
unstick_from-LaterLog l cancelled h = LaterLog-refl l

pub unstick-LaterLog : (l : Log) → LaterLog l (unstick l)
unfolding unstick
unstick-LaterLog l = unstick_from-LaterLog l l.status refl

pub cancel_forward-LaterLogs :
    (doc : Document) (forward : Operation) (ls : List Log)
    → LaterLogs ls (cancel_forward doc forward ls)
unfolding cancel_forward cancel_log is_forward
cancel_forward-LaterLogs doc forward [] = tt
cancel_forward-LaterLogs doc forward (l ∷ ls) = (
  elim (Bool-cases (is_forward doc forward l)) [
    | inl forward_log ↦
        rw forward_log (refl, refl, refl, refl, refl, omega arith, inr (ground (arith)))
    | inr other ↦ rw other (LaterLog-refl l)
  ],
  cancel_forward-LaterLogs doc forward ls,
)
