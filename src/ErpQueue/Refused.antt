-- ===== src/ErpQueue/Refused.antt =====
-- What follows when ERPNext refuses a posting of frappe_wms/services/erp_sync_queue.py.
use frappe_ewm.Base.{
  Bool-cases, Has, Has-any, Has-map, List, Name, [], any, ap, arith, err, false, if◌then◌else◌, inl,
  inr, ok, refl, some, suc, sym, true, zero, ℕ, ◌+◌, ◌-◌, ◌<◌, ◌==◌, ◌∙◌, ◌∷◌, ◌≡◌, ◌≤◌,
}
use frappe_ewm.ErpQueue.Inline.{run-attempt}
use frappe_ewm.ErpQueue.Logs.{
  backoff, fail_log, find_document, find_log, is_earlier, is_waiting, postpone_log, pow2,
  update_log,
}
use frappe_ewm.ErpQueue.Operations.{operate}
use frappe_ewm.ErpQueue.Order.{find_log-name}
use frappe_ewm.ErpQueue.Queue.{Outcome, now_at, run, run_found, run_log, settle, waiting}
use frappe_ewm.ErpQueue.Types.{Call, Document, ErpNext, Error, Log, World, failed}

backoff-bounds : (attempts : ℕ) → 1 ≤ attempts → (5 ≤ backoff attempts) × (backoff attempts ≤ 360)
backoff-bounds attempts h =
    let some_power = pow2-positive (attempts - 1) in
    (ground (arith, some_power), ground (arith, some_power))
  where
    pow2-positive : (n : ℕ) → 1 ≤ pow2 n
    pow2-positive zero = omega arith
    pow2-positive (suc n) = omega (arith, pow2-positive n)

find_log-update :
    (n m : Name) (f : Log → Log) (ls : List Log) {l : Log}
    → (f l).name ≡ l.name
    → find_log n ls ≡ some l
    → find_log m (update_log n f ls) ≡ (if n == m then some (f l) else find_log m ls)
unfolding find_log update_log
find_log-update n m f [] {l} keeps found = cc found
find_log-update n m f (x ∷ xs) {l} keeps found = elim (Bool-cases (x.name == n)) [
  | inl here ↦ let same : x ≡ l = cc (rw here at found) in ground (arith, here, same, keeps)
  | inr away ↦
      let later = find_log-update n m f xs {l = l} keeps (rw away at found) in
      elim (Bool-cases (x.name == m)) [
        | inl match ↦ let other : n == m ≡ false = ground arith in rw away (rw (match, other) refl)
        | inr no_match ↦ rw away (rw no_match later)
      ]
]

-- A log that is there is among the logs.
Has-find : (n : Name) (ls : List Log) {l : Log} → find_log n ls ≡ some l → Has (λ x. x ≡ l) ls
unfolding find_log
Has-find n [] {l} found = cc found
Has-find n (x ∷ xs) {l} found = elim (Bool-cases (x.name == n)) [
  | inl here ↦ inl (cc (rw here at found))
  | inr away ↦ inr (Has-find n xs (rw away at found))
]

-- The log of a refused posting: failed, tried once more than before, to be tried again in 5 to 360
-- minutes, and else the same.
abbrev pub RefusedLog : ℕ → Log → Log → Type 0
RefusedLog now l m =
    (m.status ≡ failed)
    × (m.attempts ≡ l.attempts + 1)
    × (m.completed_at ≡ l.completed_at)
    × (m.name ≡ l.name)
    × (m.operation ≡ l.operation)
    × (m.reference_doctype ≡ l.reference_doctype)
    × (m.reference_name ≡ l.reference_name)
    × (m.payload ≡ l.payload)
    × (m.creation ≡ l.creation)
    × (at : ℕ) × (m.next_retry_at ≡ some at)
    × (now + 5 ≤ at)
    × (at ≤ now + 360)

fail_log-RefusedLog : (c : Call) (e : Error) (l : Log) → RefusedLog c.now l (fail_log c e l)
unfolding fail_log
fail_log-RefusedLog c e l =
    let (low, high) = backoff-bounds (l.attempts + 1) (omega arith) in
    (
      refl,
      refl,
      refl,
      refl,
      refl,
      refl,
      refl,
      refl,
      refl,
      c.now + backoff (l.attempts + 1),
      refl,
      omega (arith, low),
      omega (arith, high),
    )

kept_name : (c : Call) (e : Error) (l : Log) → (fail_log c e l).name ≡ l.name
unfolding fail_log
kept_name c e l = refl

-- Two logs that were made at different times have different names.
different :
    (n k : Name) (ls : List Log) {l later : Log}
    → find_log n ls ≡ some l
    → find_log k ls ≡ some later
    → l.creation < later.creation
    → n == k ≡ false
different n k ls {l} {later} found second before = elim (Bool-cases (n == k)) [
  | inr other ↦ other
  | inl same ↦
      let names : n ≡ k = ground arith in
      let logs : l ≡ later = cc (found, second, names) in
      absurd (omega (arith, before, ap (λ x. x.creation) logs))
]

-- A failed log stands before the later ones of its document.
RefusedLog-is_earlier :
    (now : ℕ) (l m later : Log)
    → RefusedLog now l m
    → l.reference_doctype ≡ later.reference_doctype
    → l.reference_name ≡ later.reference_name
    → l.creation < later.creation
    → is_earlier later m ≡ true
unfolding is_earlier
RefusedLog-is_earlier now l m later (st, _, _, _, _, dt, n, _, cr, _, _, _, _) sdt sn before =
    ground arith

module _ {E : Type 0} (api : ErpNext E) where
  -- A log behind another one changes neither documents nor ERPNext.
  run-behind_another :
      (c : Call) (k : Name) (w : World E) {later : Log}
      → find_log k w.logs ≡ some later
      → any (is_earlier later) w.logs ≡ true
      → (end : Outcome × World E) × (run api c k w ≡ ok end)
        × (end.1.documents ≡ w.documents)
        × (end.1.erp ≡ w.erp)
  unfolding run run_found run_log
  run-behind_another c k w {later} found behind = elim (Bool-cases (is_waiting later.status)) [
    | inl waits ↦ (
      (waiting, record w { logs = update_log later.name (postpone_log c) w.logs }),
      rw (found, waits, behind) refl,
      refl,
      refl,
    )
    | inr settled ↦ ((now_at later.status, w), rw (found, settled) refl, refl, refl)
  ]

  -- Running a waiting log that nothing is before and whose document is there, where ERPNext
  -- refuses the posting, leaves the documents and ERPNext as they are; the log is then failed,
  -- with one attempt more and the next one in 5 to 360 minutes, and with the same operation and
  -- document. A later log of the same document stays as it is, and running it next goes through
  -- but changes neither documents nor ERPNext.
  pub run_refused :
      (c c' : Call) (n k : Name) (w : World E) {l later : Log} {doc : Document} {e : Error}
      → find_log n w.logs ≡ some l
      → is_waiting l.status ≡ true
      → any (is_earlier l) w.logs ≡ false
      → find_document l.reference_doctype l.reference_name w.documents ≡ some doc
      → operate api l.operation l.payload doc w.erp ≡ err e
      → find_log k w.logs ≡ some later
      → later.reference_doctype ≡ l.reference_doctype
      → later.reference_name ≡ l.reference_name
      → l.creation < later.creation
      → (out : World E) × (run api c n w ≡ ok (now_at failed, out))
        × (out.documents ≡ w.documents)
        × (out.erp ≡ w.erp)
        × (m : Log) × (find_log n out.logs ≡ some m)
        × RefusedLog c.now l m
        × (find_log k out.logs ≡ some later)
        × (end : Outcome × World E) × (run api c' k out ≡ ok end)
        × (end.1.documents ≡ w.documents)
        × (end.1.erp ≡ w.erp)
  unfolding settle
  run_refused c c' n k w {l} {later} {doc} {e} found waits first there fails second dt name before =
      let f = fail_log c e in
      let out : World E = record w { logs = update_log l.name f w.logs } in
      let named : l.name ≡ n = find_log-name n w.logs found in
      let looked : (x : Name)
          → find_log x (update_log n f w.logs)
            ≡ (if n == x then some (f l) else find_log x w.logs) =
        λ x. find_log-update n x f w.logs {l = l} (kept_name c e l) found in
      let m_there : find_log n out.logs ≡ some (f l) = rw named (looked n ∙ ground arith) in
      let other : n == k ≡ false = different n k w.logs found second before in
      let later_there : find_log k out.logs ≡ some later = rw named (looked k ∙ rw other second) in
      let refusal = fail_log-RefusedLog c e l in
      let earlier = RefusedLog-is_earlier c.now l (f l) later refusal (sym dt) (sym name) before in
      let behind : any (is_earlier later) out.logs ≡ true = Has-any (is_earlier later) out.logs (
        Has-map (λ x. x ≡ f l) (λ x. is_earlier later x ≡ true) out.logs (λ x same. rw same earlier)
          (Has-find n out.logs m_there)) in
      let (end, runs, same_documents, same_erp) =
        run-behind_another c' k out {later = later} later_there behind in
      (
        out,
        rw (run-attempt api c n w found waits first there, fails) refl,
        refl,
        refl,
        f l,
        m_there,
        refusal,
        later_there,
        end,
        runs,
        same_documents,
        same_erp,
      )
