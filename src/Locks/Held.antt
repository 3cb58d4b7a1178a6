-- ===== src/Locks/Held.antt =====
-- A lock of frappe_wms/services/locks.py through any sequence of calls by other users.
use frappe_ewm.Base.{
  Bool-cases, List, Name, Option, Option-cases, Result, Result-cases, [], arith, err, false,
  if◌then◌else◌, inl, inr, is_some, ltb, none, ok, refl, some, subst, sym, true, ℕ, ◌++◌, ◌+◌, ◌<◌,
  ◌==◌, ◌∙◌, ◌∷◌, ◌≡◌, ◌≢◌,
}
use frappe_ewm.Locks.{
  Holder, Lock, LockError, Locks, ManyResult, Object, Request, acquire, acquire_available,
  acquire_each, acquire_many, acquired, delete_key, holder, locked, refused, release, release_all,
  release_at, renew, renew_at, renew_key, require_free, same_object, set_key, ttl,
}
use frappe_ewm.Locks.Exclusion.{acquire-ok, held_calls}

-- The entry of an object's key, whether its time has passed or not.
abbrev pub lock_of : Object → Locks → Option Lock
lock_of o [] = none
lock_of o (l ∷ ls) = if same_object l.object o then some l else lock_of o ls

lock_of-holder :
    (now : ℕ) (o : Object) (ls : Locks) {l : Lock}
    → lock_of o ls ≡ some l
    → now < l.expires
    → holder now o ls ≡ some l.holder
unfolding holder
lock_of-holder now o [] {l} there alive = cc there
lock_of-holder now o (x ∷ xs) {l} there alive = elim (Bool-cases (same_object x.object o)) [
  | inl here ↦
      let same : x ≡ l = cc (rw here at there) in
      let living : ltb now x.expires ≡ true = ground arith in cc (here, living, same)
  | inr away ↦ rw away (lock_of-holder now o xs (rw away at there) alive)
]

lock_of-delete :
    (p o : Object) (ls : Locks)
    → same_object p o ≡ false
    → lock_of o (delete_key p ls) ≡ lock_of o ls
unfolding delete_key
lock_of-delete p o [] away = refl
lock_of-delete p o (x ∷ xs) away = ground (arith, lock_of-delete p o xs away)

lock_of-set :
    (r : Request) (p o : Object) (h : Holder) (ls : Locks)
    → same_object p o ≡ false
    → lock_of o (set_key r p h ls) ≡ lock_of o ls
unfolding set_key
lock_of-set r p o h ls away = rw away (lock_of-delete p o ls away)

same_object-eq : (p o : Object) → same_object p o ≡ true → p ≡ o
same_object-eq p o h = ground arith

-- Somebody else's request, made before the lock's time is over.
abbrev pub IsOther : Lock → Request → Type 0
IsOther l r = (l.holder.user ≢ r.user) × (r.now < l.expires)

abbrev pub locks_left : ManyResult → Locks
locks_left (acquired ls) = ls
locks_left (refused ls) = ls

module _ (o : Object) (l : Lock) where
  acquire-keeps :
      (r : Request) (p : Object) (purpose : Name) (ls : Locks) {out : Holder × Locks}
      → IsOther l r
      → lock_of o ls ≡ some l
      → acquire r p purpose ls ≡ ok out
      → lock_of o out.1 ≡ some l
  acquire-keeps r p purpose ls {out} (other, early) there goes =
      elim (Bool-cases (same_object p o)) [
        | inl same ↦
            let held =
              held_calls r o purpose ls l.holder (lock_of-holder r.now o ls there early) other in
            cc (same_object-eq p o same, held.0, goes)
        | inr away ↦
            let (_, left) = acquire-ok r p purpose ls goes in
            rw left (lock_of-set r p o out.0 ls away ∙ there)
      ]

  release-keeps :
      (r : Request) (p : Object) (ls : Locks)
      → IsOther l r
      → lock_of o ls ≡ some l
      → lock_of o (release r p false ls) ≡ some l
  release-keeps r p ls (other, early) there = elim (Bool-cases (same_object p o)) [
    | inl same ↦
        let held = held_calls r o 0 ls l.holder (lock_of-holder r.now o ls there early) other in
        rw (same_object-eq p o same) (rw held.2 there)
    | inr away ↦ elim (Option-cases (holder r.now p ls)) [
      | inl free ↦ unfold release release_at in rw free there
      | inr (h, held) ↦
          unfold release release_at in
          elim (Bool-cases (h.user == r.user)) [
            | inl own ↦ rw (held, own) (lock_of-delete p o ls away ∙ there)
            | inr foreign ↦ rw (held, foreign) there
          ]
    ]
  ]

  renew-keeps :
      (r : Request) (p : Object) (ls : Locks)
      → IsOther l r
      → lock_of o ls ≡ some l
      → lock_of o (renew r p ls).1 ≡ some l
  renew-keeps r p ls (other, early) there = elim (Bool-cases (same_object p o)) [
    | inl same ↦
        let held = held_calls r o 0 ls l.holder (lock_of-holder r.now o ls there early) other in
        rw (same_object-eq p o same) (rw held.3 there)
    | inr away ↦ elim (Option-cases (holder r.now p ls)) [
      | inl free ↦ unfold renew renew_at in rw free there
      | inr (h, held) ↦
          unfold renew renew_at renew_key in
          elim (Bool-cases (h.user == r.user)) [
            | inl own ↦ rw (held, own) (lock_of-set r p o h ls away ∙ there)
            | inr foreign ↦ rw (held, foreign) there
          ]
    ]
  ]

  release_all-keeps :
      (r : Request) (ps : List Object) (ls : Locks)
      → IsOther l r
      → lock_of o ls ≡ some l
      → lock_of o (release_all r ps ls) ≡ some l
  unfolding release_all
  release_all-keeps r [] ls other there = there
  release_all-keeps r (p ∷ ps) ls other there =
      release_all-keeps r ps (release r p false ls) other (release-keeps r p ls other there)

  acquire_each-keeps :
      (r : Request) (purpose : Name) (taken ps : List Object) (ls : Locks)
      → IsOther l r
      → lock_of o ls ≡ some l
      → lock_of o (locks_left (acquire_each r purpose taken ps ls)) ≡ some l
  unfolding acquire_each
  acquire_each-keeps r purpose taken [] ls other there = there
  acquire_each-keeps r purpose taken (p ∷ ps) ls other there =
      elim (Result-cases (acquire r p purpose ls)) [
        | inl (e, fails) ↦ subst kept (sym fails) (release_all-keeps r taken ls other there)
        | inr (out, goes) ↦ subst kept (sym goes) (
            acquire_each-keeps r purpose
              (if is_some (holder r.now p ls) then taken else taken ++ p ∷ []) ps out.1 other
              (acquire-keeps r p purpose ls {out = out} other there goes))
      ]
    where
      kept : Result LockError (Holder × Locks) → Type 0
      kept x =
          lock_of o (
            locks_left (elim x [
              | err e ↦ refused (release_all r taken ls)
              | ok (h, ls') ↦
                  acquire_each r purpose
                    (if is_some (holder r.now p ls) then taken else taken ++ p ∷ []) ps ls'
            ]))
          ≡ some l

  acquire_available-keeps :
      (r : Request) (purpose : Name) (ps : List Object) (ls : Locks)
      → IsOther l r
      → lock_of o ls ≡ some l
      → lock_of o (acquire_available r purpose ps ls).1 ≡ some l
  unfolding acquire_available
  acquire_available-keeps r purpose [] ls other there = there
  acquire_available-keeps r purpose (p ∷ ps) ls other there =
      elim (Result-cases (acquire r p purpose ls)) [
        | inl (e, fails) ↦ cc (fails, acquire_available-keeps r purpose ps ls other there)
        | inr (out, goes) ↦ cc (
          goes,
          acquire_available-keeps r purpose ps out.1 other
              (acquire-keeps r p purpose ls {out = out} other there goes),
        )
      ]

  -- One call by another user.
  pub data Step : Locks → Locks → Type 0 where
    acquires :
        (r : Request) (p : Object) (purpose : Name) {ls : Locks} {out : Holder × Locks}
        → IsOther l r
        → acquire r p purpose ls ≡ ok out
        → Step ls out.1
    acquires_many :
        (r : Request) (purpose : Name) (ps : List Object) {ls : Locks}
        → IsOther l r
        → Step ls (locks_left (acquire_many r purpose ps ls))
    acquires_available :
        (r : Request) (purpose : Name) (ps : List Object) {ls : Locks}
        → IsOther l r
        → Step ls (acquire_available r purpose ps ls).1
    releases :
        (r : Request) (p : Object) {ls : Locks} → IsOther l r → Step ls (release r p false ls)
    renews : (r : Request) (p : Object) {ls : Locks} → IsOther l r → Step ls (renew r p ls).1

  pub data Reaches : Locks → Locks → Type 0 where
    no_step : {ls : Locks} → Reaches ls ls
    later_step : {ls ls1 ls2 : Locks} → Reaches ls ls1 → Step ls1 ls2 → Reaches ls ls2

  Step-keeps : {ls ls' : Locks} → Step ls ls' → lock_of o ls ≡ some l → lock_of o ls' ≡ some l
  unfolding acquire_many
  Step-keeps (acquires r p purpose {ls} other goes) there =
      acquire-keeps r p purpose ls other there goes
  Step-keeps (acquires_many r purpose ps {ls} other) there =
      acquire_each-keeps r purpose [] ps ls other there
  Step-keeps (acquires_available r purpose ps {ls} other) there =
      acquire_available-keeps r purpose ps ls other there
  Step-keeps (releases r p {ls} other) there = release-keeps r p ls other there
  Step-keeps (renews r p {ls} other) there = renew-keeps r p ls other there

  Reaches-keeps : {ls ls' : Locks} → Reaches ls ls' → lock_of o ls ≡ some l → lock_of o ls' ≡ some l
  Reaches-keeps no_step there = there
  Reaches-keeps (later_step before last) there = Step-keeps last (Reaches-keeps before there)

-- The lock that an acquisition leaves.
abbrev pub taken_lock : Request → Object → Holder → Lock
taken_lock r o h = record { object = o; holder = h; expires = r.now + ttl }

lock_of-taken :
    (r : Request) (o : Object) (h : Holder) (ls : Locks)
    → lock_of o (set_key r o h ls) ≡ some (taken_lock r o h)
unfolding set_key
lock_of-taken r o h ls = ground arith

-- Whoever acquires a lock is still its holder, through any sequence of calls by other users before
-- the time to live is over that acquire one, several or the available ones of any objects, renew,
-- or release without force; until then every other user's acquisition and check of the object are
-- refused.
pub lock_excludes :
    (r : Request) (o : Object) (purpose : Name) (ls : Locks) {out : Holder × Locks} {later : Locks}
    → acquire r o purpose ls ≡ ok out
    → Reaches o (taken_lock r o out.0) out.1 later
    → (q : Request) → q.now < r.now + ttl
    → q.user ≢ r.user
    → (holder q.now o later ≡ some out.0)
      × (out.0.user ≡ r.user)
      × (acquire q o purpose later ≡ err locked)
      × (require_free q o later ≡ err locked)
lock_excludes r o purpose ls {out} {later} goes calls q early other =
    let (mine, left) = acquire-ok r o purpose ls goes in
    let there =
      Reaches-keeps o (taken_lock r o out.0) calls (rw left (lock_of-taken r o out.0 ls)) in
    let held = lock_of-holder q.now o later there early in
    let refusals = held_calls q o purpose later out.0 held (λ same. other (sym same ∙ mine)) in
    (held, mine, refusals.0, refusals.1)
