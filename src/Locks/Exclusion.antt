-- ===== src/Locks/Exclusion.antt =====
-- Mutual exclusion by the locks of frappe_wms/services/locks.py.
use frappe_ewm.Base.{
  Name, Option-cases, [], arith, err, false, if◌then◌else◌, inl, inr, none, ok, refl, some, true, ℕ,
  ◌+◌, ◌<◌, ◌↔◌, ◌∷◌, ◌≡◌, ◌≢◌, ◌≤◌,
}
use frappe_ewm.Locks.{
  Holder, Locks, Object, Request, acquire, acquire_at, delete_key, holder, locked, release,
  release_at, renew, renew_at, renew_key, require_free, require_free_at, same_object, set_key, ttl,
}

same_object_refl : (o : Object) → same_object o o ≡ true
same_object_refl o = ground arith

holder-delete :
    (now : ℕ) (o p : Object) (ls : Locks)
    → holder now p (delete_key o ls) ≡ (if same_object o p then none else holder now p ls)
unfolding holder delete_key
holder-delete now o p [] = ground arith
holder-delete now o p (l ∷ ls) = ground (arith, holder-delete now o p ls)

-- A key that is set is read until its time to live is over, and no other key is read differently.
holder-set :
    (now : ℕ) (r : Request) (o p : Object) (h : Holder) (ls : Locks)
    → now < r.now + ttl
    → holder now p (set_key r o h ls) ≡ (if same_object o p then some h else holder now p ls)
unfolding holder set_key
holder-set now r o p h ls alive = ground (arith, holder-delete now o p ls)

-- What an acquisition that goes through has found and leaves.
pub acquire-ok :
    (r : Request) (o : Object) (purpose : Name) (ls : Locks) {out : Holder × Locks}
    → acquire r o purpose ls ≡ ok out
    → (out.0.user ≡ r.user) × (out.1 ≡ set_key r o out.0 ls)
unfolding acquire acquire_at renew_key
acquire-ok r o purpose ls h = ground arith

-- Whoever acquires a lock holds it, under their own name, for the whole time to live, and every
-- other object keeps its holder.
acquire_holds :
    (r : Request) (o p : Object) (purpose : Name) (ls : Locks) {out : Holder × Locks} (now : ℕ)
    → now < r.now + ttl
    → acquire r o purpose ls ≡ ok out
    → (out.0.user ≡ r.user)
      × (holder now p out.1 ≡ (if same_object o p then some out.0 else holder now p ls))
acquire_holds r o p purpose ls {out} now alive h =
    let (mine, left) = acquire-ok r o purpose ls h in
    (mine, rw left (holder-set now r o p out.0 ls alive))

-- What another user gets of an object that is held.
pub held_calls :
    (r : Request) (o : Object) (purpose : Name) (ls : Locks) (h : Holder)
    → holder r.now o ls ≡ some h
    → h.user ≢ r.user
    → (acquire r o purpose ls ≡ err locked)
      × (require_free r o ls ≡ err locked)
      × (release r o false ls ≡ ls)
      × (renew r o ls ≡ (false, ls))
unfolding acquire acquire_at require_free require_free_at release release_at renew renew_at
held_calls r o purpose ls h held other = ground arith

-- An acquisition is refused exactly when somebody else holds the object.
acquire_refused :
    (r : Request) (o : Object) (purpose : Name) (ls : Locks)
    → (acquire r o purpose ls ≡ err locked)
      ↔ ((h : Holder) × (holder r.now o ls ≡ some h) × (h.user ≢ r.user))
unfolding acquire acquire_at
acquire_refused r o purpose ls = elim (Option-cases (holder r.now o ls)) [
  | inl free ↦ rw free (λ e. cc, λ k. cc (k.1))
  | inr (h, held) ↦ rw held (λ e. (h, refl, λ same. ground arith), λ k. ground arith)
]

acquired_by : Request → Object → Name → Locks → Holder × Locks
acquired_by q o purpose ls = (
  record { user = q.user; since = q.now; purpose = purpose },
  set_key q o (record { user = q.user; since = q.now; purpose = purpose }) ls,
)

-- The time to live of a lock that was set at `r.now`.
holder-late :
    (now : ℕ) (r : Request) (o : Object) (h : Holder) (ls : Locks)
    → r.now + ttl ≤ now
    → holder now o (set_key r o h ls) ≡ none
unfolding holder set_key
holder-late now r o h ls late = ground (arith, holder-delete now o o ls, same_object_refl o)

-- A lock that its holder does not renew is free once its time to live has passed: anybody acquires
-- it.
pub lock_expires :
    (r q : Request) (o : Object) (h : Holder) (purpose : Name) (ls : Locks)
    → r.now + ttl ≤ q.now
    → (require_free q o (set_key r o h ls) ≡ ok tt)
      × (out : Holder × Locks) × (acquire q o purpose (set_key r o h ls) ≡ ok out)
      × (out.0.user ≡ q.user)
unfolding acquire acquire_at require_free require_free_at acquired_by
lock_expires r q o h purpose ls late =
    let free = holder-late q.now r o h ls late in
    (rw free, acquired_by q o purpose (set_key r o h ls), rw free, refl)
