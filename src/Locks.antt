-- ===== src/Locks.antt =====
-- frappe_wms/services/locks.py: dialog locks. The redis keys are a table from objects to a holder and
-- an expiry time; a key whose time has passed is gone.
pub mod Exclusion
pub mod Held
use frappe_ewm.Base.{
  Bool, List, Name, Option, Result, [], err, false, if◌then◌else◌, is_some, ltb, none, ok, some,
  true, ℕ, ◌&&◌, ◌++◌, ◌+◌, ◌==◌, ◌>>=◌, ◌||◌, ◌∷◌,
}

-- The pair (doctype, name) that a key is made of.
pub record Object : Type 0 where
  pub doctype : Name
  pub name : Name

abbrev pub same_object : Object → Object → Bool
same_object a b = (a.doctype == b.doctype) && (a.name == b.name)

-- The JSON value of a key.
pub record Holder : Type 0 where
  pub user : Name
  pub since : ℕ
  pub purpose : Name

pub record Lock : Type 0 where
  pub object : Object
  pub holder : Holder
  pub expires : ℕ

abbrev pub Locks : Type 0
Locks = List Lock

abbrev pub ttl : ℕ
ttl = 300

pub data LockError : Type 0 where
  locked : LockError

-- What a request knows: who asks, and when.
pub record Request : Type 0 where
  pub user : Name
  pub now : ℕ

-- A redis key with a time to live: it reads as absent once the time has come.
abbrev live : ℕ → Lock → Bool
live now l = ltb now l.expires

-- `holder`
unfoldable pub holder : ℕ → Object → Locks → Option Holder
holder now o [] = none
holder now o (l ∷ ls) =
    if same_object l.object o && live now l then some l.holder else holder now o ls

unfoldable pub delete_key : Object → Locks → Locks
delete_key o [] = []
delete_key o (l ∷ ls) =
    let rest = delete_key o ls in if same_object l.object o then rest else l ∷ rest

unfoldable pub set_key : Request → Object → Holder → Locks → Locks
set_key r o h ls = record { object = o; holder = h; expires = r.now + ttl } ∷ delete_key o ls

-- `frappe.cache.expire`
unfoldable pub renew_key : Request → Object → Holder → Locks → Locks
renew_key r o h ls = set_key r o h ls

-- `status`: the holder, and whether it is the user who asks.
unfoldable pub status : Request → Object → Locks → Option (Holder × Bool)
status r o ls = elim (holder r.now o ls) [ none ↦ none | some h ↦ some (h, h.user == r.user) ]

-- `acquire`, by what the object's key holds: `set(nx=True)` succeeds on a free one.
unfoldable pub acquire_at :
    Request → Object → Name → Locks → Option Holder → Result LockError (Holder × Locks)
acquire_at r o purpose ls none =
    let mine : Holder = record { user = r.user; since = r.now; purpose = purpose } in
    ok (mine, set_key r o mine ls)
acquire_at r o purpose ls (some h) =
    if h.user == r.user then ok (h, renew_key r o h ls) else err locked

unfoldable pub acquire : Request → Object → Name → Locks → Result LockError (Holder × Locks)
acquire r o purpose ls = acquire_at r o purpose ls (holder r.now o ls)

-- `release`
unfoldable pub release_at : Request → Object → Bool → Locks → Option Holder → Locks
release_at r o force ls none = ls
release_at r o force ls (some h) = if force || (h.user == r.user) then delete_key o ls else ls

unfoldable pub release : Request → Object → Bool → Locks → Locks
release r o force ls = release_at r o force ls (holder r.now o ls)

-- `for o in taken: release(*o)`
unfoldable pub release_all : Request → List Object → Locks → Locks
release_all r [] ls = ls
release_all r (o ∷ os) ls = release_all r os (release r o false ls)

-- The result of `acquire_many`: an error leaves the keys in redis as they are then, for they are not
-- part of the database transaction.
pub data ManyResult : Type 0 where
  acquired refused : Locks → ManyResult

-- `acquire_many`; `taken` are the objects that were free and were taken so far.
unfoldable pub acquire_each : Request → Name → List Object → List Object → Locks → ManyResult
acquire_each r purpose taken [] ls = acquired ls
acquire_each r purpose taken (o ∷ os) ls = elim (acquire r o purpose ls) [
  | err e ↦ refused (release_all r taken ls)
  | ok (h, ls') ↦
      acquire_each r purpose (if is_some (holder r.now o ls) then taken else taken ++ o ∷ []) os ls'
]

unfoldable pub acquire_many : Request → Name → List Object → Locks → ManyResult
acquire_many r purpose os ls = acquire_each r purpose [] os ls

-- `acquire_available`: the objects that others hold, with their holders.
unfoldable pub acquire_available : Request → Name → List Object → Locks → List (Name × Name) × Locks
acquire_available r purpose [] ls = ([], ls)
acquire_available r purpose (o ∷ os) ls = elim (acquire r o purpose ls) [
  | ok (h, ls') ↦ acquire_available r purpose os ls'
  | err e ↦
      (let (held_by, ls') = acquire_available r purpose os ls in
        ((o.name, holder_user (holder r.now o ls)) ∷ held_by, ls'))
]
  where
    holder_user : Option Holder → Name
    holder_user none = 0
    holder_user (some h) = h.user

-- `renew`
unfoldable pub renew_at : Request → Object → Locks → Option Holder → Bool × Locks
renew_at r o ls none = (false, ls)
renew_at r o ls (some h) = if h.user == r.user then (true, renew_key r o h ls) else (false, ls)

unfoldable pub renew : Request → Object → Locks → Bool × Locks
renew r o ls = renew_at r o ls (holder r.now o ls)

-- `require_free`
unfoldable pub require_free_at : Request → Option Holder → Result LockError (Unit {0})
require_free_at r none = ok tt
require_free_at r (some h) = if h.user == r.user then ok tt else err locked

unfoldable pub require_free : Request → Object → Locks → Result LockError (Unit {0})
require_free r o ls = require_free_at r (holder r.now o ls)

unfoldable pub require_free_many : Request → List Object → Locks → Result LockError (Unit {0})
require_free_many r [] ls = ok tt
require_free_many r (o ∷ os) ls = require_free r o ls >>= λ _. require_free_many r os ls
