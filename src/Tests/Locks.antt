-- ===== src/Tests/Locks.antt =====
-- The locks of frappe_wms/services/locks.py, at concrete inputs.
use frappe_ewm.Base.{[], arith, err, false, ok, refl, some, ◌≡◌}
use frappe_ewm.Locks.{
  Holder, Locks, Object, Request, acquire, acquire_at, delete_key, holder, locked, release,
  release_at, require_free, set_key,
}
use frappe_ewm.Locks.Exclusion.{lock_expires}
use frappe_ewm.Locks.Held.{
  IsOther, Reaches, acquires, later_step, lock_excludes, no_step, releases, taken_lock,
}

abbrev bin : Object
bin = record { doctype = 1; name = 5 }

abbrev pallet : Object
pallet = record { doctype = 2; name = 6 }

abbrev mine : Request
mine = record { user = 8; now = 100 }

abbrev theirs : Request
theirs = record { user = 9; now = 150 }

abbrev my_hold : Holder
my_hold = record { user = 8; since = 100; purpose = 3 }

abbrev their_hold : Holder
their_hold = record { user = 9; since = 150; purpose = 3 }

abbrev held : Locks
unfolding set_key delete_key
held = set_key mine bin my_hold []

-- Somebody else takes the pallet, and tries to give the bin back.
abbrev meanwhile : Locks
unfolding set_key delete_key
meanwhile = set_key theirs pallet their_hold held

their_acquisition : acquire theirs pallet 3 held ≡ ok (their_hold, meanwhile)
unfolding acquire acquire_at holder held set_key delete_key meanwhile
their_acquisition = refl

their_release : release theirs bin false meanwhile ≡ meanwhile
unfolding release release_at holder held set_key delete_key meanwhile
their_release = refl

by_theirs : IsOther (taken_lock mine bin my_hold) theirs
by_theirs = (omega arith, omega arith)

their_calls : Reaches bin (taken_lock mine bin my_hold) held (release theirs bin false meanwhile)
their_calls =
    later_step
      (later_step no_step
        (acquires theirs pallet 3 {out = (their_hold, meanwhile)} by_theirs their_acquisition))
      (releases theirs bin by_theirs)

lock_excludes_example :
    (holder 200 bin (release theirs bin false meanwhile) ≡ some my_hold)
    × (my_hold.user ≡ mine.user)
    × (acquire (record theirs { now = 200 }) bin 3 (release theirs bin false meanwhile)
        ≡ err locked)
    × (require_free (record theirs { now = 200 }) bin (release theirs bin false meanwhile)
        ≡ err locked)
unfolding acquire acquire_at holder held set_key delete_key
lock_excludes_example =
    lock_excludes mine bin 3 [] {out = (my_hold, held)} refl their_calls
      (record theirs { now = 200 }) (omega arith) (omega arith)

lock_expires_example :
    (require_free (record theirs { now = 400 }) bin (set_key mine bin my_hold []) ≡ ok tt)
    × (out : Holder × Locks) × (acquire
          (record theirs { now = 400 })
          bin
          3
          (set_key mine bin my_hold [])
        ≡ ok out)
    × (out.0.user ≡ theirs.user)
lock_expires_example =
    lock_expires mine (record theirs { now = 400 }) bin my_hold 3 [] (omega arith)
