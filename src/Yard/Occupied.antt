-- ===== src/Yard/Occupied.antt =====
-- That two trucks never stand at one door, in frappe_wms/services/yard.py.
use frappe_ewm.Base.{
  All, All-map2, Bool, Bool-cases, List, [], all, arith, false, inl, inr, refl, true, ℕ, ◌&&◌, ◌++◌,
  ◌==◌, ◌∷◌, ◌≡◌, ◌⊎◌,
}
use frappe_ewm.Yard.Booking.{save_appointment}
use frappe_ewm.Yard.Doors.{has_occupant, is_at_door, is_occupant}
use frappe_ewm.Yard.Types.{Appointment}

abbrev pub at_same_door : Appointment → Appointment → Bool
at_same_door a b = is_at_door a.status && is_at_door b.status && (a.door == b.door)

-- Two appointments with names of their own, that are not at one door at once.
abbrev pub Apart : Appointment → Appointment → Type 0
Apart a b = (a.name == b.name ≡ false) × (at_same_door a b ≡ false)

abbrev pub IsYard : List Appointment → Type 0
IsYard [] = Unit
IsYard (a ∷ rest) = All (Apart a) rest × IsYard rest

pub Apart-sym : (a b : Appointment) → Apart a b → Apart b a
Apart-sym a b (names, doors) = (ground arith, ground arith)

-- An appointment may take the place of the one with its name.
abbrev pub MayReplace : Appointment → Appointment → Type 0
MayReplace d b = (b.name == d.name ≡ true) ⊎ Apart d b

save-All :
    (P : Appointment → Type 0) (d : Appointment) (apps : List Appointment)
    → P d
    → All P apps
    → All P (save_appointment d apps)
unfolding save_appointment
save-All P d [] p all = tt
save-All P d (a ∷ rest) p all = elim (Bool-cases (a.name == d.name)) [
  | inl here ↦ rw here (p, all.1)
  | inr other ↦ rw other (all.0, save-All P d rest p all.1)
]

replaced :
    (d a : Appointment) (rest : List Appointment)
    → a.name == d.name ≡ true
    → All (Apart a) rest
    → All (MayReplace d) rest
    → All (Apart d) rest
replaced d a rest here apart may =
    All-map2 (Apart a) (MayReplace d) (Apart d) rest
      (λ b names other. elim other [
        | inl same ↦ cc (clash a b d here same, names.0)
        | inr fine ↦ fine
      ])
      apart may
  where
    clash :
        (a b d : Appointment)
        → a.name == d.name ≡ true
        → b.name == d.name ≡ true
        → a.name == b.name ≡ true
    clash a b d p q = ground arith

pub save-IsYard :
    (d : Appointment) (apps : List Appointment)
    → IsYard apps
    → All (MayReplace d) apps
    → IsYard (save_appointment d apps)
unfolding save_appointment
save-IsYard d [] yard may = tt
save-IsYard d (a ∷ rest) yard may = elim (Bool-cases (a.name == d.name)) [
  | inl here ↦ rw here (replaced d a rest here yard.0 may.1, yard.1)
  | inr other ↦ elim may.0 [
    | inl same ↦ cc (other, same)
    | inr apart ↦
        rw other
          (save-All (Apart a) d rest (Apart-sym d a apart) yard.0, save-IsYard d rest yard.1 may.1)
  ]
]

-- A truck that is not at a door is in nobody's way.
pub away-MayReplace :
    (d : Appointment) (apps : List Appointment)
    → is_at_door d.status ≡ false
    → All (MayReplace d) apps
away-MayReplace d [] away = tt
away-MayReplace d (a ∷ rest) away = (
  elim (Bool-cases (a.name == d.name)) [
    | inl same ↦ inl same
    | inr other ↦ inr (flip a.name d.name other, rw away refl)
  ],
  away-MayReplace d rest away,
)
  where
    flip : (m n : ℕ) → m == n ≡ false → n == m ≡ false
    flip m n h = ground arith

-- A truck may take a door where no other stands.
pub free-MayReplace :
    (d : Appointment) (apps : List Appointment)
    → has_occupant d.door d.name apps ≡ false
    → All (MayReplace d) apps
unfolding has_occupant is_occupant
free-MayReplace d [] free = tt
free-MayReplace d (a ∷ rest) free = (
  elim (Bool-cases (a.name == d.name)) [
    | inl same ↦ inl same
    | inr other ↦
        inr (flip a.name d.name other, empty_door (is_at_door d.status) other (ground arith))
  ],
  free-MayReplace d rest (ground arith),
)
  where
    flip : (m n : ℕ) → m == n ≡ false → n == m ≡ false
    flip m n h = ground arith

    empty_door :
        (s : Bool)
        → a.name == d.name ≡ false
        → is_occupant d.door d.name a ≡ false
        → s && is_at_door a.status && (d.door == a.door) ≡ false
    empty_door false other none_there = refl
    empty_door true other none_there = ground arith

pub append-IsYard :
    (apps : List Appointment) (d : Appointment)
    → IsYard apps
    → All (λ a. a.name == d.name ≡ false) apps
    → is_at_door d.status ≡ false
    → IsYard (apps ++ d ∷ [])
append-IsYard [] d yard fresh away = (tt, tt)
append-IsYard (a ∷ rest) d yard fresh away =
    (add rest yard.0, append-IsYard rest d yard.1 fresh.1 away)
  where
    apart : Apart a d
    apart = (fresh.0, ground arith)

    add : (xs : List Appointment) → All (Apart a) xs → All (Apart a) (xs ++ d ∷ [])
    add [] h = (apart, tt)
    add (x ∷ xs) h = (h.0, add xs h.1)
