-- ===== src/Base/Lists.antt =====
-- Lists measured by native numbers, list comprehensions and stable sorting.
use Prim.Native.Nat.{ℕ, zero, suc, ◌+◌}
use mathlib.Core.Path.{◌≡◌, refl, sym, ap}
use mathlib.Core.Bool.{Bool, true, false, ◌&&◌, ◌||◌, false≢true}
use mathlib.Core.Logic.{◌⊎◌, ◌↔◌, inl, inr}
use mathlib.Core.Option.{Option, none, some}
use mathlib.Core.List.{List, [], ◌∷◌, ◌++◌, map}
use native.Mathlib.Omega.{arith}
use frappe_ewm.Base.Tests.{if◌then◌else◌, ◌==◌, Bool-cases}

module _ {ℓ} {A : Type ℓ} where
  abbrev pub length : List A → ℕ
  length [] = 0
  length (x ∷ xs) = suc (length xs)

  -- Python's `any(p(x) for x in xs)` and `all(p(x) for x in xs)`.
  abbrev pub any : (A → Bool) → List A → Bool
  any p [] = false
  any p (x ∷ xs) = p x || any p xs

  abbrev pub all : (A → Bool) → List A → Bool
  all p [] = true
  all p (x ∷ xs) = p x && all p xs

  -- `[x for x in xs if p(x)]`
  abbrev pub keep : (A → Bool) → List A → List A
  keep p [] = []
  keep p (x ∷ xs) = let rest = keep p xs in if p x then x ∷ rest else rest

  -- `next((x for x in xs if p(x)), None)`
  abbrev pub find : (A → Bool) → List A → Option A
  find p [] = none
  find p (x ∷ xs) = let rest = find p xs in if p x then some x else rest

  abbrev pub foldl : {B : Type 0} → (B → A → B) → B → List A → B
  foldl f b [] = b
  foldl f b (x ∷ xs) = foldl f (f b x) xs

  abbrev pub is_empty : List A → Bool
  is_empty [] = true
  is_empty (x ∷ xs) = false

  -- A predicate that holds of every item.
  abbrev pub All {κ} : (A → Type κ) → List A → Type κ
  All P [] = Unit
  All P (x ∷ xs) = P x × All P xs

  length-append : (xs ys : List A) → length (xs ++ ys) ≡ length xs + length ys
  length-append [] ys = omega arith
  length-append (x ∷ xs) ys = omega (arith, length-append xs ys)

abbrev pub contains : ℕ → List ℕ → Bool
contains a [] = false
contains a (x ∷ xs) = (a == x) || contains a xs

-- Some item of the list satisfies `P`.
abbrev pub Has {ℓ} : {A : Type ℓ} → (A → Type 0) → List A → Type 0
Has P [] = ⊥
Has P (x ∷ xs) = P x ⊎ Has P xs

pub Has-keep {ℓ} :
    {A : Type ℓ} (P : A → Type 0) (p : A → Bool) (xs : List A)
    → Has P (keep p xs)
    → Has (λ x. P x × (p x ≡ true)) xs
Has-keep P p [] h = h
Has-keep P p (x ∷ xs) h = elim (Bool-cases (p x)) [
  | inl yes_x ↦ elim (rw yes_x at h) [
    | inl here ↦ inl (here, yes_x)
    | inr there ↦ inr (Has-keep P p xs there)
  ]
  | inr no_x ↦ inr (Has-keep P p xs (rw no_x at h))
]

pub Has-map {ℓ} :
    {A : Type ℓ} (P Q : A → Type 0) (xs : List A) → ((x : A) → P x → Q x) → Has P xs → Has Q xs
Has-map P Q [] f h = h
Has-map P Q (x ∷ xs) f (inl here) = inl (f x here)
Has-map P Q (x ∷ xs) f (inr there) = inr (Has-map P Q xs f there)

-- `xs[-1]`, if there is one.
abbrev pub last? {ℓ} : {A : Type ℓ} → List A → Option A
last? [] = none
last? (x ∷ xs) = elim (last? xs) [ none ↦ some x | some y ↦ some y ]

pub any-Has {ℓ} :
    {A : Type ℓ} (p : A → Bool) (xs : List A) → any p xs ≡ true → Has (λ x. p x ≡ true) xs
any-Has p [] h = absurd (false≢true h)
any-Has p (x ∷ xs) h = elim (Bool-cases (p x)) [
  | inl here ↦ inl here
  | inr not_here ↦ inr (any-Has p xs (rw not_here at h))
]

pub Has-any {ℓ} :
    {A : Type ℓ} (p : A → Bool) (xs : List A) → Has (λ x. p x ≡ true) xs → any p xs ≡ true
Has-any p [] h = absurd h
Has-any p (x ∷ xs) (inl here) = rw here
Has-any p (x ∷ xs) (inr there) = ground (arith, Has-any p xs there)

pub All-keep {ℓ κ} :
    {A : Type ℓ} (P : A → Type κ) (p : A → Bool) (xs : List A) → All P xs → All P (keep p xs)
All-keep P p [] h = h
All-keep P p (x ∷ xs) h = elim (Bool-cases (p x)) [
  | inl yes_x ↦ rw yes_x (h.0, All-keep P p xs h.1)
  | inr no_x ↦ rw no_x (All-keep P p xs h.1)
]

-- The items that `keep` keeps pass the test.
pub keep-All {ℓ} : {A : Type ℓ} (p : A → Bool) (xs : List A) → All (λ x. p x ≡ true) (keep p xs)
keep-All p [] = tt
keep-All p (x ∷ xs) = elim (Bool-cases (p x)) [
  | inl yes_x ↦ rw yes_x (yes_x, keep-All p xs)
  | inr no_x ↦ rw no_x (keep-All p xs)
]

-- `find` returns the first item that passes.
pub find-first {ℓ} :
    {A : Type ℓ} (p : A → Bool) (xs : List A) {x : A}
    → find p xs ≡ some x
    → (before : List A) × (after : List A) × (xs ≡ before ++ x ∷ after)
      × (p x ≡ true)
      × All (λ y. p y ≡ false) before
find-first p [] h = cc
find-first p (y ∷ xs) {x} h = elim (Bool-cases (p y)) [
  | inl here ↦ ([], xs, ground arith, ground arith, tt)
  | inr not_here ↦
      let (before, after, split, passes, none_before) = find-first p xs (rw not_here at h) in
      (y ∷ before, after, ap (λ l. y ∷ l) split, passes, (not_here, none_before))
]

pub all-All {ℓ} :
    {A : Type ℓ} (p : A → Bool) (xs : List A) → (all p xs ≡ true) ↔ All (λ x. p x ≡ true) xs
all-All p [] = (λ h. tt, λ h. refl)
all-All p (x ∷ xs) =
    (λ h. (ground arith, (all-All p xs).0 (ground arith)), λ h. rw h.0 ((all-All p xs).1 h.1))

pub all-false {ℓ} :
    {A : Type ℓ} (p : A → Bool) (xs : List A) → (all p xs ≡ false) ↔ Has (λ x. p x ≡ false) xs
all-false p [] = (λ h. absurd (false≢true (sym h)), λ h. absurd h)
all-false p (x ∷ xs) = elim (Bool-cases (p x)) [
  | inl holds ↦ (
    λ h. inr ((all-false p xs).0 (rw holds at h)),
    elim [ inl fails ↦ cc (holds, fails) | inr later ↦ rw holds ((all-false p xs).1 later) ],
  )
  | inr fails ↦ (λ h. inl fails, λ h. rw fails)
]

pub any-false {ℓ} :
    {A : Type ℓ} (p : A → Bool) (xs : List A) → (any p xs ≡ false) ↔ All (λ x. p x ≡ false) xs
any-false p [] = (λ h. tt, λ h. refl)
any-false p (x ∷ xs) =
    (λ h. (ground arith, (any-false p xs).0 (ground arith)), λ h. rw h.0 ((any-false p xs).1 h.1))

pub All-map {ℓ} :
    {A : Type ℓ} (P Q : A → Type 0) (xs : List A) → ((x : A) → P x → Q x) → All P xs → All Q xs
All-map P Q [] f h = tt
All-map P Q (x ∷ xs) f h = (f x h.0, All-map P Q xs f h.1)

pub All-map2 {ℓ} :
    {A : Type ℓ} (P Q R : A → Type 0) (xs : List A)
    → ((x : A) → P x → Q x → R x)
    → All P xs
    → All Q xs
    → All R xs
All-map2 P Q R [] f p q = tt
All-map2 P Q R (x ∷ xs) f p q = (f x p.0 q.0, All-map2 P Q R xs f p.1 q.1)

-- What `map` makes of the items.
pub map-All {ℓ} :
    {A : Type ℓ} (P : A → Type 0) (f : A → A) (xs : List A)
    → All (λ x. P (f x)) xs
    → All P (map f xs)
map-All P f [] h = tt
map-All P f (x ∷ xs) h = (h.0, map-All P f xs h.1)

-- `xs[:n]`
abbrev pub take {ℓ} : {A : Type ℓ} → ℕ → List A → List A
take zero xs = []
take (suc n) [] = []
take (suc n) (x ∷ xs) = x ∷ take n xs
