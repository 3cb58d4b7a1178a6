-- ===== src/Base/Sorting.antt =====
-- Python's stable `sorted`, as insertion by the one test that it makes, `<`.
use mathlib.Core.Path.{◌≡◌}
use mathlib.Core.Bool.{Bool, true, false, not, ◌&&◌, ◌||◌}
use mathlib.Core.Logic.{inl, inr}
use mathlib.Core.List.{List, [], ◌∷◌, Perm}
use mathlib.Core.List.Perm
use native.Mathlib.Omega.{arith}
use frappe_ewm.Base.Lists.{All}
use frappe_ewm.Base.Tests.{if◌then◌else◌, Bool-cases}

module _ {A : Type 0} (less : A → A → Bool) where
  -- An item goes before the items that are equal to it: those came later.
  abbrev pub insert_sorted : A → List A → List A
  insert_sorted x [] = x ∷ []
  insert_sorted x (y ∷ ys) =
      let rest = insert_sorted x ys in if less y x then y ∷ rest else x ∷ y ∷ ys

  unfoldable pub sorted : List A → List A
  sorted [] = []
  sorted (x ∷ xs) = insert_sorted x (sorted xs)

  insert_sorted-perm : (x : A) (ys : List A) → Perm (insert_sorted x ys) (x ∷ ys)
  insert_sorted-perm x [] = Perm.refl _
  insert_sorted-perm x (y ∷ ys) = elim (Bool-cases (less y x)) [
    | inl before ↦ rw before (Perm.trans (Perm.cons y (insert_sorted-perm x ys)) (Perm.swap x y ys))
    | inr after ↦ rw after (Perm.refl _)
  ]

  pub sorted-perm : (xs : List A) → Perm (sorted xs) xs
  unfolding sorted
  sorted-perm [] = Perm.refl _
  sorted-perm (x ∷ xs) =
      Perm.trans (insert_sorted-perm x (sorted xs)) (Perm.cons x (sorted-perm xs))

  -- Every item stands before the items that are not less than it.
  abbrev pub IsSorted : List A → Type 0
  IsSorted [] = Unit
  IsSorted (x ∷ xs) = All (λ y. less y x ≡ false) xs × IsSorted xs

  All-insert_sorted :
      (P : A → Type 0) (x : A) (ys : List A) → P x → All P ys → All P (insert_sorted x ys)
  All-insert_sorted P x [] p h = (p, tt)
  All-insert_sorted P x (y ∷ ys) p h = elim (Bool-cases (less y x)) [
    | inl before ↦ rw before (h.0, All-insert_sorted P x ys p h.1)
    | inr after ↦ rw after (p, h)
  ]

  pub All-sorted : (P : A → Type 0) (xs : List A) → All P xs → All P (sorted xs)
  unfolding sorted
  All-sorted P [] h = h
  All-sorted P (x ∷ xs) h = All-insert_sorted P x (sorted xs) h.0 (All-sorted P xs h.1)

module _ {A : Type 0} (less : A → A → Bool) (asym : (a b : A) → less a b ≡ true → less b a ≡ false)
    (cotrans : (a b c : A) → less a b ≡ false → less b c ≡ false → less a c ≡ false) where
  All-not_less :
      (x y : A) (ys : List A)
      → less y x ≡ false
      → All (λ z. less z y ≡ false) ys
      → All (λ z. less z x ≡ false) ys
  All-not_less x y [] h hs = hs
  All-not_less x y (z ∷ ys) h hs = (cotrans z y x hs.0 h, All-not_less x y ys h hs.1)

  insert_sorted-IsSorted :
      (x : A) (ys : List A) → IsSorted less ys → IsSorted less (insert_sorted less x ys)
  insert_sorted-IsSorted x [] h = (tt, tt)
  insert_sorted-IsSorted x (y ∷ ys) h = elim (Bool-cases (less y x)) [
    | inl before ↦ rw before (
      All-insert_sorted less (λ z. less z y ≡ false) x ys (asym y x before) h.0,
      insert_sorted-IsSorted x ys h.1,
    )
    | inr after ↦ rw after ((after, All-not_less x y ys after h.0), h)
  ]

  -- With `<` asymmetric and its negation transitive the result is sorted.
  pub sorted-IsSorted : (xs : List A) → IsSorted less (sorted less xs)
  unfolding sorted
  sorted-IsSorted [] = tt
  sorted-IsSorted (x ∷ xs) = insert_sorted-IsSorted x (sorted less xs) (sorted-IsSorted xs)

-- The order of two keys, the first one deciding.
abbrev pub lex : {A : Type 0} → (A → A → Bool) → (A → A → Bool) → A → A → Bool
lex less less2 a b = less a b || (not (less b a) && less2 a b)

-- Sorting by a key a list that is sorted by another.
module _ {A : Type 0} (less less2 : A → A → Bool)
    (asym : (a b : A) → less a b ≡ true → less b a ≡ false)
    (cotrans : (a b c : A) → less a b ≡ false → less b c ≡ false → less a c ≡ false) where
  All-lex :
      (x y : A) (ys : List A)
      → less y x ≡ false
      → All (λ z. less2 z x ≡ false) ys
      → All (λ z. lex less less2 z y ≡ false) ys
      → All (λ z. lex less less2 z x ≡ false) ys
  All-lex x y [] h second hs = hs
  All-lex x y (z ∷ ys) h second hs = (ground (arith, cotrans z y x), All-lex x y ys h second.1 hs.1)

  insert_sorted-lex :
      (x : A) (ys : List A)
      → All (λ z. less2 z x ≡ false) ys
      → IsSorted (lex less less2) ys
      → IsSorted (lex less less2) (insert_sorted less x ys)
  insert_sorted-lex x [] second h = (tt, tt)
  insert_sorted-lex x (y ∷ ys) second h = elim (Bool-cases (less y x)) [
    | inl before ↦ rw before (
      All-insert_sorted less (λ z. lex less less2 z y ≡ false) x ys (ground (arith, asym y x)) h.0,
      insert_sorted-lex x ys second.1 h.1,
    )
    | inr after ↦ rw after ((ground arith, All-lex x y ys after second.1 h.0), h)
  ]

  -- A stable sort by the first key of a list that is sorted by the second.
  pub sorted-lex : (xs : List A) → IsSorted less2 xs → IsSorted (lex less less2) (sorted less xs)
  unfolding sorted
  sorted-lex [] h = tt
  sorted-lex (x ∷ xs) h =
      insert_sorted-lex x (sorted less xs) (All-sorted less (λ z. less2 z x ≡ false) xs h.0)
        (sorted-lex xs h.1)
