-- ===== src/Wave/Parts.antt =====
-- That no delivery is lost or doubled, in frappe_wms/services/wave.py.
use frappe_ewm.Base.{
  Bool, Bool-cases, List, Name, [], all, ap, arith, contains, false, inl, inr, is_empty, keep, not,
  ok, refl, subst, throw_if-eq-ok, true, ℕ, ◌&&◌, ◌++◌, ◌==◌, ◌||◌, ◌∙◌, ◌∷◌, ◌≡◌,
}
use frappe_ewm.Wave.Plan.{is_choice, is_draft, is_inside, is_locked, split_off, split_wave}
use frappe_ewm.Wave.Types.{Session, Wave, not_draft, not_permitted, wave_locked, wrong_choice}

abbrev pub concat : List (List Name) → List Name
concat [] = []
concat (x ∷ xs) = x ++ concat xs

contains-keep_test :
    (p : Name → Bool) (d : Name) (xs : List Name) → contains d (keep p xs) ≡ contains d xs && p d
contains-keep_test p d [] = refl
contains-keep_test p d (x ∷ xs) = elim (Bool-cases (d == x)) [
  | inl here ↦
      let same : d ≡ x = ground arith in
      elim (Bool-cases (p x)) [
        | inl kept ↦ rw (kept, same, kept) (ground arith)
        | inr dropped ↦
            let pd : p d ≡ false = ap p same ∙ dropped in
            rw dropped (contains-keep_test p d xs ∙ rw (pd, here) (and_false (contains d xs)))
      ]
  | inr other ↦ elim (Bool-cases (p x)) [
    | inl kept ↦ rw (kept, other) (contains-keep_test p d xs)
    | inr dropped ↦ rw (dropped, other) (contains-keep_test p d xs)
  ]
]
  where
    and_false : (b : Bool) → b && false ≡ false
    and_false true = refl
    and_false false = refl

inside-contains :
    (d : Name) (move have : List Name)
    → all (λ n. contains n have) move ≡ true
    → contains d move ≡ true
    → contains d have ≡ true
inside-contains d [] have inside there = cc there
inside-contains d (m ∷ ms) have inside there = elim (Bool-cases (d == m)) [
  | inl here ↦
      let same : d ≡ m = ground arith in
      let first : contains m have ≡ true = ground arith in ap (λ n. contains n have) same ∙ first
  | inr other ↦ inside-contains d ms have (ground arith) (rw other at there)
]

some_left :
    (move have : List Name)
    → all (λ n. contains n move) have ≡ false
    → is_empty (keep (λ n. not (contains n move)) have) ≡ false
some_left move [] not_all = cc not_all
some_left move (h ∷ hs) not_all = elim (Bool-cases (contains h move)) [
  | inl moved ↦ rw moved (some_left move hs (rw moved at not_all))
  | inr stays ↦ rw stays refl
]

-- A split of a wave that goes through leaves two waves with deliveries, and every delivery of the
-- old wave, and no other, is in exactly one of them.
pub split_wave-parts :
    (s : Session) (w : Wave) (move : List Name) (number : ℕ) {out : Wave × Wave}
    → split_wave s w move number ≡ ok out
    → ((d : Name)
        → (contains d w.deliveries ≡ contains d out.0.deliveries || contains d out.1.deliveries)
          × (contains d out.0.deliveries && contains d out.1.deliveries ≡ false))
      × (is_empty out.0.deliveries ≡ false)
      × (is_empty out.1.deliveries ≡ false)
unfolding split_wave split_off is_choice is_inside
split_wave-parts s w move number {out} goes =
    let (_, g1) = throw_if-eq-ok (not s.has_role) not_permitted _ {b = out} goes in
    let (_, g2) = throw_if-eq-ok (not (is_draft w.status)) not_draft _ {b = out} g1 in
    let (_, g3) = throw_if-eq-ok (is_locked s w) wave_locked _ {b = out} g2 in
    let left = keep (λ n. not (contains n move)) w.deliveries in
    let parts : Wave × Wave = (split_off s w move number, record w { deliveries = left }) in
    let (choice, g4) =
      throw_if-eq-ok (not (is_choice move w.deliveries)) wrong_choice (ok parts) {b = out} g3 in
    let same : parts ≡ out = cc g4 in
    let (some_moved, inside, not_all) =
      three (is_empty move) (all (λ n. contains n w.deliveries) move)
        (all (λ n. contains n move) w.deliveries) choice in
    subst
      (λ o.
        ((d : Name)
          → (contains d w.deliveries ≡ contains d o.0.deliveries || contains d o.1.deliveries)
            × (contains d o.0.deliveries && contains d o.1.deliveries ≡ false))
        × (is_empty o.0.deliveries ≡ false)
        × (is_empty o.1.deliveries ≡ false))
      same
      (
        λ d. elim (Bool-cases (contains d move)) [
          | inl moved ↦
              let there = inside-contains d move w.deliveries inside moved in
              let gone : contains d left ≡ false =
                contains-keep_test (λ n. not (contains n move)) d w.deliveries
                ∙ rw (there, moved) refl in
              (rw (there, moved) refl, rw (moved, gone) refl)
          | inr stays ↦
              let kept : contains d left ≡ contains d w.deliveries =
                contains-keep_test (λ n. not (contains n move)) d w.deliveries
                ∙ rw stays (and_true (contains d w.deliveries)) in
              (rw (stays, kept) refl, rw stays refl)
        ],
        some_moved,
        some_left move w.deliveries not_all,
      )
  where
    three :
        (a b c : Bool) → not (not a && b && not c) ≡ false → (a ≡ false) × (b ≡ true) × (c ≡ false)
    three true b c h = cc h
    three false true true h = cc h
    three false true false h = (refl, refl, refl)
    three false false c h = cc h

    and_true : (b : Bool) → b && true ≡ b
    and_true true = refl
    and_true false = refl
