-- ===== src/Travel/Distance.antt =====
-- The travel distance of frappe_wms/services/travel.py is a distance.
use frappe_ewm.Base.{
  +ℤ_parts, Name, Option, abs_ℤ, arith, int_laws, none, refl, some, ℤ, ◌+ℤ◌, ◌-ℤ◌, ◌≡◌, ◌≤ℤ◌,
  -ℤ_parts,
}
use frappe_ewm.Travel.{Position, between, bin_distance, position}

abs_swap : (a b : ℤ) → abs_ℤ (a -ℤ b) ≡ abs_ℤ (b -ℤ a)
abs_swap a b = ground (arith, -ℤ_parts a b, -ℤ_parts b a)

abs_triangle : (a b c : ℤ) → abs_ℤ (a -ℤ c) ≤ℤ abs_ℤ (a -ℤ b) +ℤ abs_ℤ (b -ℤ c)
abs_triangle a b c =
    ground
      (arith, -ℤ_parts a b, -ℤ_parts b c, -ℤ_parts a c, +ℤ_parts (abs_ℤ (a -ℤ b)) (abs_ℤ (b -ℤ c)))

sum_triangle :
    (x y z x1 y1 z1 x2 y2 z2 : ℤ)
    → x ≤ℤ x1 +ℤ x2
    → y ≤ℤ y1 +ℤ y2
    → z ≤ℤ z1 +ℤ z2
    → x +ℤ y +ℤ z ≤ℤ x1 +ℤ y1 +ℤ z1 +ℤ (x2 +ℤ y2 +ℤ z2)
sum_triangle x y z x1 y1 z1 x2 y2 z2 hx hy hz = omega int_laws

module _ (coordinates : Name → Option Position) where
  between_comm : (p q : Option Position) → between coordinates p q ≡ between coordinates q p
  between_comm none none = refl
  between_comm none (some q) = refl
  between_comm (some p) none = refl
  between_comm (some p) (some q) = rw (abs_swap p.x q.x, abs_swap p.y q.y, abs_swap p.z q.z) refl

  -- The distance between two bins is the same both ways, and unknown both ways where one has no
  -- position.
  bin_distance_comm : (a b : Name) → bin_distance coordinates a b ≡ bin_distance coordinates b a
  unfolding bin_distance
  bin_distance_comm a b = between_comm (position coordinates a) (position coordinates b)

  between_triangle :
      (p q r : Option Position) {x y z : ℤ}
      → between coordinates p r ≡ some x
      → between coordinates p q ≡ some y
      → between coordinates q r ≡ some z
      → x ≤ℤ y +ℤ z
  between_triangle none q r hx hy hz = cc hx
  between_triangle (some p) none r hx hy hz = cc hy
  between_triangle (some p) (some q) none hx hy hz = cc hz
  between_triangle (some p) (some q) (some r) {x} {y} {z} hx hy hz =
      let direct : abs_ℤ (p.x -ℤ r.x) +ℤ abs_ℤ (p.y -ℤ r.y) +ℤ abs_ℤ (p.z -ℤ r.z) ≡ x = cc hx in
      let there : abs_ℤ (p.x -ℤ q.x) +ℤ abs_ℤ (p.y -ℤ q.y) +ℤ abs_ℤ (p.z -ℤ q.z) ≡ y = cc hy in
      let on : abs_ℤ (q.x -ℤ r.x) +ℤ abs_ℤ (q.y -ℤ r.y) +ℤ abs_ℤ (q.z -ℤ r.z) ≡ z = cc hz in
      rw (← direct, ← there, ← on)
        (sum_triangle _ _ _ _ _ _ _ _ _ (abs_triangle p.x q.x r.x) (abs_triangle p.y q.y r.y)
          (abs_triangle p.z q.z r.z))

  -- Where the bins have positions, the way over a third bin is not shorter than the direct one.
  bin_distance_triangle :
      (a b c : Name) {x y z : ℤ}
      → bin_distance coordinates a c ≡ some x
      → bin_distance coordinates a b ≡ some y
      → bin_distance coordinates b c ≡ some z
      → x ≤ℤ y +ℤ z
  unfolding bin_distance
  bin_distance_triangle a b c =
      between_triangle (position coordinates a) (position coordinates b) (position coordinates c)
