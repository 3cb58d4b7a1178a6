-- ===== src/Travel.antt =====
-- frappe_wms/services/travel.py: bin coordinates and travel distance. Coordinates are in millionths.
pub mod Distance
use frappe_ewm.Base.{
  Bool, List, Name, Option, [], abs_ℤ, eqb_ℤ, false, from_option, if◌then◌else◌, is_empty, is_set,
  none, not, pos, some, ℤ, ◌&&◌, ◌+ℤ◌, ◌-ℤ◌, ◌==◌, ◌||◌, ◌∷◌,
}

-- The coordinates of a `Storage Bin`.
pub record Position : Type 0 where
  pub x : ℤ
  pub y : ℤ
  pub z : ℤ

abbrev is_origin : Position → Bool
is_origin p = eqb_ℤ p.x (pos 0) && (eqb_ℤ p.y (pos 0) && eqb_ℤ p.z (pos 0))

-- A warehouse task of the order: the fields that its walk path reads.
pub record Leg : Type 0 where
  pub source_bin : Name
  pub destination_bin : Name

-- `coordinates` reads a bin from the table, if it is there.
module _ (coordinates : Name → Option Position) where
  -- `_position`: a blank bin, a missing one and one whose coordinates are all zero have none.
  abbrev known : Option Position → Option Position
  known none = none
  known (some p) = if is_origin p then none else some p

  unfoldable pub position : Name → Option Position
  position bin = if is_set bin then known (coordinates bin) else none

  abbrev pub between : Option Position → Option Position → Option ℤ
  between none q = none
  between (some p) none = none
  between (some p) (some q) = some (abs_ℤ (p.x -ℤ q.x) +ℤ abs_ℤ (p.y -ℤ q.y) +ℤ abs_ℤ (p.z -ℤ q.z))

  unfoldable pub bin_distance : Name → Name → Option ℤ
  bin_distance a b = between (position a) (position b)

  -- `b == bins[i - 1]`
  abbrev follows : Option Name → Name → Bool
  follows none b = false
  follows (some p) b = p == b

  -- The bins without blanks, and without a bin that follows itself in the list as it was given.
  unfoldable pub walked_from : Option Name → List Name → List Name
  walked_from previous [] = []
  walked_from previous (b ∷ bins) =
      let rest = walked_from (some b) bins in
      if is_set b && not (follows previous b) then b ∷ rest else rest

  -- The sum of the known legs.
  unfoldable pub legs : List Name → ℤ
  legs [] = pos 0
  legs (a ∷ bins) = elim bins [
    | [] ↦ pos 0
    | b ∷ more ↦ from_option (pos 0) (bin_distance a b) +ℤ legs bins
  ]

  unfoldable pub path_distance : List Name → ℤ
  path_distance bins = legs (walked_from none bins)

  -- The walk path of an order: the source bins in sequence, then the last destination.
  unfoldable pub order_path : List Leg → List Name
  order_path [] = []
  order_path (t ∷ ts) = elim ts [
    | [] ↦ t.source_bin ∷ t.destination_bin ∷ []
    | u ∷ more ↦ t.source_bin ∷ order_path ts
  ]

  -- `update_order_distance`, on the order's tasks in sequence: the distance that it writes, if any.
  unfoldable pub update_order_distance : Name → List Leg → Option ℤ
  update_order_distance order tasks =
      if not (is_set order) || is_empty tasks then none else some (path_distance (order_path tasks))
