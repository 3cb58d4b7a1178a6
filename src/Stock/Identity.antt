-- ===== src/Stock/Identity.antt =====
-- `_balance_name` of frappe_wms/services/stock.py as an identity: when two combinations of dimensions
-- share the text that is hashed.
use frappe_ewm.Base.{All, List, Name, [], ap, arith, map, refl, ℕ, ◌++◌, ◌<◌, ◌∷◌, ◌≡◌, ◌≢◌}
use frappe_ewm.Stock.Naming.{after_bars, bar, cg_mark, raw_name, raw_pieces, text_of}
use frappe_ewm.Stock.Types.{Env, OwnerKeys, Place}

-- A text without the character "|".
abbrev pub NoBar : List ℕ → Type 0
NoBar t = All (λ c. c ≢ bar) t

-- Up to the first bar, two texts are read alike.
cut_at_bar :
    (a b : List ℕ) (xs ys : List (List ℕ))
    → NoBar a
    → NoBar b
    → a ++ after_bars xs ≡ b ++ after_bars ys
    → (a ≡ b) × (after_bars xs ≡ after_bars ys)
cut_at_bar [] [] xs ys na nb same = (refl, same)
cut_at_bar [] (c ∷ b) [] ys na nb same = cc same
cut_at_bar [] (c ∷ b) (x ∷ xs) ys na nb same = absurd (nb.0 (cc same))
cut_at_bar (c ∷ a) [] xs [] na nb same = cc same
cut_at_bar (c ∷ a) [] xs (y ∷ ys) na nb same = absurd (na.0 (cc same))
cut_at_bar (c ∷ a) (d ∷ b) xs ys na nb same =
    let heads : c ≡ d = cc same in
    let tails : a ++ after_bars xs ≡ b ++ after_bars ys = cc same in
    let (texts, rests) = cut_at_bar a b xs ys na.1 nb.1 tails in (cc (heads, texts), rests)

after_bars-injective :
    (xs ys : List (List ℕ)) → All NoBar xs → All NoBar ys → after_bars xs ≡ after_bars ys → xs ≡ ys
after_bars-injective [] [] nx ny same = refl
after_bars-injective [] (y ∷ ys) nx ny same = cc same
after_bars-injective (x ∷ xs) [] nx ny same = cc same
after_bars-injective (x ∷ xs) (y ∷ ys) nx ny same =
    let rests : x ++ after_bars xs ≡ y ++ after_bars ys = cc same in
    let (texts, later) = cut_at_bar x y xs ys nx.0 ny.0 rests in
    cc (texts, after_bars-injective xs ys nx.1 ny.1 later)

map-injective :
    {A B : Type 0} (f : A → B) (xs ys : List A)
    → ((a b : A) → f a ≡ f b → a ≡ b)
    → map f xs ≡ map f ys
    → xs ≡ ys
map-injective f [] [] apart same = refl
map-injective f [] (y ∷ ys) apart same = cc same
map-injective f (x ∷ xs) [] apart same = cc same
map-injective f (x ∷ xs) (y ∷ ys) apart same =
    let heads : f x ≡ f y = cc same in
    let tails : map f xs ≡ map f ys = cc same in
    cc (apart x y heads, map-injective f xs ys apart tails)

raw_pieces-injective :
    (p q : Place) (o r : OwnerKeys Name)
    → o.stock_owner ≢ cg_mark
    → r.stock_owner ≢ cg_mark
    → o.special_stock_type ≢ cg_mark
    → r.special_stock_type ≢ cg_mark
    → raw_pieces p o ≡ raw_pieces q r
    → (p ≡ q) × (o ≡ r)
raw_pieces-injective p q o r ho hr so sr h = ground arith

-- Where different names have different texts, two places and sets of owner dimensions in which no
-- text has a bar, and no owner and no special stock type is called "CG", give the same text to
-- hash only if they are the same.
pub raw_name-injective :
    (env : Env) (p q : Place) (o r : OwnerKeys Name)
    → ((a b : Name) → text_of env a ≡ text_of env b → a ≡ b)
    → All NoBar (map (text_of env) (raw_pieces p o))
    → All NoBar (map (text_of env) (raw_pieces q r))
    → o.stock_owner ≢ cg_mark
    → r.stock_owner ≢ cg_mark
    → o.special_stock_type ≢ cg_mark
    → r.special_stock_type ≢ cg_mark
    → raw_name env p o ≡ raw_name env q r
    → (p ≡ q) × (o ≡ r)
unfolding raw_name
raw_name-injective env p q o r apart np nq ho hr so sr same =
    let texts =
      after_bars-injective (map (text_of env) (raw_pieces p o)) (map (text_of env) (raw_pieces q r))
        np nq (ap (λ t. bar ∷ t) same) in
    raw_pieces-injective p q o r ho hr so sr
      (map-injective (text_of env) (raw_pieces p o) (raw_pieces q r) apart texts)

-- Stock of an owner called "CG" with an entitled party has the name of the unowned stock of the
-- consolidation group that is called as the party.
pub raw_name_collision :
    (env : Env) (p : Place) (group : Name)
    → 0 < group
    → (raw_name env p (record {
      stock_owner = cg_mark;
      entitled_party = group;
      country_of_origin = 0;
      special_stock_type = 0;
      special_stock_ref = 0;
      consolidation_group = 0;
    })
        ≡ raw_name env p (record {
          stock_owner = 0;
          entitled_party = 0;
          country_of_origin = 0;
          special_stock_type = 0;
          special_stock_ref = 0;
          consolidation_group = group;
        }))
unfolding raw_name
raw_name_collision env p group h = ground arith
