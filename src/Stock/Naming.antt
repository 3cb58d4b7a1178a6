-- ===== src/Stock/Naming.antt =====
-- `_balance_name` and `dim_values` of frappe_wms/services/stock.py: the identity of a balance row.
use frappe_ewm.Base.{
  Bool, List, Name, [], from_option, if◌then◌else◌, is_set, map, ℕ, ◌++◌, ◌||◌, ◌∷◌,
}
use frappe_ewm.Stock.Types.{Entry, Env, OwnerKeys, Place}

-- The literal "CG", which marks a consolidation group.
abbrev pub cg_mark : Name
cg_mark = 7

module _ {A B : Type 0} where
  abbrev pub map_keys : (A → B) → OwnerKeys A → OwnerKeys B
  map_keys f o = record {
    stock_owner = f o.stock_owner;
    entitled_party = f o.entitled_party;
    country_of_origin = f o.country_of_origin;
    special_stock_type = f o.special_stock_type;
    special_stock_ref = f o.special_stock_ref;
    consolidation_group = f o.consolidation_group;
  }

-- The values of `OWNER_KEYS`, in its order.
abbrev pub owner_list : {A : Type 0} → OwnerKeys A → List A
owner_list o =
    o.stock_owner ∷ o.entitled_party ∷ o.country_of_origin ∷ o.special_stock_type
    ∷ o.special_stock_ref ∷ o.consolidation_group ∷ []

-- `{k: e.get(k) for k in OWNER_KEYS}`: a key that the entry lacks reads as a blank.
abbrev pub dim_values : Entry → OwnerKeys Name
dim_values e = map_keys (from_option 0) e.owner

-- `any(values.get(k) for k in OWNER_KEYS)`
abbrev pub any_owner : OwnerKeys Name → Bool
any_owner o =
    is_set o.stock_owner
    || (is_set o.entitled_party
        || (is_set o.country_of_origin
            || (is_set o.special_stock_type
                || (is_set o.special_stock_ref || is_set o.consolidation_group))))

abbrev place_pieces : Place → List Name
place_pieces p =
    p.warehouse ∷ p.product ∷ p.batch_no ∷ p.serial_no ∷ p.handling_unit ∷ p.storage_bin
    ∷ p.stock_type ∷ []

abbrev owner_pieces : OwnerKeys Name → List Name
owner_pieces o =
    if is_set o.stock_owner || is_set o.entitled_party
    then o.stock_owner ∷ o.entitled_party ∷ []
    else []

abbrev attr_pieces : OwnerKeys Name → List Name
attr_pieces o =
    if is_set o.country_of_origin || (is_set o.special_stock_type || is_set o.special_stock_ref)
    then o.country_of_origin ∷ o.special_stock_type ∷ o.special_stock_ref ∷ []
    else []

abbrev group_pieces : OwnerKeys Name → List Name
group_pieces o = if is_set o.consolidation_group then cg_mark ∷ o.consolidation_group ∷ [] else []

abbrev pub raw_pieces : Place → OwnerKeys Name → List Name
raw_pieces p o = place_pieces p ++ (owner_pieces o ++ (attr_pieces o ++ group_pieces o))

-- `str(values.get(k) or "")`
abbrev pub text_of : Env → Name → List ℕ
text_of env n = if is_set n then env.text n else []

-- The character "|".
abbrev pub bar : ℕ
bar = 124

-- `"|".join`
abbrev pub after_bars : List (List ℕ) → List ℕ
after_bars [] = []
after_bars (t ∷ ts) = bar ∷ (t ++ after_bars ts)

abbrev pub bar_join : List (List ℕ) → List ℕ
bar_join [] = []
bar_join (t ∷ ts) = t ++ after_bars ts

-- `raw`: the text that is hashed. Each `raw += "|..."` goes on with further pieces behind a bar.
unfoldable pub raw_name : Env → Place → OwnerKeys Name → List ℕ
raw_name env p o = bar_join (map (text_of env) (raw_pieces p o))

-- `_balance_name`
unfoldable pub balance_name : Env → Place → OwnerKeys Name → Name
unfolding raw_name
balance_name env p o = env.sha256 (raw_name env p o)

abbrev pub entry_name : Env → Entry → Name
entry_name env e = balance_name env e.place (dim_values e)
