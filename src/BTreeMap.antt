-- ===== src/BTreeMap.antt =====
-- The ordered maps with text keys of the Rust standard library, which `serde_json::Map` is too: an
-- association list in key order. Hash maps, which the program never iterates over, are the same.
pub mod Parts
use Prim.Native.String.{compare as compare_text}
use mathlib.Core.List
use text.Mathlib.Text.{is_lt}
use text.Mathlib.TextPositions.{eq_refl}
use dirbase.Prelude.{
  String, ◌≡◌, refl, ◌≢◌, Bool, Option, none, some, List, [], ◌∷◌, arith, str_eq, eq_iff,
  if◌then◌else◌, is_some, All,
}

abbrev pub BTreeMap {ℓ} : Type ℓ → Type ℓ
BTreeMap V = List (String × V)

module _ {ℓ} {V : Type ℓ} where
  -- `m.get(k)`
  unfoldable pub get : BTreeMap V → String → Option V
  get [] k = none
  get ((j, v) ∷ m) k = if str_eq j k then some v else get m k

  -- `m.insert(k, v)`
  unfoldable pub insert : BTreeMap V → String → V → BTreeMap V
  insert [] k v = (k, v) ∷ []
  insert ((j, w) ∷ m) k v =
      let later = (j, w) ∷ insert m k v in
      if str_eq j k
      then (k, v) ∷ m
      else if is_lt (compare_text k j)
      then (k, v) ∷ (j, w) ∷ m
      else later

  -- `m.remove(k)`
  unfoldable pub remove : BTreeMap V → String → BTreeMap V
  remove [] k = []
  remove ((j, w) ∷ m) k = let rest = remove m k in if str_eq j k then rest else (j, w) ∷ rest

  -- `m.contains_key(k)`
  abbrev pub contains_key : BTreeMap V → String → Bool
  contains_key m k = is_some (get m k)

  -- `m.entry(k).or_insert(v)`, for its effect on the map
  abbrev pub or_insert : BTreeMap V → String → V → BTreeMap V
  or_insert m k v = if contains_key m k then m else insert m k v

  -- `m.keys()` and `m.values()`
  abbrev pub keys : BTreeMap V → List String
  keys m = List.map (λ e. e.0) m

  abbrev pub values : BTreeMap V → List V
  values m = List.map (λ e. e.1) m

  pub get-insert :
      (m : BTreeMap V) (k j : String) (v : V)
      → get (insert m k v) j ≡ (if str_eq k j then some v else get m j)
  unfolding get insert
  get-insert [] k j v = refl
  get-insert ((i, w) ∷ m) k j v =
      ground (arith, get-insert m k j v, eq_iff i k, eq_iff k j, eq_iff i j)

  pub get-remove :
      (m : BTreeMap V) (k j : String) → get (remove m k) j ≡ (if str_eq k j then none else get m j)
  unfolding get remove
  get-remove [] k j = ground arith
  get-remove ((i, w) ∷ m) k j = ground (arith, get-remove m k j, eq_iff i k, eq_iff k j, eq_iff i j)

  pub get-insert_self : (m : BTreeMap V) (k : String) (v : V) → get (insert m k v) k ≡ some v
  get-insert_self m k v = simp (get-insert, eq_refl)

  pub get-insert_ne :
      (m : BTreeMap V) (k j : String) (v : V) → k ≢ j → get (insert m k v) j ≡ get m j
  get-insert_ne m k j v h = simp get-insert (ground (arith, eq_iff k j))

-- No key comes twice.
abbrev pub HasDistinctKeys {ℓ} : {V : Type ℓ} → BTreeMap V → Type ℓ
HasDistinctKeys [] = Unit
HasDistinctKeys ((key, value) ∷ m) = (get m key ≡ none) × HasDistinctKeys m

module _ {ℓ} {V : Type ℓ} where
  get-cons_All :
      (key : String) (value : V) (m entries : BTreeMap V)
      → get m key ≡ none
      → All (λ entry. get m entry.0 ≡ some entry.1) entries
      → All (λ entry. get ((key, value) ∷ m) entry.0 ≡ some entry.1) entries
  unfolding get
  get-cons_All key value m [] absent h = tt
  get-cons_All key value m ((j, w) ∷ entries) absent h =
      (ground (arith, h.0, eq_iff key j), get-cons_All key value m entries absent h.1)

  -- In a map without a repeated key, each entry is what a lookup of its key finds.
  pub get-All : (m : BTreeMap V) → HasDistinctKeys m → All (λ entry. get m entry.0 ≡ some entry.1) m
  unfolding get
  get-All [] d = tt
  get-All ((key, value) ∷ m) d =
      (rw (eq_refl key) refl, get-cons_All key value m m d.0 (get-All m d.1))
