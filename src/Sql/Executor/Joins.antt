-- ===== src/Sql/Executor/Joins.antt =====
-- The join of src/sql/executor.rs against a loop over all pairs of rows.
use dirbase.Prelude.{
  String, Bool, false, Option, none, some, List, [], ◌∷◌, ◌++◌, ◌≡◌, refl, sym, ap, ◌∙◌,
  if◌then◌else◌, unwrap_or, str_eq, eq_iff, Bool-cases, inl, inr,
}
use mathlib.Core.List.{append-nil, append_assoc}
use dirbase.BTreeMap
use dirbase.BTreeMap.{BTreeMap, get-insert}
use dirbase.Runtime.{Runtime, Value}
use dirbase.Sql.Types.{ParsedSqlJoin}
use dirbase.Sql.Executor.{
  value_to_lookup_key, push_row, add_target, build_lookup, extend_all, matches_of, left_value,
  join_each, join_rows,
}

module _ ⦃rt : Runtime⦄ where
  has_key : String → Option Value → Bool
  has_key key none = false
  has_key key (some value) = str_eq (value_to_lookup_key value) key

  -- The target rows whose join column has the text, in their order.
  unfoldable pub partners : String → String → List (BTreeMap Value) → List (BTreeMap Value)
  unfolding has_key
  partners key right_column [] = []
  partners key right_column (row ∷ rows) =
      (if has_key key (BTreeMap.get row right_column) then row ∷ [] else [])
      ++ partners key right_column rows

  -- The pairs of one row.
  pairs : ParsedSqlJoin → List (BTreeMap Value) → Value → Option Value → List Value
  pairs join target_rows row none = []
  pairs join target_rows row (some actual) =
      extend_all row join.alias
        (partners (value_to_lookup_key actual) join.right_column target_rows)

  -- Each row with each target row that has the same text in the join column, in order.
  unfoldable pub nested_loop : ParsedSqlJoin → List (BTreeMap Value) → List Value → List Value
  unfolding pairs
  nested_loop join target_rows [] = []
  nested_loop join target_rows (row ∷ rows) =
      pairs join target_rows row (left_value join row) ++ nested_loop join target_rows rows

  -- Under an equal text the row comes last, under another nothing changes.
  found_after :
      (key text : String) (row : BTreeMap Value) (acc : BTreeMap (List (BTreeMap Value)))
      → unwrap_or (BTreeMap.get (push_row acc text row) key) []
        ≡ unwrap_or (BTreeMap.get acc key) [] ++ (if str_eq text key then row ∷ [] else [])
  unfolding push_row
  found_after key text row acc = elim (Bool-cases (str_eq text key)) [
    | inl same ↦
        rw (get-insert acc text key (unwrap_or (BTreeMap.get acc text) [] ++ row ∷ []), same)
          (ap (λ k. unwrap_or (BTreeMap.get acc k) [] ++ row ∷ []) ((eq_iff text key).0 same))
    | inr other ↦
        rw (get-insert acc text key (unwrap_or (BTreeMap.get acc text) [] ++ row ∷ []), other)
          (sym (append-nil (unwrap_or (BTreeMap.get acc key) [])))
  ]

  found_after_target :
      (key : String) (value : Option Value) (row : BTreeMap Value)
      (acc : BTreeMap (List (BTreeMap Value)))
      → unwrap_or (BTreeMap.get (add_target value row acc) key) []
        ≡ unwrap_or (BTreeMap.get acc key) [] ++ (if has_key key value then row ∷ [] else [])
  unfolding add_target has_key
  found_after_target key none row acc = sym (append-nil (unwrap_or (BTreeMap.get acc key) []))
  found_after_target key (some value) row acc = found_after key (value_to_lookup_key value) row acc

  -- The rows gathered under a text are those of the target with it, after the ones there before.
  get-build_lookup :
      (key right_column : String) (rows : List (BTreeMap Value))
      (acc : BTreeMap (List (BTreeMap Value)))
      → unwrap_or (BTreeMap.get (build_lookup right_column rows acc) key) []
        ≡ unwrap_or (BTreeMap.get acc key) [] ++ partners key right_column rows
  unfolding build_lookup partners
  get-build_lookup key right_column [] acc = sym (append-nil (unwrap_or (BTreeMap.get acc key) []))
  get-build_lookup key right_column (row ∷ rows) acc =
      get-build_lookup key right_column rows (add_target (BTreeMap.get row right_column) row acc)
      ∙ ap (λ found. found ++ partners key right_column rows)
          (found_after_target key (BTreeMap.get row right_column) row acc)
      ∙ append_assoc (unwrap_or (BTreeMap.get acc key) [])
          (if has_key key (BTreeMap.get row right_column) then row ∷ [] else [])
          (partners key right_column rows)

  matches_of-pairs :
      (join : ParsedSqlJoin) (target_rows : List (BTreeMap Value)) (row : Value)
      (value : Option Value)
      → extend_all row join.alias (matches_of (build_lookup join.right_column target_rows []) value)
        ≡ pairs join target_rows row value
  unfolding matches_of pairs BTreeMap.get extend_all
  matches_of-pairs join target_rows row none = refl
  matches_of-pairs join target_rows row (some actual) =
      ap (extend_all row join.alias)
        (get-build_lookup (value_to_lookup_key actual) join.right_column target_rows [])

  -- A join by a table of the target rows gives the rows of the loop over all pairs, in its order:
  -- each row once for each target row that has the same text in the join column, and a row
  -- without the column, or without a partner, not at all.
  pub join_rows-nested_loop :
      (join : ParsedSqlJoin) (target_rows : List (BTreeMap Value)) (rows : List Value)
      → join_rows join target_rows rows ≡ nested_loop join target_rows rows
  unfolding join_rows join_each nested_loop
  join_rows-nested_loop join target_rows [] = refl
  join_rows-nested_loop join target_rows (row ∷ rows) =
      ap (λ first. first ++ join_rows join target_rows rows)
        (matches_of-pairs join target_rows row (left_value join row))
      ∙ ap (λ rest. pairs join target_rows row (left_value join row) ++ rest)
          (join_rows-nested_loop join target_rows rows)
