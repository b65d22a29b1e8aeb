-- ===== src/App/SchemaStore/Revisions.antt =====
-- The loop of replace_declared over the changed resources, and the revisions it gives out.
use mathlib.Core.List.{append-nil}
use dirbase.Prelude.{
  ℕ, suc, String, Bool, true, false, ◌+◌, ◌≤◌, ◌<◌, Option, none, some, List, [], ◌∷◌, ◌++◌, ◌≡◌,
  refl, ◌∙◌, ap, subst, arith, str_eq, eq_iff, length, ◌⊎◌, inl, inr, Bool-cases,
}
use dirbase.BTreeMap
use dirbase.BTreeMap.{BTreeMap, get-insert}
use dirbase.Runtime.{Runtime}
use dirbase.Schema.Types.{DeclaredTableSchema, DeclaredSchema}
use dirbase.Schema.Types.Equal.{same_table}
use dirbase.App.SchemaStore.{
  BTreeSet, collect, u64_size, wrapping_add, Revisions, revise, revise_all, revision_of,
  declared_table, tables_of, changed_resources,
}

revision_of-insert :
    (m : BTreeMap ℕ) (k j : String) (n : ℕ)
    → str_eq k j ≡ false
    → revision_of (BTreeMap.insert m k n) j ≡ revision_of m j
unfolding revision_of
revision_of-insert m k j n h = simp (get-insert, h)

revision_of-insert_self :
    (m : BTreeMap ℕ) (k j : String) (n : ℕ)
    → str_eq k j ≡ true
    → revision_of (BTreeMap.insert m k n) j ≡ n
unfolding revision_of
revision_of-insert_self m k j n h = simp (get-insert, h)

wrapping_add-below : (n : ℕ) → suc n < u64_size → wrapping_add n 1 ≡ suc n
wrapping_add-below n h = omega arith

-- No revision is above the last one given out.
abbrev pub IsBounded : Revisions → Type 0
IsBounded revisions = (resource : String) → revision_of revisions.0 resource ≤ revisions.1

module _ ⦃rt : Runtime⦄ where
  revise-kept :
      (previous next : Option DeclaredTableSchema) (name : String) (revisions : Revisions)
      → same_table previous next ≡ true
      → revise previous next name revisions ≡ revisions
  unfolding revise
  revise-kept previous next name revisions h = rw h refl

  revise-changed :
      (previous next : Option DeclaredTableSchema) (name : String) (revisions : Revisions)
      → same_table previous next ≡ false
      → suc revisions.1 < u64_size
      → revise previous next name revisions
        ≡ (BTreeMap.insert revisions.0 name (suc revisions.1), suc revisions.1)
  unfolding revise
  revise-changed previous next name revisions h room =
      rw (h, wrapping_add-below revisions.1 room) refl

  -- A round keeps the revisions, or gives a fresh one to its resource.
  abbrev IsRound : String → Revisions → Revisions → Type 0
  IsRound name before after =
      (after ≡ before) ⊎ (after ≡ (BTreeMap.insert before.0 name (suc before.1), suc before.1))

  revise-IsRound :
      (previous next : Option DeclaredTableSchema) (name : String) (revisions : Revisions)
      → suc revisions.1 < u64_size
      → IsRound name revisions (revise previous next name revisions)
  revise-IsRound previous next name revisions room = elim (Bool-cases (same_table previous next)) [
    | inl same ↦ inl (revise-kept previous next name revisions same)
    | inr other ↦ inr (revise-changed previous next name revisions other room)
  ]

  round-grows :
      (name : String) (before after : Revisions)
      → IsRound name before after
      → (before.1 ≤ after.1) × (after.1 ≤ suc before.1)
  round-grows name before after (inl h) = rw h (omega arith)
  round-grows name before after (inr h) = rw h (omega arith)

  round-above :
      (name resource : String) (before after : Revisions) (start : ℕ)
      → IsRound name before after
      → start ≤ before.1
      → start < revision_of before.0 resource
      → start < revision_of after.0 resource
  round-above name resource before after start (inl h) low above = rw h above
  round-above name resource before after start (inr h) low above =
      elim (Bool-cases (str_eq name resource)) [
        | inl here ↦
            let fresh = revision_of-insert_self before.0 name resource (suc before.1) here in
            rw (h, fresh) (omega arith)
        | inr there ↦
            let kept = revision_of-insert before.0 name resource (suc before.1) there in
            rw (h, kept) above
      ]

  round-IsBounded :
      (name : String) (before after : Revisions)
      → IsRound name before after
      → IsBounded before
      → IsBounded after
  round-IsBounded name before after (inl h) bounded resource = rw h (bounded resource)
  round-IsBounded name before after (inr h) bounded resource =
      let old = bounded resource in
      elim (Bool-cases (str_eq name resource)) [
        | inl here ↦
            let fresh = revision_of-insert_self before.0 name resource (suc before.1) here in
            rw (h, fresh) (omega arith)
        | inr there ↦
            let kept = revision_of-insert before.0 name resource (suc before.1) there in
            rw (h, kept) (omega arith)
      ]

  round-elsewhere :
      (name resource : String) (before after : Revisions)
      → IsRound name before after
      → str_eq name resource ≡ false
      → revision_of after.0 resource ≡ revision_of before.0 resource
  round-elsewhere name resource before after (inl h) apart = rw h refl
  round-elsewhere name resource before after (inr h) apart =
      rw h (revision_of-insert before.0 name resource (suc before.1) apart)

  module _ (previous next : Option DeclaredSchema) where
    abbrev revise_at : String → Revisions → Revisions
    revise_at name = revise (declared_table previous name) (declared_table next name) name

    abbrev is_same : String → Bool
    is_same name = same_table (declared_table previous name) (declared_table next name)

    round :
        (name : String) (revisions : Revisions) (n : ℕ)
        → suc n + revisions.1 < u64_size
        → IsRound name revisions (revise_at name revisions)
    round name revisions n room =
        revise-IsRound (declared_table previous name) (declared_table next name) name revisions
          (omega arith)

    room-later :
        (name : String) (revisions : Revisions) (n : ℕ)
        → suc n + revisions.1 < u64_size
        → n + (revise_at name revisions).1 < u64_size
    room-later name revisions n room =
        let bounds =
          round-grows name revisions (revise_at name revisions) (round name revisions n room) in
        grind arith

    pub revise_all-IsBounded :
        (names : BTreeSet) (revisions : Revisions)
        → length names + revisions.1 < u64_size
        → IsBounded revisions
        → IsBounded (revise_all previous next names revisions)
    unfolding revise_all
    revise_all-IsBounded [] revisions room bounded = bounded
    revise_all-IsBounded ((name, _) ∷ names) revisions room bounded =
        revise_all-IsBounded names (revise_at name revisions)
          (room-later name revisions (length names) room)
          (round-IsBounded name revisions (revise_at name revisions)
            (round name revisions (length names) room) bounded)

    pub revise_all-grows :
        (names : BTreeSet) (revisions : Revisions)
        → length names + revisions.1 < u64_size
        → revisions.1 ≤ (revise_all previous next names revisions).1
    unfolding revise_all
    revise_all-grows [] revisions room = omega arith
    revise_all-grows ((name, _) ∷ names) revisions room =
        let first =
          round-grows name revisions (revise_at name revisions)
            (round name revisions (length names) room) in
        let later =
          revise_all-grows names (revise_at name revisions)
            (room-later name revisions (length names) room) in
        grind arith

    revise_all-above :
        (names : BTreeSet) (resource : String) (start : ℕ) (revisions : Revisions)
        → length names + revisions.1 < u64_size
        → start ≤ revisions.1
        → start < revision_of revisions.0 resource
        → start < revision_of (revise_all previous next names revisions).0 resource
    unfolding revise_all
    revise_all-above [] resource start revisions room low above = above
    revise_all-above ((name, _) ∷ names) resource start revisions room low above =
        let step = round name revisions (length names) room in
        let first = round-grows name revisions (revise_at name revisions) step in
        revise_all-above names resource start (revise_at name revisions)
          (room-later name revisions (length names) room) (grind arith)
          (round-above name resource revisions (revise_at name revisions) start step low above)

    -- A table that is the same keeps its revision.
    pub revise_all-kept :
        (names : BTreeSet) (resource : String) (revisions : Revisions)
        → length names + revisions.1 < u64_size
        → is_same resource ≡ true
        → revision_of (revise_all previous next names revisions).0 resource
          ≡ revision_of revisions.0 resource
    unfolding revise_all
    revise_all-kept [] resource revisions room same = refl
    revise_all-kept ((name, _) ∷ names) resource revisions room same =
        revise_all-kept names resource (revise_at name revisions)
          (room-later name revisions (length names) room) same
        ∙ elim (Bool-cases (str_eq name resource)) [
          | inl here ↦
              ap (λ r. revision_of r.0 resource)
                (revise-kept (declared_table previous name) (declared_table next name) name
                  revisions (ap is_same ((eq_iff name resource).0 here) ∙ same))
          | inr there ↦
              round-elsewhere name resource revisions (revise_at name revisions)
                (round name revisions (length names) room) there
        ]

    -- One that is not gets a revision above every earlier one.
    pub revise_all-fresh :
        (names : BTreeSet) (resource : String) (start : ℕ) (revisions : Revisions)
        → length names + revisions.1 < u64_size
        → is_same resource ≡ false
        → BTreeMap.get names resource ≡ some tt
        → start ≤ revisions.1
        → start < revision_of (revise_all previous next names revisions).0 resource
    unfolding revise_all BTreeMap.get
    revise_all-fresh [] resource start revisions room other found low = cc
    revise_all-fresh ((name, _) ∷ names) resource start revisions room other found low =
        let later = room-later name revisions (length names) room in
        let first =
          round-grows name revisions (revise_at name revisions)
            (round name revisions (length names) room) in
        elim (Bool-cases (str_eq name resource)) [
          | inl here ↦
              let at = ap is_same ((eq_iff name resource).0 here) ∙ other in
              let changed =
                revise-changed (declared_table previous name) (declared_table next name) name
                  revisions at (omega arith) in
              let fresh =
                revision_of-insert_self revisions.0 name resource (suc revisions.1) here in
              revise_all-above names resource start (revise_at name revisions) later (grind arith)
                (rw (changed, fresh) (omega arith))
          | inr there ↦
              revise_all-fresh names resource start (revise_at name revisions) later other
                (rw there at found) (grind arith)
        ]

get-collect_later :
    (names rest : List String) (resource : String)
    → BTreeMap.get (collect rest) resource ≡ some tt
    → BTreeMap.get (collect (names ++ rest)) resource ≡ some tt
unfolding collect
get-collect_later [] rest resource h = h
get-collect_later (name ∷ names) rest resource h = ground (
  arith,
  get-insert (collect (names ++ rest)) name resource tt,
  get-collect_later names rest resource h,
)

get-collect-keys {ℓ} :
    {V : Type ℓ} (m : BTreeMap V) (rest : List String) (resource : String) {value : V}
    → BTreeMap.get m resource ≡ some value
    → BTreeMap.get (collect (BTreeMap.keys m ++ rest)) resource ≡ some tt
unfolding collect BTreeMap.get
get-collect-keys [] rest resource h = cc
get-collect-keys ((name, v) ∷ m) rest resource h =
    get-insert (collect (BTreeMap.keys m ++ rest)) name resource tt
    ∙ elim (Bool-cases (str_eq name resource)) [
      | inl here ↦ rw here refl
      | inr there ↦ rw there (get-collect-keys m rest resource (rw there at h))
    ]

module _ ⦃rt : Runtime⦄ where
  tables_of-found :
      (declared : Option DeclaredSchema) (resource : String) {table : DeclaredTableSchema}
      → declared_table declared resource ≡ some table
      → BTreeMap.get (tables_of declared) resource ≡ some table
  unfolding declared_table tables_of
  tables_of-found none resource h = cc
  tables_of-found (some declared) resource h = h

  -- Every table that is not the same is among the changed resources.
  pub changed_resources-found :
      (previous next : Option DeclaredSchema) (resource : String)
      (old new : Option DeclaredTableSchema)
      → declared_table previous resource ≡ old
      → declared_table next resource ≡ new
      → same_table old new ≡ false
      → BTreeMap.get (changed_resources previous next) resource ≡ some tt
  unfolding changed_resources same_table
  changed_resources-found previous next resource none none h k other = cc
  changed_resources-found previous next resource (some table) new h k other =
      get-collect-keys (tables_of previous) (BTreeMap.keys (tables_of next)) resource
        (tables_of-found previous resource h)
  changed_resources-found previous next resource none (some table) h k other =
      get-collect_later (BTreeMap.keys (tables_of previous)) (BTreeMap.keys (tables_of next))
        resource
        (subst (λ names. BTreeMap.get (collect names) resource ≡ some tt)
          (append-nil (BTreeMap.keys (tables_of next)))
          (get-collect-keys (tables_of next) [] resource (tables_of-found next resource k)))
