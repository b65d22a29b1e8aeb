-- ===== src/BTreeMap/Parts.antt =====
-- Updates of a map's entries, and what they keep.
use mathlib.Core.Option
use dirbase.Prelude.{
  String, some, ◌≡◌, inl, inr, refl, sym, ap, ◌∙◌, subst, Bool-cases, str_eq, eq_iff,
}
use dirbase.BTreeMap
use dirbase.BTreeMap.{BTreeMap, get-insert}

module _ {ℓ} {V : Type ℓ} where
  -- An update of an entry that keeps a part of it keeps that part of every entry.
  pub get-insert-part {κ} :
      {B : Type κ} (f : V → B) (m : BTreeMap V) (key : String) (old new : V) (j : String)
      → BTreeMap.get m key ≡ some old
      → f new ≡ f old
      → Option.map f (BTreeMap.get (BTreeMap.insert m key new) j) ≡ Option.map f (BTreeMap.get m j)
  get-insert-part f m key old new j found kept = elim (Bool-cases (str_eq key j)) [
    | inl same ↦
        rw (get-insert m key j new, same)
          (ap some kept
            ∙ sym (
                ap (Option.map f)
                  (subst (λ k. BTreeMap.get m k ≡ some old) ((eq_iff key j).0 same) found)))
    | inr other ↦ rw (get-insert m key j new, other) refl
  ]
