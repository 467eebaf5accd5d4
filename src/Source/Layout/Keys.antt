-- ===== src/Source/Layout/Keys.antt =====
-- The merge of layouts.
use gitveil.Base.{
  ◌⊎◌, ◌≡◌, sym, arith, some, Str, inl, inr, eq_iff, eq_refl, nat_eq, list_eq, option_eq, Eq,
}
use gitveil.Source.Layout.{Layout, dotenv_eq, layout_eq}
use gitveil.Source.Layout.Dotenv.{merge_field, find_entry, merge_dotenv}
use gitveil.Source.Layout.Merge.{TextDiff, merge_parts, merge_three_way}
use gitveil.Source.Layout.Entries.{merge_dotenv-keys}

merge_field-same {ℓ} :
    {A : Type ℓ} ⦃e : Eq A⦄ (base side : A) → merge_field base side side ≡ some side
unfolding merge_field
merge_field-same base side = rw (eq_refl side)

merge_field-ours {ℓ} :
    {A : Type ℓ} ⦃e : Eq A⦄ (base theirs : A) → merge_field base base theirs ≡ some theirs
unfolding merge_field
merge_field-ours base theirs = ground (arith, eq_refl base, eq_iff base theirs)

merge_field-theirs {ℓ} :
    {A : Type ℓ} ⦃e : Eq A⦄ (base ours : A) → merge_field base ours base ≡ some ours
unfolding merge_field
merge_field-theirs base ours = ground (arith, eq_refl base, eq_iff ours base)

merge_parts-dotenv :
    (differ : TextDiff) (base ours theirs merged : Layout)
    → merge_parts differ base ours theirs ≡ some merged
    → merge_dotenv base.dotenv ours.dotenv theirs.dotenv ≡ some merged.dotenv
unfolding merge_parts
merge_parts-dotenv differ base ours theirs merged h = ground arith

merge_three_way-cases :
    (differ : TextDiff) (base ours theirs merged : Layout)
    → merge_three_way differ base ours theirs ≡ some merged
    → ((ours ≡ theirs) × (ours ≡ merged))
      ⊎ ((ours ≡ base) × (theirs ≡ merged))
      ⊎ ((theirs ≡ base) × (ours ≡ merged))
      ⊎ (merge_parts differ base ours theirs ≡ some merged)
unfolding merge_three_way
merge_three_way-cases differ base ours theirs merged h =
    ground (arith, eq_iff ours theirs, eq_iff ours base, eq_iff theirs base)

-- Where the merge of three layouts succeeds, its dotenv entry of every key is the three-way merge
-- of the sides' entries of that key: the entry that both sides agree on, and otherwise the one of
-- the side that differs from the base.
pub merge_three_way-keys :
    (differ : TextDiff) (base ours theirs merged : Layout) (key : Str)
    → merge_three_way differ base ours theirs ≡ some merged
    → merge_field
        (find_entry key base.dotenv)
        (find_entry key ours.dotenv)
        (find_entry key theirs.dotenv)
      ≡ some (find_entry key merged.dotenv)
unfolding merge_three_way
merge_three_way-keys differ base ours theirs merged key h =
    elim (merge_three_way-cases differ base ours theirs merged h) [
      | inl (same, e) ↦ rw (sym same, sym e) (merge_field-same _ _)
      | inr (inl (same, e)) ↦ rw (same, sym e) (merge_field-ours _ _)
      | inr (inr (inl (same, e))) ↦ rw (same, sym e) (merge_field-theirs _ _)
      | inr (inr (inr e)) ↦
          merge_dotenv-keys base.dotenv ours.dotenv theirs.dotenv merged.dotenv key
            (merge_parts-dotenv differ base ours theirs merged e)
    ]

-- Where only one side changed the layout, the merge is that side, and where both made the same
-- change it is that change.
pub merge_three_way_one_sided :
    (differ : TextDiff) (base side : Layout)
    → (merge_three_way differ base base side ≡ some side)
      × (merge_three_way differ base side base ≡ some side)
      × (merge_three_way differ base side side ≡ some side)
unfolding merge_three_way
merge_three_way_one_sided differ base side =
    ground (arith, eq_refl base, eq_refl side, eq_iff base side, eq_iff side base)
