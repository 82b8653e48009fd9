-- ===== src/Core/Common/Merge.antt =====
-- `deep_merge`: what each key gets.
use one_m2m_dds_ipe.Prelude.{
  String, ◌≡◌, subst, refl, ap, sym, ◌∙◌, Bool, Option, none, some, if◌then◌else◌, string_equality,
  ==_cases, inl, inr,
}
use one_m2m_dds_ipe.Core.Common.{Value, Fields, no_field, field, find, put, deep_merge, merged}
use one_m2m_dds_ipe.Core.Common.Paths.{find-put}

-- What makes such a list of fields a dictionary: no key stands twice.
abbrev pub Nodup : Fields → Type 0
Nodup no_field = Unit
Nodup (field k v d) = (find k d ≡ none) × Nodup d

-- The value of a key after a merge, from its values in `base` and in `over`.
abbrev pub merged_entry : Option Value → Option Value → Option Value
merged_entry old none = old
merged_entry old (some new) = some (merged old new)

-- After a merge each key has the value of `over` if that has one, merged with the value of `base`
-- where both are dictionaries, and else the value of `base`.
pub find-deep_merge :
    (key : String) (base over : Fields)
    → Nodup over
    → find key (deep_merge base over) ≡ merged_entry (find key base) (find key over)
unfolding deep_merge find
find-deep_merge key base no_field u = refl
find-deep_merge key base (field k v over) u =
    let entry = merged (find k base) v in
    let at : Bool → Option Value = λ b. if b then some entry else find key base in
    let old : Bool → Option Value =
      λ b. merged_entry (find key base) (if b then some v else find key over) in
    let rest =
      find-deep_merge key (put k entry base) over u.1
      ∙ ap (λ o. merged_entry o (find key over)) (find-put key k entry base) in
    elim (==_cases key k) [
      | inl (e, same) ↦
          rest
          ∙ ap (λ b. merged_entry (at b) (find key over)) e
          ∙ ap (merged_entry (some entry)) (subst (λ j. find j over ≡ none) (sym same) u.0)
          ∙ ap (λ j. some (merged (find j base) v)) (sym same)
          ∙ ap old (sym e)
      | inr (e, _) ↦ rest ∙ ap (λ b. merged_entry (at b) (find key over)) e ∙ ap old (sym e)
    ]
