-- ===== src/Qos/Registry/Places.antt =====
-- Where `compact_policy_groups` puts each of the 22 policies.
use one_m2m_dds_ipe.Prelude.{
  String, ◌≡◌, refl, Bool, true, false, not, ◌&&◌, ◌||◌, Option, some, List, [], ◌∷◌, ◌++◌, ◌==◌,
  contains, string_equality, arith, Bool-cases, inl, inr,
}
use one_m2m_dds_ipe.Prelude.Dict.{Dict, lookup, member, insert, member-insert}
use one_m2m_dds_ipe.Prelude.Result.{ok}
use one_m2m_dds_ipe.Qos.Profile.{QosSpec}
use one_m2m_dds_ipe.Qos.Registry.{
  Shown, PolicyRecord, build_record, build_records, build_policy_records,
}
use one_m2m_dds_ipe.Qos.Registry.Definitions.{
  Mapping, Category, category_a, category_b, category_c, PolicyDefinition, dds_qos_policies,
}
use one_m2m_dds_ipe.Qos.Registry.Compact.{
  Groups, no_groups, by_category, put_record, group_all, compact_policy_groups,
}

-- Whether `name` is among the policies for which `test` holds.
abbrev pub listed : (PolicyDefinition → Bool) → String → List PolicyDefinition → Bool
listed test name [] = false
listed test name (d ∷ ds) = (test d && name == d.name) || listed test name ds

abbrev pub is_a : Category → Bool
is_a category_a = true
is_a category_b = false
is_a category_c = false

abbrev pub is_b : Category → Bool
is_b category_a = false
is_b category_b = true
is_b category_c = false

abbrev pub is_c : Category → Bool
is_c category_a = false
is_c category_b = false
is_c category_c = true

member-or {ℓ} :
    {V : Type ℓ} (j k : String) (v : V) (d : Dict String V)
    → member j (insert k v d) ≡ (member j d || j == k)
member-or j k v d = ground (arith, member-insert j k v d)

or_false : (b c : Bool) → b ≡ (b || (false && c))
or_false b c = ground arith

by_category-members :
    (c : Category) (name n : String) (r : PolicyRecord) (g : Groups)
    → (member n (by_category c name r g).resource_mappings
        ≡ (member n g.resource_mappings || (is_a c && n == name)))
      × (member n (by_category c name r g).behavior_status
          ≡ (member n g.behavior_status || (is_b c && n == name)))
      × (member n (by_category c name r g).metadata
          ≡ (member n g.metadata || (is_c c && n == name)))
      × ((by_category c name r g).unavailable ≡ g.unavailable)
by_category-members category_a name n r g =
    (member-or n name _ g.resource_mappings, or_false _ (n == name), or_false _ (n == name), refl)
by_category-members category_b name n r g =
    (or_false _ (n == name), member-or n name _ g.behavior_status, or_false _ (n == name), refl)
by_category-members category_c name n r g =
    (or_false _ (n == name), or_false _ (n == name), member-or n name _ g.metadata, refl)

contains-append :
    (n : String) (xs : List String) (x : String)
    → contains n (xs ++ (x ∷ [])) ≡ (contains n xs || n == x)
contains-append n [] x = ground arith
contains-append n (y ∷ xs) x = ground (arith, contains-append n xs x)

-- The groups hold exactly what they held before and the policies placed in them.
abbrev Placed :
    (PolicyDefinition → Bool) → List PolicyDefinition → Groups → Groups → String → Type 0
Placed hidden ds g g' n =
    (member n g'.resource_mappings
      ≡ (member n g.resource_mappings || listed (λ d. not (hidden d) && is_a d.category) n ds))
    × (member n g'.behavior_status
        ≡ (member n g.behavior_status || listed (λ d. not (hidden d) && is_b d.category) n ds))
    × (member n g'.metadata
        ≡ (member n g.metadata || listed (λ d. not (hidden d) && is_c d.category) n ds))
    × (contains n g'.unavailable ≡ (contains n g.unavailable || listed hidden n ds))

module _ (records : PolicyDefinition → PolicyRecord) (policies : Dict String PolicyRecord) where
  abbrev AllFound : List PolicyDefinition → Type 0
  AllFound [] = Unit
  AllFound (d ∷ ds) = (lookup d.name policies ≡ some (records d)) × AllFound ds

  abbrev hidden : PolicyDefinition → Bool
  hidden d = (records d).source == "UNAVAILABLE"

  put_record-Placed :
      (d : PolicyDefinition) (ds : List PolicyDefinition) (g g' : Groups) (n : String)
      → Placed hidden ds (put_record d (records d) g) g' n
      → Placed hidden (d ∷ ds) g g' n
  put_record-Placed d ds g g' n p =
      let new = by_category-members d.category d.name n (records d) g in
      elim (Bool-cases (hidden d)) [
        | inl e ↦ ground (arith, contains-append n g.unavailable d.name)
        | inr e ↦ ground arith
      ]

  group_all-Placed :
      (ds : List PolicyDefinition) (g : Groups)
      → AllFound ds
      → (g' : Groups) × (group_all policies ds g ≡ ok g') × ((n : String) → Placed hidden ds g g' n)
  unfolding group_all
  group_all-Placed [] g all = (g, refl, λ n. ground arith)
  group_all-Placed (d ∷ ds) g all =
      let (g', e, p) = group_all-Placed ds (put_record d (records d) g) all.1 in
      (g', rw (group_all, all.0) e, λ n. put_record-Placed d ds g g' n (p n))

module _ (configured applied : Option QosSpec) (source : String)
    (native_policies : Option (Dict String Shown))
    (mapping_overrides : Option (Dict String Mapping)) where
  abbrev record_of : PolicyDefinition → PolicyRecord
  record_of d = build_record configured applied source native_policies mapping_overrides d

  all_found :
      AllFound record_of
        (build_policy_records configured applied source native_policies mapping_overrides)
        dds_qos_policies
  unfolding build_policy_records build_records lookup
  all_found = (
    refl,
    (
      refl,
      (
        refl,
        (
          refl,
          (
            refl,
            (
              refl,
              (
                refl,
                (
                  refl,
                  (
                    refl,
                    (
                      refl,
                      (
                        refl,
                        (
                          refl,
                          (
                            refl,
                            (
                              refl,
                              (refl, (refl, (refl, (refl, (refl, (refl, (refl, (refl, tt)))))))),
                            ),
                          ),
                        ),
                      ),
                    ),
                  ),
                ),
              ),
            ),
          ),
        ),
      ),
    ),
  )

  abbrev pub is_hidden : PolicyDefinition → Bool
  is_hidden d = (record_of d).source == "UNAVAILABLE"

  -- Grouping succeeds, and every name is found in the group of its place and in no other: the
  -- policies whose record has the source UNAVAILABLE are listed as such, and each of the others
  -- is in the group of its category.
  pub compact_policy_groups-places :
      (g : Groups) × (compact_policy_groups configured applied source native_policies
          mapping_overrides
        ≡ ok g)
      × ((n : String)
          → (member n g.resource_mappings
              ≡ listed (λ d. not (is_hidden d) && is_a d.category) n dds_qos_policies)
            × (member n g.behavior_status
                ≡ listed (λ d. not (is_hidden d) && is_b d.category) n dds_qos_policies)
            × (member n g.metadata
                ≡ listed (λ d. not (is_hidden d) && is_c d.category) n dds_qos_policies)
            × (contains n g.unavailable ≡ listed is_hidden n dds_qos_policies))
  unfolding compact_policy_groups build_record member
  compact_policy_groups-places =
      group_all-Placed record_of
        (build_policy_records configured applied source native_policies mapping_overrides)
        dds_qos_policies no_groups all_found
