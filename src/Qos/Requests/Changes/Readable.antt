-- ===== src/Qos/Requests/Changes/Readable.antt =====
-- A translated set of changes is one that `parse_cf_update` reads.
use one_m2m_dds_ipe.Prelude.{
  String, ◌≡◌, ◌≢◌, Bool, true, false, ◌&&◌, List, [], ◌∷◌, contains, string_equality,
}
use one_m2m_dds_ipe.Prelude.Dict.{Dict}
use one_m2m_dds_ipe.Qos.Requests.{Scalar}
use one_m2m_dds_ipe.Qos.Requests.Changes.{Translated, refused, translated, is_null_at}

abbrev pub cf_keys : List String
cf_keys = "cfRlb" ∷ "cfDrb" ∷ "cfHst" ∷ "cfLiv" ∷ "cfDdl" ∷ "cfLsp" ∷ "cfLse" ∷ "cfDpt" ∷ []

abbrev pub is_cf : String → Bool
is_cf sn = contains sn cf_keys

abbrev pub all_keys : (String → Bool) → Dict String Scalar → Bool
all_keys test [] = true
all_keys test ((k, v) ∷ m) = test k && all_keys test m

abbrev all_values : (String → Bool) → Dict String String → Bool
all_values test [] = true
all_values test ((k, v) ∷ d) = test v && all_values test d

-- Only known keys, if it succeeds.
abbrev AllCf : Translated → Type 0
AllCf (refused r) = Unit
AllCf (translated m) = all_keys is_cf m ≡ true

abbrev Readable : Dict String Scalar → Type 0
Readable m =
    (m ≢ [])
    × (all_keys is_cf m ≡ true)
    × (is_null_at "cfHst" m ≡ false)
    × (is_null_at "cfLiv" m ≡ false)

abbrev IsReadable : Translated → Type 0
IsReadable (refused r) = Unit
IsReadable (translated m) = Readable m
