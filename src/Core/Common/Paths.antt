-- ===== src/Core/Common/Paths.antt =====
-- `get_path` after `set_path`, at the path and beside it.
use one_m2m_dds_ipe.Prelude.{
  String, ◌≡◌, ◌⊎◌, subst, refl, ap, sym, ◌∙◌, Bool, true, false, Option, none, some, List, [], ◌∷◌,
  if◌then◌else◌, ◌==◌, string_equality, ==_refl, ==_cases, arith, Option-cases, inl, inr,
}
use one_m2m_dds_ipe.Core.Common.{
  Value, none_value, truth, number, float, text, items, dict, Fields, no_field, field, find, put,
  split_dots, get_parts, get_path, dict_or_empty, set_parts, set_path,
}

pub find-put :
    (j k : String) (v : Value) (d : Fields)
    → find j (put k v d) ≡ (if j == k then some v else find j d)
unfolding find put
find-put j k v no_field = refl
find-put j k v (field i w d) = ground (
  arith,
  find-put j k v d,
  string_equality.equals_iff j k,
  string_equality.equals_iff k i,
  string_equality.equals_iff j i,
)

-- Neither path is a beginning of the other.
unfoldable pub diverge : List String → List String → Bool
diverge (p ∷ ps) (q ∷ qs) = if p == q then diverge ps qs else true
diverge ps qs = false

find-put_same : (part : String) (w : Value) (d : Fields) → find part (put part w d) ≡ some w
find-put_same part w d = find-put part part w d ∙ rw (==_refl part) refl

-- What `get_parts` does with what is found at the first part.
abbrev below : Option Value → List String → Bool × Value
below none parts = (false, none_value)
below (some v) parts = get_parts v parts

get_parts-below :
    (d : Fields) (part : String) (parts : List String)
    → get_parts (dict d) (part ∷ parts) ≡ below (find part d) parts
unfolding get_parts
get_parts-below d part parts = elim (Option-cases (find part d)) [
  | inl h ↦ ground arith
  | inr (v, h) ↦ ground arith
]

get_parts-put :
    (d : Fields) (part : String) (parts : List String) (w : Value)
    → get_parts (dict (put part w d)) (part ∷ parts) ≡ get_parts w parts
get_parts-put d part parts w =
    get_parts-below (put part w d) part parts ∙ ap (λ o. below o parts) (find-put_same part w d)

get_parts-nil : (v : Value) → get_parts v [] ≡ (true, v)
unfolding get_parts
get_parts-nil v = refl

get_parts-set_parts :
    (d : Fields) (part : String) (parts : List String) (v : Value)
    → get_parts (dict (set_parts d part parts v)) (part ∷ parts) ≡ (true, v)
unfolding set_parts
get_parts-set_parts d part [] v = get_parts-put d part [] v ∙ get_parts-nil v
get_parts-set_parts d part (next ∷ parts) v =
    get_parts-put d part (next ∷ parts)
      (dict (set_parts (dict_or_empty (find part d)) next parts v))
    ∙ get_parts-set_parts (dict_or_empty (find part d)) next parts v

-- What is set at a path is what is got at that path.
pub get_path-set_path :
    (d : Fields) (path : String) (value : Value)
    → get_path (set_path d path value) path ≡ (true, value)
unfolding get_path set_path
get_path-set_path d path value =
    let (first, rest) = split_dots path in get_parts-set_parts d first rest value

-- A part below a node that is no dictionary is not found, as below an empty dictionary.
below-dict_or_empty :
    (o : Option Value) (part : String) (parts : List String)
    → get_parts (dict (dict_or_empty o)) (part ∷ parts) ≡ below o (part ∷ parts)
unfolding get_parts dict_or_empty find
below-dict_or_empty none part parts = refl
below-dict_or_empty (some none_value) part parts = refl
below-dict_or_empty (some (truth b)) part parts = refl
below-dict_or_empty (some (number n)) part parts = refl
below-dict_or_empty (some (float s)) part parts = refl
below-dict_or_empty (some (text s)) part parts = refl
below-dict_or_empty (some (items xs)) part parts = refl
below-dict_or_empty (some (dict d)) part parts = refl

put-beside :
    (d : Fields) (part other : String) (others : List String) (w : Value)
    → (other == part) ≡ false
    → get_parts (dict (put part w d)) (other ∷ others) ≡ get_parts (dict d) (other ∷ others)
put-beside d part other others w h =
    get_parts-below (put part w d) other others
    ∙ ap (λ o. below o others)
        (find-put other part w d ∙ ap (λ b. if b then some w else find other d) h)
    ∙ sym (get_parts-below d other others)

diverge-apart :
    (p : String) (ps : List String) (q : String) (qs : List String)
    → diverge (p ∷ ps) (q ∷ qs) ≡ true
    → ((q == p) ≡ false) ⊎ ((p ≡ q) × (diverge ps qs ≡ true))
unfolding diverge
diverge-apart p ps q qs h = elim (==_cases q p) [
  | inr (e, _) ↦ inl e
  | inl (e, same) ↦ inr (sym same, ground (arith, string_equality.equals_iff p q))
]

diverge-nil : (qs : List String) → diverge [] qs ≡ true → ⊥
unfolding diverge
diverge-nil qs e = ground arith

diverge-cons : (p : String) (ps : List String) → diverge (p ∷ ps) [] ≡ true → ⊥
unfolding diverge
diverge-cons p ps e = ground arith

get_parts-beside :
    (d : Fields) (part : String) (parts : List String) (other : String) (others : List String)
    (v : Value)
    → diverge (part ∷ parts) (other ∷ others) ≡ true
    → get_parts (dict (set_parts d part parts v)) (other ∷ others)
      ≡ get_parts (dict d) (other ∷ others)
unfolding set_parts
get_parts-beside d part [] other others v h = elim (diverge-apart part [] other others h) [
  | inl e ↦ put-beside d part other others v e
  | inr (_, e) ↦ absurd (diverge-nil others e)
]
get_parts-beside d part (next ∷ parts) other [] v h =
    let inner = dict (set_parts (dict_or_empty (find part d)) next parts v) in
    elim (diverge-apart part (next ∷ parts) other [] h) [
      | inl e ↦ put-beside d part other [] inner e
      | inr (_, e) ↦ absurd (diverge-cons next parts e)
    ]
get_parts-beside d part (next ∷ parts) other (second ∷ seconds) v h =
    let old = dict_or_empty (find part d) in
    let inner = dict (set_parts old next parts v) in
    elim (diverge-apart part (next ∷ parts) other (second ∷ seconds) h) [
      | inl e ↦ put-beside d part other (second ∷ seconds) inner e
      | inr (same, e) ↦
          subst
            (λ q.
              get_parts (dict (put part inner d)) (q ∷ second ∷ seconds)
              ≡ get_parts (dict d) (q ∷ second ∷ seconds))
            same
            (get_parts-put d part (second ∷ seconds) inner
              ∙ get_parts-beside old next parts second seconds v e
              ∙ below-dict_or_empty (find part d) second seconds
              ∙ sym (get_parts-below d part (second ∷ seconds)))
    ]

abbrev parts_of : String → List String
parts_of path = let (first, rest) = split_dots path in first ∷ rest

-- Setting a value at a path changes nothing at a path that leaves it before either ends.
pub get_path-beside :
    (d : Fields) (path other : String) (value : Value)
    → diverge (parts_of path) (parts_of other) ≡ true
    → get_path (set_path d path value) other ≡ get_path d other
unfolding get_path set_path
get_path-beside d path other value h =
    let (part, parts) = split_dots path in
    let (first, rest) = split_dots other in get_parts-beside d part parts first rest value h
