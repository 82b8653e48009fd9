-- ===== src/Core/Common.antt =====
-- Nested dictionaries, src/ipe/core/common.py: `deep_merge`, `get_path` and `set_path`. A
-- dictionary is a tree of values, as JSON gives it: no part of it is shared.
pub mod Paths
pub mod Merge
use Prim.Native.Char.{Char, code}
use one_m2m_dds_ipe.Prelude.{
  String, Bool, true, false, Option, none, some, List, [], ◌∷◌, nat_eq, if◌then◌else◌, ◌==◌,
  string_equality,
}
use one_m2m_dds_ipe.Prelude.Int.{ℤ}

-- The values of JSON; a number with a fraction is given by its text.
mutual
  pub data Value : Type 0 where
    none_value : Value
    truth : Bool → Value
    number : ℤ → Value
    float : String → Value
    text : String → Value
    items : Items → Value
    dict : Fields → Value

  pub data Items : Type 0 where
    no_item : Items
    item : Value → Items → Items

  pub data Fields : Type 0 where
    no_field : Fields
    field : String → Value → Fields → Fields

-- `d.get(key)`, and whether there is such a key.
unfoldable pub find : String → Fields → Option Value
find key no_field = none
find key (field k v d) = if key == k then some v else find key d

-- `d[key] = value`, which keeps the place of a key that is there.
unfoldable pub put : String → Value → Fields → Fields
put key value no_field = field key value no_field
put key value (field k v d) = if key == k then field k value d else field k v (put key value d)

-- `path.split(".")`, which has a first part: for the empty path, the empty string.
unfoldable pub split_dots : String → String × List String
split_dots String.[] = (String.[], [])
split_dots (String.◌∷◌ c s) =
    let (first, rest) = split_dots s in
    if nat_eq (code c) b'.' then (String.[], first ∷ rest) else (String.◌∷◌ c first, rest)

-- The loop of `get_path`: whether the value is there, and the value.
unfoldable pub get_parts : Value → List String → Bool × Value
get_parts cur [] = (true, cur)
get_parts (dict d) (part ∷ parts) = elim (find part d) [
  | none ↦ (false, none_value)
  | some v ↦ get_parts v parts
]
get_parts cur (part ∷ parts) = (false, none_value)

unfoldable pub get_path : Fields → String → Bool × Value
get_path d path = let (first, rest) = split_dots path in get_parts (dict d) (first ∷ rest)

-- What the loop of `set_path` goes on with: a node that is no dictionary is replaced by one.
unfoldable pub dict_or_empty : Option Value → Fields
dict_or_empty (some (dict d)) = d
dict_or_empty v = no_field

-- The loop of `set_path`, with the dictionary as it is afterwards.
unfoldable pub set_parts : Fields → String → List String → Value → Fields
set_parts d part [] value = put part value d
set_parts d part (next ∷ parts) value =
    put part (dict (set_parts (dict_or_empty (find part d)) next parts value)) d

unfoldable pub set_path : Fields → String → Value → Fields
set_path d path value = let (first, rest) = split_dots path in set_parts d first rest value

unfoldable mutual
  -- The loop of `deep_merge` over the entries of `over`, from the copy `out` of `base`.
  pub deep_merge : Fields → Fields → Fields
  deep_merge out no_field = out
  deep_merge out (field k v over) = deep_merge (put k (merged (find k out) v) out) over

  -- What a key gets: two dictionaries are merged, else the new value wins.
  pub merged : Option Value → Value → Value
  merged (some (dict old)) (dict new) = dict (deep_merge old new)
  merged old new = new

-- The comprehension of `project_top_level`, with what it has collected.
unfoldable pub project_onto : Fields → Fields → List String → Fields
project_onto out d [] = out
project_onto out d (name ∷ names) = elim (find name d) [
  | none ↦ project_onto out d names
  | some v ↦ project_onto (put name v out) d names
]

-- `project_top_level`, if it is not strict.
unfoldable pub project_top_level : Fields → List String → Fields
project_top_level d names = project_onto no_field d names
