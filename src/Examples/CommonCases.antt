-- ===== src/Examples/CommonCases.antt =====
-- Nested dictionaries on small inputs.
use one_m2m_dds_ipe.Prelude.{◌≡◌, refl, true, string_equality}
use one_m2m_dds_ipe.Prelude.Int.{pos}
use one_m2m_dds_ipe.Core.Common
use one_m2m_dds_ipe.Core.Common.{
  Value, none_value, number, text, dict, Fields, no_field, field, find, put, get_path, set_path,
  deep_merge, merged,
}
use one_m2m_dds_ipe.Core.Common.Paths.{get_path-set_path}

abbrev twist : Fields
twist =
    field "linear" (dict (field "x" (number (pos 1)) no_field))
      (field "frame" (text "odom") no_field)

abbrev faster : Fields
faster =
    field "linear" (dict (field "y" (number (pos 2)) no_field)) (field "frame" none_value no_field)

-- A text in the way is replaced by a dictionary.
set_path_through_text :
    set_path twist "frame.id" (text "map")
    ≡ field "linear"
        (dict (field "x" (number (pos 1)) no_field))
        (field "frame" (dict (field "id" (text "map") no_field)) no_field)
unfolding set_path Common.set_parts Common.split_dots put Common.dict_or_empty find
set_path_through_text = refl

deep_merge_nested :
    deep_merge twist faster
    ≡ field "linear"
        (dict (field "x" (number (pos 1)) (field "y" (number (pos 2)) no_field)))
        (field "frame" none_value no_field)
unfolding deep_merge put find
deep_merge_nested = refl

get_path-set_path_example :
    get_path (set_path twist "frame.id" (text "map")) "frame.id" ≡ (true, text "map")
get_path-set_path_example = get_path-set_path twist "frame.id" (text "map")
