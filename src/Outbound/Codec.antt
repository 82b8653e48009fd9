-- ===== src/Outbound/Codec.antt =====
-- `encode_operation` and `decode_operation` of src/ipe/runtime/outbound.py. What `json.dumps` and
-- `json.loads` do with texts is an argument; so are `float`, and `str` on what is no text.
pub mod RoundTrip
pub mod Legacy
use Prim.Native.Char.{Char, code}
use Prim.Native.String.{◌++◌ as ◌^◌}
use one_m2m_dds_ipe.Prelude.{
  ℕ, zero, suc, String, Bool, true, false, not, ◌&&◌, Option, none, some, List, [], ◌∷◌, nat_eq,
  if◌then◌else◌, ◌==◌, string_equality,
}
use one_m2m_dds_ipe.Prelude.Int.{ℤ, pos, negsuc}
use one_m2m_dds_ipe.Prelude.Result.{Result, ok, err, value_error, ◌>>=◌}
use one_m2m_dds_ipe.Core.Common.{
  Value, none_value, truth, number, float, text, items, dict, Fields, field, no_field, find,
}
use one_m2m_dds_ipe.Vocab.{OutboundClass}
use one_m2m_dds_ipe.Queues.Outbound.Ops.{Op, Body, attribute}
use one_m2m_dds_ipe.Outbound.{class_text}

-- A text or None, as JSON has it.
unfoldable pub text_or_null : Option String → Value
text_or_null none = none_value
text_or_null (some s) = text s

unfoldable pub time_or_null : Option ℕ → Value
time_or_null none = none_value
time_or_null (some t) = number (pos t)

-- `asdict(op)`
unfoldable pub as_fields : Op → Fields
as_fields op =
    let b = op.body in
    field "kind" (text b.kind) (
      field "path" (text b.path) (
        field "content" (dict b.content) (
          field "robot_id" (text_or_null (attribute op "robot_id" none)) (
            field "interface" (text_or_null (attribute op "interface" none)) (
              field "view" (text_or_null (attribute op "view" none)) (
                field "queue_class" (text (class_text b.queue_class)) (
                  field "oversized" b.oversized (
                    field "rn" b.rn (
                      field "anomalous" b.anomalous (
                        field "et" b.et
                          (field "expires_at" (time_or_null b.expires_at) no_field)))))))))))

unfoldable pub encode_operation : (Value → String) → Op → String
encode_operation dumps op = dumps (dict (as_fields op))

-- `d.get(key, default)`
unfoldable pub get : String → Value → Fields → Value
get key default d = elim (find key d) [ none ↦ default | some v ↦ v ]

-- `isinstance(v, str)`, with the text.
unfoldable pub as_text : Value → Option String
as_text (text s) = some s
as_text v = none

-- `isinstance(v, dict)`, with the entries.
unfoldable pub as_dict : Value → Option Fields
as_dict (dict d) = some d
as_dict v = none

unfoldable pub is_list : Value → Bool
is_list (items vs) = true
is_list v = false

-- `s.split(":", k)`, which has a first part.
unfoldable pub split_colons : ℕ → String → String × List String
split_colons zero s = (s, [])
split_colons (suc k) String.[] = (String.[], [])
split_colons (suc k) (String.◌∷◌ c s) =
    let (next, later) = split_colons k s in
    let (first, rest) = split_colons (suc k) s in
    if nat_eq (code c) b':' then (String.[], next ∷ later) else (String.◌∷◌ c first, rest)

abbrev three : String → String × List String → String × String × String
three path (robot, interface ∷ view ∷ []) = (robot, interface, view)
three path parts = ("-", path, "-")

-- The robot, the interface and the view of a row whose payload does not name them.
unfoldable pub identity : Option String → String → String × String × String
identity none path = three path (split_colons 2 "")
identity (some key) path = three path (split_colons 2 key)

-- What `float` gives is a time, in milliseconds, or none if it is not finite; `repr` is what `str`
-- gives for a value that is no text.
module _ (to_float : Value → Result (Option ℕ)) (repr : Value → String) where
  unfoldable pub time_of : Value → Result (Option ℕ)
  time_of none_value = ok none
  time_of v = to_float v >>= λ t. elim t [ none ↦ err value_error | some t ↦ ok (some t) ]

  -- `str(v)`
  unfoldable pub str : Value → String
  str (text s) = s
  str v = repr v

  unfoldable pub decode_data : Fields → OutboundClass → Option String → Result Op
  decode_data d queue_class legacy_key = elim (as_text (get "kind" (text "create_cin") d)) [
    | none ↦ err value_error
    | some kind ↦ elim (as_text (get "path" none_value d)) [
      | none ↦ err value_error
      | some path ↦ elim (as_dict (get "content" none_value d)) [
        | none ↦ err value_error
        | some content ↦
            if (kind == "update_lbl") && not (is_list (get "labels" none_value content))
            then err value_error
            else elim (time_of (get "expires_at" none_value d)) [
              | err e ↦ err e
              | ok expires_at ↦
                  let (robot, interface, view) = identity legacy_key path in
                  ok (record {
                    attributes =
                        ("robot_id", some (str (get "robot_id" (text robot) d)))
                        ∷ ("interface", some (str (get "interface" (text interface) d)))
                        ∷ ("view", some (str (get "view" (text view) d)))
                        ∷ [];
                    body = record {
                      kind = kind;
                      path = path;
                      content = content;
                      queue_class = queue_class;
                      oversized = get "oversized" (truth false) d;
                      rn = get "rn" none_value d;
                      anomalous = get "anomalous" (truth false) d;
                      et = get "et" none_value d;
                      expires_at = expires_at;
                    };
                  })
            ]
      ]
    ]
  ]

  unfoldable pub decode_operation :
      (String → Result Value) → String → OutboundClass → Option String → Result Op
  decode_operation loads payload queue_class legacy_key = loads payload >>= λ data_.
      elim (as_dict data_) [
        | none ↦ err value_error
        | some d ↦ decode_data d queue_class legacy_key
      ]
