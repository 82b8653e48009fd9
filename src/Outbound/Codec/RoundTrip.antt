-- ===== src/Outbound/Codec/RoundTrip.antt =====
-- What is stored of an operation is enough to replay it.
use one_m2m_dds_ipe.Prelude.{
  ℕ, String, ◌≡◌, true, Option, some, [], ◌∷◌, arith, ◌==◌, string_equality, inl, inr, Option-cases,
}
use one_m2m_dds_ipe.Prelude.Int.{pos}
use one_m2m_dds_ipe.Prelude.Dict.{lookup}
use one_m2m_dds_ipe.Prelude.Result.{Result, ok}
use one_m2m_dds_ipe.Core.Common.{Value, dict, number, none_value, find}
use one_m2m_dds_ipe.Queues.Outbound.Ops.{Op, Body, attribute}
use one_m2m_dds_ipe.Outbound.Codec.{
  as_fields, encode_operation, decode_operation, decode_data, get, as_text, as_dict, is_list,
  time_of, str, text_or_null, time_or_null,
}

-- An operation with its three attributes.
abbrev pub op_of : String → String → String → Body → Op
op_of robot interface view body = record {
  attributes = ("robot_id", some robot) ∷ ("interface", some interface) ∷ ("view", some view) ∷ [];
  body = body;
}

-- A label update has a list of labels.
abbrev pub HasLabels : Body → Type 0
HasLabels b = (b.kind == "update_lbl") ≡ true → is_list (get "labels" none_value b.content) ≡ true

module _ (to_float : Value → Result (Option ℕ)) (repr : Value → String)
    (converts : (t : ℕ) → to_float (number (pos t)) ≡ ok (some t)) where
  decode_data-as_fields :
      (robot interface view : String) (b : Body) (key : Option String)
      → HasLabels b
      → decode_data to_float repr (as_fields (op_of robot interface view b)) b.queue_class key
        ≡ ok (op_of robot interface view b)
  unfolding decode_data as_fields get find as_text as_dict time_of str text_or_null time_or_null
      attribute lookup
  decode_data-as_fields robot interface view b key labels = elim (Option-cases b.expires_at) [
    | inl e ↦ ground (arith, labels)
    | inr (t, e) ↦ ground (arith, labels, converts t)
  ]

  -- Where `json.loads` gives back what `json.dumps` has written, decoding what `encode_operation`
  -- stores, with the row's class, gives the operation back, whatever the row's key; a label
  -- update must hold a list of labels.
  pub decode_operation-encode_operation :
      (dumps : Value → String) (loads : String → Result Value) (robot interface view : String)
      (b : Body) (key : Option String)
      → let op = op_of robot interface view b in
        loads (dumps (dict (as_fields op))) ≡ ok (dict (as_fields op))
        → HasLabels b
        → decode_operation to_float repr loads (encode_operation dumps op) b.queue_class key ≡ ok op
  unfolding decode_operation encode_operation as_dict
  decode_operation-encode_operation dumps loads robot interface view b key back labels =
      ground (arith, decode_data-as_fields robot interface view b key labels)
