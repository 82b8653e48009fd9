-- ===== src/Outbound/Codec/Legacy.antt =====
-- Rows from before the payload named the operation's identity.
use Prim.Native.Char.{code}
use Prim.Native.String.append
use Prim.Native.String.{◌++◌ as ◌^◌}
use one_m2m_dds_ipe.Prelude.{
  ℕ, suc, String, ◌≡◌, ap, ◌∙◌, Bool, true, false, Option, none, some, [], ◌∷◌, arith, nat_eq,
  string_equality, if◌then◌else◌, Option-cases, inl, inr,
}
use one_m2m_dds_ipe.Prelude.Result.{Result, ok}
use one_m2m_dds_ipe.Core.Common.{Value, none_value, Fields, find}
use one_m2m_dds_ipe.Vocab.{OutboundClass}
use one_m2m_dds_ipe.Queues.Outbound.Ops.{Op, attribute}
use one_m2m_dds_ipe.Outbound.{spool_key}
use one_m2m_dds_ipe.Outbound.Codec.{as_text, decode_data, get, split_colons, identity, str}

abbrev pub has_colon : String → Bool
has_colon String.[] = false
has_colon (String.◌∷◌ c s) = if nat_eq (code c) b':' then true else has_colon s

colon-append : (rest : String) → ":" ^ rest ≡ String.◌∷◌ ":" rest
colon-append rest = append.cons ":" "" rest ∙ ap (String.◌∷◌ ":") (append.nil rest)

split_colons-colon :
    (k : ℕ) (rest : String)
    → split_colons (suc k) (String.◌∷◌ ":" rest)
      ≡ ("", (split_colons k rest).0 ∷ (split_colons k rest).1)
unfolding split_colons
split_colons-colon k rest = ground arith

split_colons-append :
    (k : ℕ) (s rest : String)
    → has_colon s ≡ false
    → split_colons (suc k) (s ^ (":" ^ rest))
      ≡ (s, (split_colons k rest).0 ∷ (split_colons k rest).1)
unfolding split_colons
split_colons-append k String.[] rest h =
    ap (split_colons (suc k)) (append.nil (":" ^ rest) ∙ colon-append rest)
    ∙ split_colons-colon k rest
split_colons-append k (String.◌∷◌ c s) rest h =
    ap (split_colons (suc k)) (append.cons c s (":" ^ rest))
    ∙ ground (arith, split_colons-append k s rest)

-- The fields that name the identity are not there.
abbrev pub IsLegacy : Fields → Type 0
IsLegacy d = (find "robot_id" d ≡ none) × (find "interface" d ≡ none) × (find "view" d ≡ none)

identity-spool_key :
    (robot interface view path : String)
    → has_colon robot ≡ false
    → has_colon interface ≡ false
    → identity (some (robot ^ (":" ^ (interface ^ (":" ^ view))))) path ≡ (robot, interface, view)
unfolding identity split_colons
identity-spool_key robot interface view path r i =
    let first = split_colons-append 1 robot (interface ^ (":" ^ view)) r in
    let second = split_colons-append 0 interface view i in ground (arith, first, second)

module _ (to_float : Value → Result (Option ℕ)) (repr : Value → String) where
  decoded-identity :
      (d : Fields) (c : OutboundClass) (key : Option String) (op : Op)
      (robot interface view : String)
      → IsLegacy d
      → ((path : String) → identity key path ≡ (robot, interface, view))
      → decode_data to_float repr d c key ≡ ok op
      → op.attributes
        ≡ ("robot_id", some robot) ∷ ("interface", some interface) ∷ ("view", some view) ∷ []
  unfolding decode_data get str
  decoded-identity d c key op robot interface view (r, i, v) same h =
      elim (Option-cases (as_text (get "path" none_value d))) [
        | inl e ↦ absurd (ground arith)
        | inr (path, e) ↦ ground (arith, same path)
      ]

  -- If a row's payload does not name the operation's identity, and can be decoded, the operation's
  -- robot, interface and view are those that the row's key was made of, provided that the robot and
  -- the interface have no colon.
  pub decode_data-spool_key :
      (d : Fields) (c : OutboundClass) (old op : Op) (robot interface view : String)
      → IsLegacy d
      → attribute old "robot_id" none ≡ some robot
      → attribute old "interface" none ≡ some interface
      → attribute old "view" none ≡ some view
      → has_colon robot ≡ false
      → has_colon interface ≡ false
      → decode_data to_float repr d c (some (spool_key old)) ≡ ok op
      → op.attributes
        ≡ ("robot_id", some robot) ∷ ("interface", some interface) ∷ ("view", some view) ∷ []
  unfolding spool_key
  decode_data-spool_key d c old op robot interface view legacy r i v r_plain i_plain h =
      decoded-identity d c (some (spool_key old)) op robot interface view legacy
        (λ path. ground (arith, identity-spool_key robot interface view path r_plain i_plain)) h
