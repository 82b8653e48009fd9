-- ===== src/State/KeyValue.antt =====
-- The key-value table of src/ipe/runtime/state.py, the table `kv`. A value stands for its JSON
-- text: the code stores only values that JSON gives back.
use one_m2m_dds_ipe.Prelude.{String, Bool, none, some, string_equality}
use one_m2m_dds_ipe.Prelude.Dict.{Dict, lookup, member, insert, erase}

module _ {ℓ} {V : Type ℓ} where
  unfoldable pub set_kv : String → V → Dict String V → Dict String V
  set_kv key value kv = insert key value kv

  unfoldable pub get_kv : String → V → Dict String V → V
  get_kv key default kv = elim (lookup key kv) [ none ↦ default | some v ↦ v ]

  -- `rowcount == 1`: whether there was such a key
  unfoldable pub delete_kv : String → Dict String V → Dict String V × Bool
  delete_kv key kv = (erase key kv, member key kv)
