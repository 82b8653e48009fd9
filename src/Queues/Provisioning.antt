-- ===== src/Queues/Provisioning.antt =====
-- `ProvisioningQueue` of src/ipe/runtime/queues.py: one pending job for each kind. The queue is
-- an `OrderedDict`, so a job that replaces another keeps its place.
pub mod Pending
use one_m2m_dds_ipe.Prelude.{
  ℕ, String, Bool, true, false, not, Option, none, some, List, [], ◌∷◌, length, if◌then◌else◌,
  Equality, ◌==◌, contains, string_equality,
}
use one_m2m_dds_ipe.Prelude.Dict.{Dict, lookup, insert}
use one_m2m_dds_ipe.Prelude.Result.{Result, ok, err, value_error, type_error, empty_queue, ◌>>=◌}

abbrev pub kinds : List String
kinds =
    "recover" ∷ "reconcile" ∷ "catchup" ∷ "reconcile_discovery" ∷ "remove_interfaces" ∷ "cleanup"
    ∷ []

-- A job's argument: the list of pairs of "remove_interfaces", or that of another kind.
pub data Argument {ℓ} (A : Type ℓ) : Type ℓ where
  removals : Dict String A → Argument A
  other : A → Argument A

abbrev pub ProvisioningQueue {ℓ} : Type ℓ → Type ℓ
ProvisioningQueue A = Dict String (Argument A)

module _ {ℓ} {A : Type ℓ} where
  -- `merged.update(arg)`, for a list of pairs
  unfoldable pub update : Dict String A → Dict String A → Dict String A
  update merged [] = merged
  update merged ((k, v) ∷ arg) = update (insert k v merged) arg

  -- `dict(self._pending.get(job, []))`
  unfoldable pub pending_removals : Option (Argument A) → Dict String A
  pending_removals (some (removals old)) = update [] old
  pending_removals _ = []

  -- Only a list of pairs can update a dict.
  unfoldable pub merge : Option (Argument A) → Argument A → Result (Argument A)
  unfolding pending_removals
  merge old (removals new) = ok (removals (update (pending_removals old) new))
  merge old (other a) = err type_error

  unfoldable pub put : String → Argument A → ProvisioningQueue A → Result (ProvisioningQueue A)
  put job arg q =
      if not (contains job kinds)
      then err value_error
      else if job == "remove_interfaces"
      then (do merged ← merge (lookup job q) arg; ok (insert job merged q))
      else ok (insert job arg q)

  -- `popitem(last=False)`, or `Empty` once the wait has timed out with nothing pending
  unfoldable pub get : ProvisioningQueue A → Result ((String × Argument A) × ProvisioningQueue A)
  get [] = err empty_queue
  get (item ∷ q) = ok (item, q)

  unfoldable pub qsize : ProvisioningQueue A → ℕ
  qsize q = length q
