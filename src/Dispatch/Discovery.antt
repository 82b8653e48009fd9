-- ===== src/Dispatch/Discovery.antt =====
-- src/ipe/runtime/discovery.py: waiting for a stable ROS graph. What each poll sees is an
-- argument: the snapshot, and whether the deadline has passed by then.
pub mod Convergence
use Prim.Native.String.{compare}
use text.Mathlib.Text.{is_lt}
use one_m2m_dds_ipe.Prelude.{
  ℕ, suc, ◌+◌, String, Bool, true, false, not, ◌&&◌, ◌||◌, Option, none, some, List, [], ◌∷◌,
  length, leb, ltb, if◌then◌else◌, ◌==◌, string_equality, pair_equality, list_equality, Equality,
}
use one_m2m_dds_ipe.Prelude.Order.{text_lt}
use one_m2m_dds_ipe.Prelude.Sorting.{sorted}
use one_m2m_dds_ipe.Prelude.Result.{Result, ok, err, value_error, runtime_error}

abbrev pub Entries : Type 0
Entries = List (String × List String)

pub record Snapshot : Type 0 where
  pub topics : Entries
  pub services : Entries
  pub actions : Entries
  pub topic_directions : List (String × String)
  pub topic_owners : Entries
  pub service_owners : Entries
  pub action_owners : Entries

-- Python's order on tuples and lists of strings.
unfoldable pub list_lt : List String → List String → Bool
list_lt [] [] = false
list_lt [] (y ∷ ys) = true
list_lt (x ∷ xs) [] = false
list_lt (x ∷ xs) (y ∷ ys) = let rest = list_lt xs ys in is_lt (compare x y) || (x == y && rest)

unfoldable pub entry_lt : String × List String → String × List String → Bool
entry_lt (a, xs) (b, ys) = is_lt (compare a b) || (a == b && list_lt xs ys)

unfoldable pub direction_lt : String × String → String × String → Bool
direction_lt (a, x) (b, y) = is_lt (compare a b) || (a == b && is_lt (compare x y))

abbrev sort_names : Entries → Entries
sort_names [] = []
sort_names ((name, names) ∷ entries) = (name, sorted text_lt names) ∷ sort_names entries

abbrev sort_entries : Entries → Entries
sort_entries entries = sorted entry_lt (sort_names entries)

abbrev pub Fingerprint : Type 0
Fingerprint = List Entries × List (String × String)

unfoldable pub graph_fingerprint : Snapshot → Fingerprint
graph_fingerprint s = (
  sort_entries s.topics
      ∷ sort_entries s.services
      ∷ sort_entries s.actions
      ∷ sort_entries s.topic_owners
      ∷ sort_entries s.service_owners
      ∷ sort_entries s.action_owners
      ∷ [],
  sorted direction_lt s.topic_directions,
)

unfoldable pub application_interface_count : Snapshot → ℕ
application_interface_count s = length s.topics + (length s.services + length s.actions)

pub record Poll : Type 0 where
  pub seen : Snapshot
  pub deadline_passed : Bool

pub data Awaited : Type 0 where
  discovered : Snapshot → ℕ → ℕ → Awaited
  raised : Awaited
  -- the polls are used up, and the loop would go on
  polling : Awaited

abbrev pub same_as : Fingerprint → Option Fingerprint → Bool
same_as f none = false
same_as f (some g) = f == g

abbrev pub next_stable : Snapshot → Option Fingerprint → ℕ → ℕ
next_stable s previous stable =
    if ltb 0 (application_interface_count s)
    then (if same_as (graph_fingerprint s) previous then suc stable else 1)
    else 0

unfoldable pub await_loop : ℕ → List Poll → Option Fingerprint → ℕ → ℕ → Awaited
await_loop stable_polls [] previous stable samples = polling
await_loop stable_polls (p ∷ polls) previous stable samples =
    let now_stable = next_stable p.seen previous stable in
    let go_on =
      await_loop stable_polls polls (some (graph_fingerprint p.seen)) now_stable (suc samples) in
    if leb stable_polls now_stable
    then discovered p.seen (suc samples) now_stable
    else if p.deadline_passed
    then raised
    else go_on

unfoldable pub await_graph_convergence : ℕ → List Poll → Result Awaited
await_graph_convergence stable_polls polls =
    if ltb stable_polls 1 then err value_error else ok (await_loop stable_polls polls none 0 0)
