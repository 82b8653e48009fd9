-- ===== src/State/Spool.antt =====
-- The spool of outbound operations, src/ipe/runtime/state.py: the table `spool`, in the order of
-- its ids.
pub mod Order
pub mod Trim
pub mod Limits
use Prim.Native.String.{len}
use one_m2m_dds_ipe.Prelude.{
  ℕ, zero, suc, ◌+◌, ◌-◌, ◌*◌, String, Bool, true, false, not, ◌&&◌, ◌||◌, Option, none, some, List,
  [], ◌∷◌, ◌++◌, length, take, keep, leb, ltb, nat_eq, contains, if◌then◌else◌, ◌==◌,
  string_equality, nat_equality,
}
use one_m2m_dds_ipe.Prelude.Result.{Result, ok, err, value_error}
use one_m2m_dds_ipe.Vocab.{OutboundClass, terminal, observe_latest, observe_bulk, outbound_classes}

pub record SpoolRow : Type 0 where
  pub id : ℕ
  pub class_ : OutboundClass
  pub key : Option String
  pub payload : String
  pub nbytes : ℕ
  pub ts : ℕ

pub record Spool : Type 0 where
  pub rows : List SpoolRow
  pub next_id : ℕ  -- AUTOINCREMENT

abbrev pub empty : Spool
empty = record { rows = []; next_id = 1 }

-- `self.max_spool_entries` and `self.max_spool_bytes`
pub record SpoolLimits : Type 0 where
  pub max_spool_entries : ℕ
  pub max_spool_bytes : ℕ

-- The part of `__init__` that sets the limits.
unfoldable pub init_limits : ℕ → ℕ → Result SpoolLimits
init_limits max_spool_entries max_spool_mb =
    if ltb max_spool_entries 1
    then err value_error
    else if ltb max_spool_mb 1
    then err value_error
    else ok (record {
      max_spool_entries = max_spool_entries;
      max_spool_bytes = max_spool_mb * 1024 * 1024;
    })

-- `COALESCE(SUM(nbytes), 0)`
unfoldable pub sum_nbytes : List SpoolRow → ℕ
sum_nbytes [] = 0
sum_nbytes (r ∷ rows) = r.nbytes + sum_nbytes rows

-- The variables of `_trim_spool`.
pub record Trimming : Type 0 where
  pub count : ℕ
  pub total : ℕ
  pub dropped : ℕ
  pub last_id : ℕ

unfoldable pub over_limits : SpoolLimits → ℕ → ℕ → Bool
over_limits limits count total =
    ltb 1 count && (ltb limits.max_spool_entries count || ltb limits.max_spool_bytes total)

-- The inner loop, over the rows of one batch.
unfoldable pub trim_batch : SpoolLimits → List SpoolRow → Trimming → Trimming
trim_batch limits [] v = v
trim_batch limits (r ∷ batch) v =
    let rest = trim_batch limits batch (record {
      count = v.count - 1;
      total = v.total - r.nbytes;
      dropped = suc v.dropped;
      last_id = r.id;
    }) in
    if over_limits limits v.count v.total then rest else v

-- `SELECT id, nbytes FROM spool WHERE id > ? ORDER BY id LIMIT 256`
unfoldable pub select_batch : ℕ → List SpoolRow → List SpoolRow
select_batch last_id rows = take 256 (keep (λ r. ltb last_id r.id) rows)

-- The outer loop. A round drops a row at least, so as many rounds as rows are enough.
unfoldable pub trim_loop : ℕ → SpoolLimits → List SpoolRow → Trimming → Trimming
trim_loop zero limits rows v = v
trim_loop (suc fuel) limits rows v =
    let rest = trim_loop fuel limits rows (trim_batch limits (select_batch v.last_id rows) v) in
    if over_limits limits v.count v.total then rest else v

unfoldable pub trim_spool : SpoolLimits → List SpoolRow → List SpoolRow × ℕ
trim_spool limits rows =
    let v =
      trim_loop (length rows) limits rows
        (record { count = length rows; total = sum_nbytes rows; dropped = 0; last_id = 0 }) in
    (if nat_eq v.dropped 0 then rows else keep (λ r. ltb v.last_id r.id) rows, v.dropped)

abbrev same_class : OutboundClass → OutboundClass → Bool
same_class terminal terminal = true
same_class observe_latest observe_latest = true
same_class observe_bulk observe_bulk = true
same_class _ _ = false

-- `class=? AND key=?`; a NULL key equals nothing
abbrev has_key : OutboundClass → String → SpoolRow → Bool
has_key c k r = same_class c r.class_ && (elim r.key [ none ↦ false | some j ↦ k == j ])

-- The rows that an OBSERVE_LATEST operation with a key replaces.
unfoldable pub coalesce : OutboundClass → Option String → List SpoolRow → List SpoolRow
coalesce observe_latest (some k) rows = keep (λ r. not (has_key observe_latest k r)) rows
coalesce _ _ rows = rows

unfoldable pub spool_put :
    SpoolLimits → OutboundClass → Option String → String → ℕ → Spool → Result (Spool × ℕ)
spool_put limits class_ key payload ts s =
    if not (outbound_classes class_)
    then err value_error
    else let row : SpoolRow = record {
      id = s.next_id;
      class_ = class_;
      key = key;
      payload = payload;
      nbytes = len payload;
      ts = ts;
    } in
      let (rows, dropped) = trim_spool limits (coalesce class_ key s.rows ++ (row ∷ [])) in
      ok (record { rows = rows; next_id = suc s.next_id }, dropped)

unfoldable pub spool_list : ℕ → Option OutboundClass → Spool → List SpoolRow
spool_list limit none s = take limit s.rows
spool_list limit (some c) s = take limit (keep (λ r. same_class c r.class_) s.rows)

unfoldable pub spool_delete : List ℕ → Spool → Spool × ℕ
spool_delete ids s = (
  record s { rows = keep (λ r. not (contains r.id ids)) s.rows },
  length (keep (λ r. contains r.id ids) s.rows),
)

-- `GROUP BY class`, for one class
unfoldable pub spool_count : OutboundClass → Spool → ℕ
spool_count c s = length (keep (λ r. same_class c r.class_) s.rows)
