-- ===== src/State/Spool/Limits.antt =====
-- What `spool_put` leaves in the spool.
use one_m2m_dds_ipe.Prelude.{
  ℕ, suc, ◌+◌, ◌<◌, ◌≡◌, ap, ◌∙◌, subst, String, Option, none, some, Bool, true, false, List, [],
  ◌∷◌, ◌++◌, length, keep, arith, Bool-cases, inl, inr, length-append,
}
use Prim.Native.String.{len}
use one_m2m_dds_ipe.Prelude.Result.{Result, ok}
use one_m2m_dds_ipe.Vocab.{OutboundClass, terminal, observe_latest, observe_bulk, outbound_classes}
use one_m2m_dds_ipe.State.Spool.{
  SpoolRow, Spool, SpoolLimits, sum_nbytes, over_limits, trim_spool, coalesce, spool_put,
}
use one_m2m_dds_ipe.State.Spool.Trim.{trim_spool-reference}
use one_m2m_dds_ipe.State.Spool.Order.{AllAbove, Ascending, trim_reference}

one_row : (limits : SpoolLimits) (total : ℕ) → over_limits limits 1 total ≡ false
unfolding over_limits
one_row limits total = ground arith

-- The rule keeps the newest row, and stops as soon as the limits are kept.
reference-last :
    (limits : SpoolLimits) (rows : List SpoolRow) (r : SpoolRow)
    → (kept : List SpoolRow) × (trim_reference limits (rows ++ (r ∷ [])) ≡ kept ++ (r ∷ []))
unfolding trim_reference
reference-last limits [] r = ([], rw (one_row limits (sum_nbytes (r ∷ []))))
reference-last limits (x ∷ rows) r =
    let all = x ∷ (rows ++ (r ∷ [])) in
    let (kept, e) = reference-last limits rows r in
    elim (Bool-cases (over_limits limits (length all) (sum_nbytes all))) [
      | inl h ↦ (kept, rw h e)
      | inr h ↦ (x ∷ rows, rw h)
    ]

reference-fits :
    (limits : SpoolLimits) (rows : List SpoolRow)
    → over_limits limits
        (length (trim_reference limits rows))
        (sum_nbytes (trim_reference limits rows))
      ≡ false
unfolding trim_reference
reference-fits limits [] = unfold over_limits in ground arith
reference-fits limits (r ∷ rows) =
    let fits = reference-fits limits rows in
    elim (Bool-cases (over_limits limits (length (r ∷ rows)) (sum_nbytes (r ∷ rows)))) [
      | inl h ↦ rw h fits
      | inr h ↦ rw h h
    ]

abbrev AllBelow : ℕ → List SpoolRow → Type 0
AllBelow n [] = Unit
AllBelow n (r ∷ rows) = (r.id < n) × AllBelow n rows

-- Ids ascend from 1 and stay below the next one.
pub record IsSpool (rows : List SpoolRow) (next_id : ℕ) : Type 0 where
  pub positive : AllAbove 0 rows
  pub ascending : Ascending rows
  pub fresh : AllBelow next_id rows

keep-AllAbove :
    (n : ℕ) (p : SpoolRow → Bool) (rows : List SpoolRow)
    → AllAbove n rows
    → AllAbove n (keep p rows)
keep-AllAbove n p [] h = tt
keep-AllAbove n p (r ∷ rows) h = ground (arith, keep-AllAbove n p rows h.1)

keep-IsSpool :
    (p : SpoolRow → Bool) (rows : List SpoolRow) (n : ℕ) → IsSpool rows n → IsSpool (keep p rows) n
keep-IsSpool p [] n s = s
keep-IsSpool p (r ∷ rows) n s =
    let rest : IsSpool (keep p rows) n =
      keep-IsSpool p rows n
        (record { positive = s.positive.1; ascending = s.ascending.1; fresh = s.fresh.1 }) in
    elim (Bool-cases (p r)) [
      | inl h ↦ rw h (record {
        positive = (s.positive.0, rest.positive);
        ascending = (keep-AllAbove r.id p rows s.ascending.0, rest.ascending);
        fresh = (s.fresh.0, rest.fresh);
      })
      | inr h ↦ rw h rest
    ]

append-AllAbove :
    (n : ℕ) (rows : List SpoolRow) (r : SpoolRow)
    → n < r.id
    → AllAbove n rows
    → AllAbove n (rows ++ (r ∷ []))
append-AllAbove n [] r h all = (h, tt)
append-AllAbove n (x ∷ rows) r h all = (all.0, append-AllAbove n rows r h all.1)

append-IsSpool :
    (rows : List SpoolRow) (r : SpoolRow)
    → 0 < r.id
    → IsSpool rows r.id
    → IsSpool (rows ++ (r ∷ [])) (suc r.id)
append-IsSpool [] r h s = record {
  positive = (h, tt);
  ascending = (tt, tt);
  fresh = (omega arith, tt);
}
append-IsSpool (x ∷ rows) r h s =
    let rest =
      append-IsSpool rows r h
        (record { positive = s.positive.1; ascending = s.ascending.1; fresh = s.fresh.1 }) in
    record {
      positive = (s.positive.0, rest.positive);
      ascending = (append-AllAbove x.id rows r s.fresh.0 s.ascending.0, rest.ascending);
      fresh = (omega (arith, s.fresh.0), rest.fresh);
    }

reference-IsSpool :
    (limits : SpoolLimits) (rows : List SpoolRow) (n : ℕ)
    → IsSpool rows n
    → IsSpool (trim_reference limits rows) n
unfolding trim_reference
reference-IsSpool limits [] n s = s
reference-IsSpool limits (r ∷ rows) n s =
    let rest =
      reference-IsSpool limits rows n
        (record { positive = s.positive.1; ascending = s.ascending.1; fresh = s.fresh.1 }) in
    elim (Bool-cases (over_limits limits (length (r ∷ rows)) (sum_nbytes (r ∷ rows)))) [
      | inl h ↦ rw h rest
      | inr h ↦ rw h s
    ]

coalesce-IsSpool :
    (c : OutboundClass) (key : Option String) (rows : List SpoolRow) (n : ℕ)
    → IsSpool rows n
    → IsSpool (coalesce c key rows) n
unfolding coalesce
coalesce-IsSpool observe_latest (some k) rows n s = keep-IsSpool _ rows n s
coalesce-IsSpool observe_latest none rows n s = s
coalesce-IsSpool terminal key rows n s = s
coalesce-IsSpool observe_bulk key rows n s = s
coalesce-IsSpool (OutboundClass.unlisted w) key rows n s = s

-- The row that a put adds.
abbrev pub new_row : OutboundClass → Option String → String → ℕ → Spool → SpoolRow
new_row c key payload ts s = record {
  id = s.next_id;
  class_ = c;
  key = key;
  payload = payload;
  nbytes = len payload;
  ts = ts;
}

-- A put of a known class into a well-formed spool succeeds. The spool then ends with the new row,
-- even one that is larger than the limit alone; it keeps to both limits or holds just that row; the
-- answer counts the rows that made room, those merged under the same key apart; and the ids go on
-- ascending.
pub spool_put_lem :
    (limits : SpoolLimits) (c : OutboundClass) (key : Option String) (payload : String) (ts : ℕ)
    (s : Spool)
    → outbound_classes c ≡ true
    → 0 < s.next_id
    → IsSpool s.rows s.next_id
    → (kept : List SpoolRow) × (dropped : ℕ) × (spool_put limits c key payload ts s
        ≡ ok (
          record { rows = kept ++ (new_row c key payload ts s ∷ []); next_id = suc s.next_id },
          dropped,
        ))
      × (over_limits limits
            (length (kept ++ (new_row c key payload ts s ∷ [])))
            (sum_nbytes (kept ++ (new_row c key payload ts s ∷ [])))
          ≡ false)
      × (dropped + length kept ≡ length (coalesce c key s.rows))
      × IsSpool (kept ++ (new_row c key payload ts s ∷ [])) (suc s.next_id)
unfolding spool_put
spool_put_lem limits c key payload ts s known pos ok_rows =
    let r = new_row c key payload ts s in
    let before = coalesce c key s.rows in
    let all = before ++ (r ∷ []) in
    let sound : IsSpool all (suc s.next_id) =
      append-IsSpool before r pos (coalesce-IsSpool c key s.rows s.next_id ok_rows) in
    let (same, counted) = trim_spool-reference limits all sound.positive sound.ascending in
    let (kept, e) = reference-last limits before r in
    let build : List SpoolRow → Result (Spool × ℕ) =
      λ rows. ok (record { rows = rows; next_id = suc s.next_id }, (trim_spool limits all).1) in
    (
      kept,
      (trim_spool limits all).1,
      rw known (ap build (same ∙ e)),
      subst (λ rows. over_limits limits (length rows) (sum_nbytes rows) ≡ false) e
          (reference-fits limits all),
      omega
          (arith, counted, ap length e, length-append before (r ∷ []), length-append kept (r ∷ [])),
      subst (λ rows. IsSpool rows (suc s.next_id)) e
          (reference-IsSpool limits all (suc s.next_id) sound),
    )
