-- ===== src/State/Spool/Trim.antt =====
-- `_trim_spool`, which reads batches of 256 rows, against the rule that drops one row at a time.
use one_m2m_dds_ipe.Prelude.{
  ℕ, zero, suc, ◌+◌, ◌-◌, ◌≤◌, ◌<◌, ◌≡◌, refl, ap, sym, ◌∙◌, subst, true, false, List, [], ◌∷◌,
  ◌++◌, length, take, keep, ltb, if◌then◌else◌, arith, Bool-cases, inl, inr, length-append, nat_eq,
}
use mathlib.Core.List.{append_assoc}
use one_m2m_dds_ipe.State.Spool.{
  SpoolRow, SpoolLimits, Trimming, sum_nbytes, over_limits, trim_batch, select_batch, trim_loop,
  trim_spool,
}
use one_m2m_dds_ipe.State.Spool.Order.{
  trim_reference, AllAbove, AllUpTo, Ascending, AllUpTo-le, AllUpTo-append, keep-AllUpTo,
}

-- The loop's variables describe a cut of the rows into those that go and those that stay.
record Cut (rows : List SpoolRow) (v : Trimming) (gone left : List SpoolRow) : Type 0 where
  split : rows ≡ gone ++ left
  below : AllUpTo v.last_id gone
  above : AllAbove v.last_id left
  ascending : Ascending left
  count : v.count ≡ length left
  total : v.total ≡ sum_nbytes left
  dropped : v.dropped ≡ length gone

abbrev drop_one : SpoolRow → Trimming → Trimming
drop_one r v = record {
  count = v.count - 1;
  total = v.total - r.nbytes;
  dropped = suc v.dropped;
  last_id = r.id;
}

module _ (limits : SpoolLimits) (rows : List SpoolRow) where
  Cut-drop_one :
      (v : Trimming) (gone left : List SpoolRow) (r : SpoolRow)
      → Cut rows v gone (r ∷ left)
      → Cut rows (drop_one r v) (gone ++ (r ∷ [])) left
  Cut-drop_one v gone left r c = record {
    split = c.split ∙ sym (append_assoc gone (r ∷ []) left);
    below =
        AllUpTo-append r.id gone (r ∷ [])
          (AllUpTo-le v.last_id r.id gone (omega (arith, c.above.0)) c.below) (omega arith, tt);
    above = c.ascending.0;
    ascending = c.ascending.1;
    count = omega (arith, c.count);
    total = unfold sum_nbytes in omega (arith, c.total);
    dropped = omega (arith, c.dropped, length-append gone (r ∷ []));
  }

  -- What a batch does.
  record Batched (v : Trimming) (left : List SpoolRow) (n : ℕ) : Type 0 where
    gone_after : List SpoolRow
    left_after : List SpoolRow
    cut : Cut rows (trim_batch limits (take n left) v) gone_after left_after
    same : trim_reference limits left ≡ trim_reference limits left_after
    fewer : length left_after ≤ length left
    moves : over_limits limits v.count v.total ≡ true → 0 < n → length left_after < length left

  reference-over :
      (r : SpoolRow) (left : List SpoolRow) (v : Trimming) (gone : List SpoolRow)
      → Cut rows v gone (r ∷ left)
      → over_limits limits v.count v.total ≡ true
      → trim_reference limits (r ∷ left) ≡ trim_reference limits left
  unfolding trim_reference
  reference-over r left v gone c h =
      let over : over_limits limits (length (r ∷ left)) (sum_nbytes (r ∷ left)) ≡ true =
        subst (λ n. over_limits limits n (sum_nbytes (r ∷ left)) ≡ true) c.count
          (subst (λ n. over_limits limits v.count n ≡ true) c.total h) in
      rw over

  over-nonempty :
      (v : Trimming) (gone : List SpoolRow)
      → Cut rows v gone []
      → over_limits limits v.count v.total ≡ false
  unfolding over_limits
  over-nonempty v gone c = ground (arith, c.count)

  trim_batch-stop :
      (v : Trimming) (batch : List SpoolRow)
      → over_limits limits v.count v.total ≡ false
      → trim_batch limits batch v ≡ v
  unfolding trim_batch
  trim_batch-stop v [] h = refl
  trim_batch-stop v (r ∷ batch) h = rw h

  trim_batch-go :
      (n : ℕ) (v : Trimming) (r : SpoolRow) (left : List SpoolRow)
      → over_limits limits v.count v.total ≡ true
      → trim_batch limits (take (suc n) (r ∷ left)) v
        ≡ trim_batch limits (take n left) (drop_one r v)
  unfolding trim_batch
  trim_batch-go n v r left h = rw h

  stopped :
      (v : Trimming) (gone left : List SpoolRow) (n : ℕ)
      → Cut rows v gone left
      → over_limits limits v.count v.total ≡ false
      → Batched v left n
  stopped v gone left n c h = record {
    gone_after = gone;
    left_after = left;
    cut = rw (trim_batch-stop v (take n left) h) c;
    same = refl;
    fewer = omega arith;
    moves = λ o _. cc;
  }

  trim_batch-Batched :
      (n : ℕ) (left : List SpoolRow) (v : Trimming) (gone : List SpoolRow)
      → Cut rows v gone left
      → Batched v left n
  trim_batch-Batched n [] v gone c = stopped v gone [] n c (over-nonempty v gone c)
  trim_batch-Batched zero (r ∷ left) v gone c = record {
    gone_after = gone;
    left_after = r ∷ left;
    cut = unfold trim_batch in c;
    same = refl;
    fewer = omega arith;
    moves = λ _ p. absurd (omega arith);
  }
  trim_batch-Batched (suc n) (r ∷ left) v gone c =
      elim (Bool-cases (over_limits limits v.count v.total)) [
        | inr h ↦ stopped v gone (r ∷ left) (suc n) c h
        | inl h ↦
            let b =
              trim_batch-Batched n left (drop_one r v) (gone ++ (r ∷ []))
                (Cut-drop_one v gone left r c) in
            record {
              gone_after = b.gone_after;
              left_after = b.left_after;
              cut = rw (trim_batch-go n v r left h) b.cut;
              same = reference-over r left v gone c h ∙ b.same;
              fewer = omega (arith, b.fewer);
              moves = λ _ _. omega (arith, b.fewer);
            }
      ]

  reference-within :
      (v : Trimming) (gone left : List SpoolRow)
      → Cut rows v gone left
      → over_limits limits v.count v.total ≡ false
      → trim_reference limits left ≡ left
  unfolding trim_reference
  reference-within v gone [] c h = refl
  reference-within v gone (r ∷ left) c h =
      let within : over_limits limits (length (r ∷ left)) (sum_nbytes (r ∷ left)) ≡ false =
        subst (λ n. over_limits limits n (sum_nbytes (r ∷ left)) ≡ false) c.count
          (subst (λ n. over_limits limits v.count n ≡ false) c.total h) in
      rw within

  select_batch-Cut :
      (v : Trimming) (gone left : List SpoolRow)
      → Cut rows v gone left
      → select_batch v.last_id rows ≡ take 256 left
  unfolding select_batch
  select_batch-Cut v gone left c = ap (take 256) (
      ap (keep (λ r. ltb v.last_id r.id)) c.split
      ∙ keep-AllUpTo v.last_id gone left c.below c.above)

  -- The loop stops at the cut that the rule of one row at a time makes.
  trim_loop-Cut :
      (fuel : ℕ) (v : Trimming) (gone left : List SpoolRow)
      → length left ≤ fuel
      → Cut rows v gone left
      → (gone' : List SpoolRow) × Cut rows
          (trim_loop fuel limits rows v)
          gone'
          (trim_reference limits left)
  unfolding trim_loop
  trim_loop-Cut zero v gone [] h c = (gone, unfold trim_reference in c)
  trim_loop-Cut zero v gone (r ∷ left) h c = absurd (omega arith)
  trim_loop-Cut (suc fuel) v gone left h c =
      elim (Bool-cases (over_limits limits v.count v.total)) [
        | inr e ↦ rw (e, reference-within v gone left c e) (gone, c)
        | inl e ↦
            let b = trim_batch-Batched 256 left v gone c in
            rw (e, select_batch-Cut v gone left c, b.same)
              (trim_loop-Cut fuel (trim_batch limits (take 256 left) v) b.gone_after b.left_after
                (omega (arith, b.moves e (omega arith))) b.cut)
      ]

deleted :
    (rows : List SpoolRow) (v : Trimming) (gone left : List SpoolRow)
    → Cut rows v gone left
    → ((if nat_eq v.dropped 0 then rows else keep (λ r. ltb v.last_id r.id) rows) ≡ left)
      × (v.dropped + length left ≡ length rows)
deleted rows v [] left c = (rw (c.dropped, c.split), omega (arith, c.dropped, ap length c.split))
deleted rows v (g ∷ gone) left c =
    let kept : keep (λ r. ltb v.last_id r.id) rows ≡ left =
      ap (keep (λ r. ltb v.last_id r.id)) c.split
      ∙ keep-AllUpTo v.last_id (g ∷ gone) left c.below c.above in
    (
      ground (arith, c.dropped, kept),
      omega (arith, c.dropped, ap length c.split, length-append gone left),
    )

-- Reading batches of 256 rows makes no difference: trimming rows with ascending positive ids keeps
-- exactly the rows that dropping the oldest one by one would keep, and counts those that go.
pub trim_spool-reference :
    (limits : SpoolLimits) (rows : List SpoolRow)
    → AllAbove 0 rows
    → Ascending rows
    → ((trim_spool limits rows).0 ≡ trim_reference limits rows)
      × ((trim_spool limits rows).1 + length (trim_reference limits rows) ≡ length rows)
unfolding trim_spool
trim_spool-reference limits rows above ascending =
    let start : Trimming = record {
      count = length rows;
      total = sum_nbytes rows;
      dropped = 0;
      last_id = 0;
    } in
    let (gone, c) = trim_loop-Cut limits rows (length rows) start [] rows (omega arith) (record {
      split = refl;
      below = tt;
      above = above;
      ascending = ascending;
      count = refl;
      total = refl;
      dropped = refl;
    }) in
    deleted rows (trim_loop (length rows) limits rows start) gone (trim_reference limits rows) c
