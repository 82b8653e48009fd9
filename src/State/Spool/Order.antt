-- ===== src/State/Spool/Order.antt =====
-- The order of the spool's rows, and the rule that drops one row at a time.
use one_m2m_dds_ipe.Prelude.{
  ℕ, ◌≤◌, ◌<◌, ◌≡◌, refl, List, [], ◌∷◌, ◌++◌, length, keep, ltb, if◌then◌else◌, arith,
}
use one_m2m_dds_ipe.State.Spool.{SpoolRow, SpoolLimits, sum_nbytes, over_limits}

-- While there is more than one row, and too many rows or bytes, drop the oldest.
unfoldable pub trim_reference : SpoolLimits → List SpoolRow → List SpoolRow
trim_reference limits [] = []
trim_reference limits (r ∷ rows) =
    let rest = trim_reference limits rows in
    if over_limits limits (length (r ∷ rows)) (sum_nbytes (r ∷ rows)) then rest else r ∷ rows

abbrev pub AllAbove : ℕ → List SpoolRow → Type 0
AllAbove n [] = Unit
AllAbove n (r ∷ rows) = (n < r.id) × AllAbove n rows

abbrev pub AllUpTo : ℕ → List SpoolRow → Type 0
AllUpTo n [] = Unit
AllUpTo n (r ∷ rows) = (r.id ≤ n) × AllUpTo n rows

abbrev pub Ascending : List SpoolRow → Type 0
Ascending [] = Unit
Ascending (r ∷ rows) = AllAbove r.id rows × Ascending rows

pub AllUpTo-le : (m n : ℕ) (rows : List SpoolRow) → m ≤ n → AllUpTo m rows → AllUpTo n rows
AllUpTo-le m n [] h all = tt
AllUpTo-le m n (r ∷ rows) h all = (omega arith, AllUpTo-le m n rows h all.1)

pub AllUpTo-append :
    (n : ℕ) (xs ys : List SpoolRow) → AllUpTo n xs → AllUpTo n ys → AllUpTo n (xs ++ ys)
AllUpTo-append n [] ys p q = q
AllUpTo-append n (x ∷ xs) ys p q = (p.0, AllUpTo-append n xs ys p.1 q)

keep-AllAbove :
    (n : ℕ) (rows : List SpoolRow) → AllAbove n rows → keep (λ r. ltb n r.id) rows ≡ rows
keep-AllAbove n [] all = refl
keep-AllAbove n (r ∷ rows) all = ground (arith, keep-AllAbove n rows all.1)

pub keep-AllUpTo :
    (n : ℕ) (gone left : List SpoolRow)
    → AllUpTo n gone
    → AllAbove n left
    → keep (λ r. ltb n r.id) (gone ++ left) ≡ left
keep-AllUpTo n [] left p q = keep-AllAbove n left q
keep-AllUpTo n (r ∷ gone) left p q = ground (arith, keep-AllUpTo n gone left p.1 q)
