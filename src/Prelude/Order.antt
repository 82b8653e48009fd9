-- ===== src/Prelude/Order.antt =====
-- Python's order on strings, by code points.
use Prim.Native.Char.{code}
use Prim.Native.Nat.{compare as compare_ℕ, Ordering, ℕ}
use Prim.Native.String.compare
use Prim.Native.String.{String, compare, then}
use text.Mathlib.Text.{is_lt, ◌==◌}
use text.Mathlib.TextEquality.{path_by_compare, eq_iff}
use mathlib.Core.Path.{◌≡◌}
use mathlib.Core.Bool.{Bool, true, false, ◌&&◌, ◌||◌}
use native.Mathlib.Omega.{arith}

-- `s < t`
unfoldable pub text_lt : String → String → Bool
text_lt s t = is_lt (compare s t)

-- The first characters decide, unless they are the same.
then_lt_trans :
    (a b c : ℕ) (ts ut us : Ordering)
    → (is_lt ts ≡ false → is_lt ut ≡ false → is_lt us ≡ false)
    → is_lt (then (compare_ℕ b a) ts) ≡ false
    → is_lt (then (compare_ℕ c b) ut) ≡ false
    → is_lt (then (compare_ℕ c a) us) ≡ false
then_lt_trans a b c ts ut us ih h k = ground arith

-- `s <= t` and `t <= u` give `s <= u`.
pub not_lt_trans :
    (s t u : String) → text_lt t s ≡ false → text_lt u t ≡ false → text_lt u s ≡ false
unfolding text_lt
not_lt_trans s String.[] String.[] h k = h
not_lt_trans String.[] t (String.◌∷◌ e u) h k = ground (arith, compare.cons-nil e u)
not_lt_trans (String.◌∷◌ c s) String.[] (String.◌∷◌ e u) h k =
    ground (arith, compare.nil-cons c s, compare.cons-nil e u)
not_lt_trans s (String.◌∷◌ d t) String.[] h k = ground (arith, compare.nil-cons d t)
not_lt_trans (String.◌∷◌ c s) (String.◌∷◌ d t) (String.◌∷◌ e u) h k =
    rw (compare.cons-cons e c u s) (
      then_lt_trans (code c) (code d) (code e) (compare t s) (compare u t) (compare u s)
        (not_lt_trans s t u) (rw (compare.cons-cons d c t s) at h)
        (rw (compare.cons-cons e d u t) at k))

then_lt-asym :
    (a b : ℕ) (st ts : Ordering)
    → (is_lt st ≡ true → is_lt ts ≡ false)
    → is_lt (then (compare_ℕ a b) st) ≡ true
    → is_lt (then (compare_ℕ b a) ts) ≡ false
then_lt-asym a b st ts ih h = ground arith

-- Nothing is below the empty text.
pub nil_least : (t : String) → text_lt t String.[] ≡ false
unfolding text_lt
nil_least String.[] = ground (arith, compare.nil-nil)
nil_least (String.◌∷◌ d t) = ground (arith, compare.cons-nil d t)

pub lt-asym : (s t : String) → text_lt s t ≡ true → text_lt t s ≡ false
unfolding text_lt
lt-asym String.[] t h = nil_least t
lt-asym (String.◌∷◌ c s) String.[] h = ground (arith, compare.cons-nil c s)
lt-asym (String.◌∷◌ c s) (String.◌∷◌ d t) h = rw (compare.cons-cons d c t s) (
    then_lt-asym (code c) (code d) (compare s t) (compare t s) (lt-asym s t)
      (rw (compare.cons-cons c d s t) at h))

then_lt-eq :
    (a b : ℕ) (st ts : Ordering)
    → (is_lt st ≡ false → is_lt ts ≡ false → st ≡ Ordering.eq)
    → is_lt (then (compare_ℕ a b) st) ≡ false
    → is_lt (then (compare_ℕ b a) ts) ≡ false
    → then (compare_ℕ a b) st ≡ Ordering.eq
then_lt-eq a b st ts ih h k = ground arith

not_lt-eq : (s t : String) → text_lt s t ≡ false → text_lt t s ≡ false → compare s t ≡ Ordering.eq
unfolding text_lt
not_lt-eq String.[] String.[] h k = compare.nil-nil
not_lt-eq String.[] (String.◌∷◌ d t) h k = ground (arith, compare.nil-cons d t)
not_lt-eq (String.◌∷◌ c s) String.[] h k = ground (arith, compare.nil-cons c s)
not_lt-eq (String.◌∷◌ c s) (String.◌∷◌ d t) h k = rw (compare.cons-cons c d s t) (
    then_lt-eq (code c) (code d) (compare s t) (compare t s) (not_lt-eq s t)
      (rw (compare.cons-cons c d s t) at h) (rw (compare.cons-cons d c t s) at k))

-- Two texts of which neither is below the other are the same.
pub lt_connex : (s t : String) → text_lt s t ≡ false → text_lt t s ≡ false → s ≡ t
lt_connex s t h k = path_by_compare s t (not_lt-eq s t h k)

-- Pairs, first by the one text and then by the other.
abbrev pub pair_lt : String → String → String → String → Bool
pair_lt s u t v = text_lt s t || ((s == t) && text_lt u v)

pub pair_lt-asym : (s u t v : String) → pair_lt s u t v ≡ true → pair_lt t v s u ≡ false
pair_lt-asym s u t v h =
    ground (arith, lt-asym s t, lt-asym u v, lt-asym s s, eq_iff s t, eq_iff t s)

pub not_pair_lt_trans :
    (s u t v w x : String)
    → pair_lt t v s u ≡ false
    → pair_lt w x t v ≡ false
    → pair_lt w x s u ≡ false
not_pair_lt_trans s u t v w x h k = ground (
  arith,
  not_lt_trans s t w,
  not_lt_trans u v x,
  lt_connex s t,
  eq_iff t s,
  eq_iff w t,
  eq_iff w s,
)
