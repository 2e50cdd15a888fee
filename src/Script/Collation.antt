-- ===== src/Script/Collation.antt =====
-- `String.prototype.localeCompare`: the collation belongs to the runtime, so it is a parameter.
-- ECMA-402 promises a consistent comparison, and no more: distinct texts may compare equal.
use peer_hours.Prelude.{◌≡◌, Bool, true, false, String, compare, Ordering, arith}
use Prim.Native.String.{count}

abbrev pub reverse_order : Ordering → Ordering
reverse_order Ordering.lt = Ordering.gt
reverse_order Ordering.eq = Ordering.eq
reverse_order Ordering.gt = Ordering.lt

pub record Collation : Type 0 where
  pub locale_compare : String → String → Ordering
  pub swapped : (a b : String) → locale_compare b a ≡ reverse_order (locale_compare a b)
  pub lt_trans :
      (a b c : String)
      → locale_compare a b ≡ Ordering.lt
      → locale_compare b c ≡ Ordering.lt
      → locale_compare a c ≡ Ordering.lt
  pub eq_lt_trans :
      (a b c : String)
      → locale_compare a b ≡ Ordering.eq
      → locale_compare b c ≡ Ordering.lt
      → locale_compare a c ≡ Ordering.lt
  pub lt_eq_trans :
      (a b c : String)
      → locale_compare a b ≡ Ordering.lt
      → locale_compare b c ≡ Ordering.eq
      → locale_compare a c ≡ Ordering.lt
  pub eq_trans :
      (a b c : String)
      → locale_compare a b ≡ Ordering.eq
      → locale_compare b c ≡ Ordering.eq
      → locale_compare a c ≡ Ordering.eq

abbrev pub is_negative : Ordering → Bool
is_negative Ordering.lt = true
is_negative _ = false

module _ (c : Collation) where
  -- `left.localeCompare(right) < 0`
  unfoldable pub before : String → String → Bool
  before a b = is_negative (c.locale_compare a b)

  pub before_irrefl : (a : String) → before a a ≡ true → ⊥
  unfolding before
  before_irrefl a h = ground (arith, c.swapped a a)

  pub before_trans : (a b d : String) → before a b ≡ true → before b d ≡ true → before a d ≡ true
  unfolding before
  before_trans a b d h k = ground (arith, c.lt_trans a b d)

-- A collation by length alone, under which texts of one length compare equal.
abbrev pub by_length : String → String → Ordering
by_length a b = compare (count a) (count b)

pub by_length-swapped : (a b : String) → by_length b a ≡ reverse_order (by_length a b)
by_length-swapped a b = ground arith

pub by_length-lt :
    (a b c : String)
    → by_length a b ≡ Ordering.lt
    → by_length b c ≡ Ordering.lt
    → by_length a c ≡ Ordering.lt
by_length-lt a b c h k = ground arith

pub by_length-eq_lt :
    (a b c : String)
    → by_length a b ≡ Ordering.eq
    → by_length b c ≡ Ordering.lt
    → by_length a c ≡ Ordering.lt
by_length-eq_lt a b c h k = ground arith

pub by_length-lt_eq :
    (a b c : String)
    → by_length a b ≡ Ordering.lt
    → by_length b c ≡ Ordering.eq
    → by_length a c ≡ Ordering.lt
by_length-lt_eq a b c h k = ground arith

pub by_length-eq :
    (a b c : String)
    → by_length a b ≡ Ordering.eq
    → by_length b c ≡ Ordering.eq
    → by_length a c ≡ Ordering.eq
by_length-eq a b c h k = ground arith

abbrev pub length_collation : Collation
length_collation = record {
  locale_compare = by_length;
  swapped = by_length-swapped;
  lt_trans = by_length-lt;
  eq_lt_trans = by_length-eq_lt;
  lt_eq_trans = by_length-lt_eq;
  eq_trans = by_length-eq;
}
