-- ===== src/Script/Order/Laws.antt =====
-- The order of texts is a strict total order.
use Prim.Native.Char.{code, Char}
use text.Mathlib.TextEquality.{Char-path}
use peer_hours.Prelude.{◌≡◌, refl, true, false, String, compare, Ordering, arith}
use peer_hours.Script.Order.{rank, units_before}

units_before-cons :
    (c d : Char) (s t : String)
    → units_before (String.◌∷◌ c s) (String.◌∷◌ d t)
      ≡ elim (compare (rank (code c)) (rank (code d))) [
        | Ordering.lt ↦ true
        | Ordering.eq ↦ units_before s t
        | Ordering.gt ↦ false
      ]
unfolding units_before
units_before-cons c d s t = refl

pub units_before_irrefl : (s : String) → units_before s s ≡ true → ⊥
unfolding units_before
units_before_irrefl String.[] h = ground arith
units_before_irrefl (String.◌∷◌ c s) h = units_before_irrefl s (ground arith)

pub units_before_trans :
    (s t u : String) → units_before s t ≡ true → units_before t u ≡ true → units_before s u ≡ true
unfolding units_before
units_before_trans s t String.[] h k = ground arith
units_before_trans s String.[] (String.◌∷◌ e u) h k = ground arith
units_before_trans String.[] (String.◌∷◌ d t) (String.◌∷◌ e u) h k = refl
units_before_trans (String.◌∷◌ c s) (String.◌∷◌ d t) (String.◌∷◌ e u) h k =
    ground (arith, units_before_trans s t u)

pub eq_of_units : (s t : String) → units_before s t ≡ false → units_before t s ≡ false → s ≡ t
unfolding units_before
eq_of_units String.[] String.[] h k = refl
eq_of_units String.[] (String.◌∷◌ d t) h k = ground arith
eq_of_units (String.◌∷◌ c s) String.[] h k = ground arith
eq_of_units (String.◌∷◌ c s) (String.◌∷◌ d t) h k = ground (arith, eq_of_units s t, Char-path c d)
