-- ===== src/Script/Order.antt =====
-- The order of `Array.prototype.sort` without a comparator: texts by their UTF-16 code units.
pub mod Laws
use Prim.Native.Char.{code}
use peer_hours.Prelude.{
  ℕ, ◌+◌, Bool, true, false, ◌&&◌, String, leb, if◌then◌else◌, compare, Ordering,
}

-- Code points in the order of their first code units: from 0x10000 on, surrogates stand first.
abbrev pub rank : ℕ → ℕ
rank c = if leb 0xe000 c && leb c 0xffff then c + 0x110000 else c

unfoldable pub units_before : String → String → Bool
units_before s String.[] = false
units_before String.[] (String.◌∷◌ d t) = true
units_before (String.◌∷◌ c s) (String.◌∷◌ d t) = elim (compare (rank (code c)) (rank (code d))) [
  | Ordering.lt ↦ true
  | Ordering.eq ↦ units_before s t
  | Ordering.gt ↦ false
]
