-- ===== src/Script/Text/Append.antt =====
-- Blank texts and `++`.
use Prim.Native.String.{◌++◌}
use text.Mathlib.TextLemmas.{nil-append, cons-append}
use peer_hours.Prelude.{◌≡◌, refl, ◌&&◌, arith, String}
use peer_hours.Script.Text.{is_blank}

pub is_blank-append : (s t : String) → is_blank (s ++ t) ≡ (is_blank s && is_blank t)
unfolding is_blank
is_blank-append String.[] t = rw (nil-append t) refl
is_blank-append (String.◌∷◌ c s) t = rw (cons-append c s t) (ground (arith, is_blank-append s t))
