-- ===== src/Script/Text.antt =====
-- Texts: `value.trim().length === 0` and `value.length`. A text is a sequence of code points, so a
-- lone surrogate is not modelled.
pub mod Append
pub mod Separated
use Prim.Native.Char.{code}
use peer_hours.Prelude.{
  ℕ, ◌+◌, Bool, true, false, ◌&&◌, ◌||◌, String, leb, if◌then◌else◌, ◌==◌, count_equality,
}

-- White space and line terminators of ECMA-262, which `trim` removes.
unfoldable pub is_space : ℕ → Bool
is_space c =
    leb 9 c && leb c 13
    || c == 32
    || c == 0xa0
    || c == 0x1680
    || leb 0x2000 c && leb c 0x200a
    || c == 0x2028
    || c == 0x2029
    || c == 0x202f
    || c == 0x205f
    || c == 0x3000
    || c == 0xfeff

-- `trim` leaves nothing exactly of a text of white space.
unfoldable pub is_blank : String → Bool
unfolding is_space
is_blank String.[] = true
is_blank (String.◌∷◌ c s) = is_space (code c) && is_blank s

-- `length` counts UTF-16 code units.
unfoldable pub utf16_length : String → ℕ
utf16_length String.[] = 0
utf16_length (String.◌∷◌ c s) = (if leb 0x10000 (code c) then 2 else 1) + utf16_length s

-- Whether the last character is white space, after a character that is or is not.
unfoldable pub ends_spaced : Bool → String → Bool
unfolding is_space
ends_spaced spaced String.[] = spaced
ends_spaced spaced (String.◌∷◌ c s) = ends_spaced (is_space (code c)) s

-- `value !== value.trim()`
unfoldable pub is_surrounded : String → Bool
unfolding is_space ends_spaced
is_surrounded String.[] = false
is_surrounded (String.◌∷◌ c s) = is_space (code c) || ends_spaced false (String.◌∷◌ c s)

-- `[A-Za-z0-9_-]*`
unfoldable pub is_base64url : String → Bool
is_base64url String.[] = true
is_base64url (String.◌∷◌ c s) =
    (leb 65 (code c) && leb (code c) 90
      || leb 97 (code c) && leb (code c) 122
      || leb 48 (code c) && leb (code c) 57
      || code c == 95
      || code c == 45)
    && is_base64url s

-- Whether a text has a pattern's characters, with any digit where the pattern has `0`.
unfoldable pub is_like : String → String → Bool
is_like String.[] String.[] = true
is_like (String.◌∷◌ p ps) (String.◌∷◌ c s) =
    (if code p == 48 then leb 48 (code c) && leb (code c) 57 else code p == code c) && is_like ps s
is_like _ _ = false
