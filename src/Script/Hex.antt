-- ===== src/Script/Hex.antt =====
-- Hexadecimal keys: `/^[a-f0-9]{64}$/i.test(value)` and `value.toLowerCase()`.
use Prim.Native.Char.{Char, code}
use peer_hours.Prelude.{Bool, true, ◌&&◌, ◌||◌, String, leb, ◌==◌, count_equality, if◌then◌else◌}
use peer_hours.Script.Text.{utf16_length}

-- `[a-f0-9]*` with the flag `i`
unfoldable pub is_hex : String → Bool
is_hex String.[] = true
is_hex (String.◌∷◌ c s) =
    (leb 97 (code c) && leb (code c) 102
      || leb 65 (code c) && leb (code c) 70
      || leb 48 (code c) && leb (code c) 57)
    && is_hex s

unfoldable pub is_hex_key : String → Bool
unfolding is_hex
is_hex_key value = is_hex value && utf16_length value == 64

abbrev lower_char : Char → Char
lower_char c =
    if code c == 65
    then "a"
    else if code c == 66
    then "b"
    else if code c == 67
    then "c"
    else if code c == 68
    then "d"
    else if code c == 69
    then "e"
    else if code c == 70
    then "f"
    else c

-- `toLowerCase` of a hexadecimal text. The code lowers other texts only to compare them with a
-- hexadecimal one, and no other character has a hexadecimal digit as its lower case.
unfoldable pub to_lower_case : String → String
to_lower_case String.[] = String.[]
to_lower_case (String.◌∷◌ c s) = String.◌∷◌ (lower_char c) (to_lower_case s)
