-- ===== src/Records/Timebank/Fields.antt =====
-- What the tests of a payload's fields let pass.
use peer_hours.Prelude.{false, String, Option, ◌≡◌, arith, text_equality, ok}
use peer_hours.Script.Text.{is_blank}
use peer_hours.Script.Number.{Number, is_bad_amount}
use peer_hours.Records.Json.{Json}
use peer_hours.Records.Timebank.{assert_text, assert_minutes}

pub assert_text-ok :
    (o : Option Json) (label : String) {s : String}
    → assert_text o label ≡ ok s
    → is_blank s ≡ false
unfolding assert_text
assert_text-ok o label h = ground arith

pub assert_minutes-ok :
    (o : Option Json) (label : String) {n : Number}
    → assert_minutes o label ≡ ok n
    → is_bad_amount n ≡ false
unfolding assert_minutes
assert_minutes-ok o label h = ground arith
