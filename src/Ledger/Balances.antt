-- ===== src/Ledger/Balances.antt =====
-- The balances under construction: a plain object, whose properties are read with `?? 0`.
-- Members that `Object.prototype` lends to every object are read where no own property stands.
pub mod Laws
use peer_hours.Prelude.{
  Bool, false, String, none, some, List, [], ◌∷◌, contains, ◌==◌, text_equality, if◌then◌else◌, ℤ,
  pos, ◌+ℤ◌, ◌-ℤ◌, ltb_ℤ,
}
use peer_hours.Script.Number.{to_whole}
use peer_hours.Script.Map.{Map, get, set}
use peer_hours.Ledger.Types.{Transfer, LedgerPosting, LedgerPolicy, Amount, number, text}

-- The own properties of `Object.prototype` (ECMA-262).
abbrev pub inherited_names : List String
inherited_names =
    "constructor" ∷ "__defineGetter__" ∷ "__defineSetter__" ∷ "hasOwnProperty" ∷ "__lookupGetter__"
    ∷ "__lookupSetter__" ∷ "isPrototypeOf" ∷ "propertyIsEnumerable" ∷ "toString" ∷ "valueOf"
    ∷ "__proto__" ∷ "toLocaleString" ∷ []

unfoldable pub is_inherited : String → Bool
is_inherited name = contains inherited_names name

-- `balances[id] ?? 0`; an inherited member is a function or an object, which `+` turns into a text.
unfoldable pub read : Map Amount → String → Amount
read balances id = elim (get balances id) [
  | some amount ↦ amount
  | none ↦ if is_inherited id then text else number (pos 0)
]

-- `balances[id] = amount`; setting `__proto__` to what is no object does nothing.
unfoldable pub write : Map Amount → String → Amount → Map Amount
write balances id amount = if id == "__proto__" then balances else set balances id amount

abbrev pub add_minutes : Amount → ℤ → Amount
add_minutes (number z) minutes = number (z +ℤ minutes)
add_minutes text minutes = text

unfoldable pub apply_postings : Map Amount → List LedgerPosting → Map Amount
unfolding read write
apply_postings balances [] = balances
apply_postings balances (posting ∷ postings) =
    apply_postings
      (write balances posting.member_id
        (add_minutes (read balances posting.member_id) posting.minutes))
      postings

-- `balance - minutes < minimum`: a text that is no numeral becomes NaN, which is below nothing.
abbrev pub falls_below : Amount → ℤ → ℤ → Bool
falls_below (number z) minutes minimum = ltb_ℤ (z -ℤ minutes) minimum
falls_below text minutes minimum = false

unfoldable pub would_cross_minimum_balance : Transfer → Map Amount → LedgerPolicy → Bool
unfolding read
would_cross_minimum_balance transfer balances policy =
    falls_below (read balances transfer.recipient_member_id) (to_whole transfer.minutes)
      (to_whole policy.minimum_balance_minutes)
