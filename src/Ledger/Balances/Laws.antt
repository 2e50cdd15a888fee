-- ===== src/Ledger/Balances/Laws.antt =====
-- Balances against the postings they come from, and their total.
use peer_hours.Prelude.{
  ◌≡◌, refl, sym, ap, ◌∙◌, inl, inr, false, String, Option, none, some, List, [], ◌∷◌, ◌++◌, arith,
  ◌==◌, text_equality, if◌then◌else◌, Bool-cases, eq_of_==, ℤ, pos, ◌+ℤ◌, +ℤ_assoc, +ℤ-zero,
  zero-+ℤ, int_laws, All,
}
use peer_hours.Script.Map.{Map, get, set}
use peer_hours.Script.Map.Laws.{get-set}
use peer_hours.Ledger.Types.{LedgerPosting, Amount, number, text}
use peer_hours.Ledger.Balances.{is_inherited, read, write, add_minutes, apply_postings}

-- The minutes that postings move to one member.
abbrev pub tally : String → List LedgerPosting → ℤ
tally member [] = pos 0
tally member (p ∷ ps) = (if p.member_id == member then p.minutes else pos 0) +ℤ tally member ps

-- All minutes that postings move.
abbrev pub moved : List LedgerPosting → ℤ
moved [] = pos 0
moved (p ∷ ps) = p.minutes +ℤ moved ps

-- The sum of all balances.
abbrev pub minutes_in : Amount → ℤ
minutes_in (number z) = z
minutes_in text = pos 0

abbrev pub total : Map Amount → ℤ
total [] = pos 0
total ((k, a) ∷ m) = minutes_in a +ℤ total m

abbrev pub HasNumbers : Map Amount → Type 0
HasNumbers m = All (λ e. e.1 ≡ number (minutes_in e.1)) m

abbrev pub IsPlain : String → Type 0
IsPlain id = is_inherited id ≡ false

abbrev pub PostsPlain : List LedgerPosting → Type 0
PostsPlain ps = All (λ p. IsPlain p.member_id) ps

proto_inherited : (id : String) → IsPlain id → (id == "__proto__") ≡ false
unfolding is_inherited
proto_inherited id h = ground arith

add_add : (a : Amount) (y z : ℤ) → add_minutes (add_minutes a y) z ≡ add_minutes a (y +ℤ z)
add_add (number x) y z = ap number (+ℤ_assoc x y z)
add_add text y z = refl

add_none : (a : Amount) → add_minutes a (pos 0) ≡ a
add_none (number x) = ap number (+ℤ-zero x)
add_none text = refl

-- A write to any member leaves a plain one its own balance.
read-write :
    (m : Map Amount) (k j : String) (a : Amount)
    → IsPlain j
    → read (write m k a) j ≡ (if k == j then a else read m j)
unfolding read write
read-write m k j a h = elim (Bool-cases (k == "__proto__")) [
  | inl proto ↦
      let e = eq_of_== k "__proto__" proto in
      let apart : (k == j) ≡ false = elim (Bool-cases (k == j)) [
        | inr other ↦ other
        | inl same ↦ absurd (
            let f = eq_of_== k j same in
            let named : is_inherited k ≡ false = rw (← f) at h in
            cc (proto, proto_inherited k named))
      ] in
      rw (proto, apart) refl
  | inr other ↦ elim (Bool-cases (k == j)) [
    | inl same ↦ ground (arith, get-set m k j a)
    | inr apart ↦ ground (arith, get-set m k j a)
  ]
]

-- The balance of a plain member after postings to any members.
pub read-apply_postings :
    (ps : List LedgerPosting) (m : Map Amount) (id : String)
    → IsPlain id
    → read (apply_postings m ps) id ≡ add_minutes (read m id) (tally id ps)
unfolding apply_postings
read-apply_postings [] m id h = sym (add_none (read m id))
read-apply_postings (p ∷ ps) m id h =
    let next = write m p.member_id (add_minutes (read m p.member_id) p.minutes) in
    let ih = read-apply_postings ps next id h in
    let w = read-write m p.member_id id (add_minutes (read m p.member_id) p.minutes) h in
    elim (Bool-cases (p.member_id == id)) [
      | inl same ↦
          let e = eq_of_== p.member_id id same in
          ih
          ∙ ap (λ a. add_minutes a (tally id ps)) (w ∙ rw (same, e) refl)
          ∙ add_add (read m id) p.minutes (tally id ps)
          ∙ rw same refl
      | inr other ↦
          ih
          ∙ ap (λ a. add_minutes a (tally id ps)) (w ∙ rw other refl)
          ∙ ap (add_minutes (read m id)) (rw other (sym (zero-+ℤ (tally id ps))))
    ]

pub tally-append :
    (id : String) (ps qs : List LedgerPosting) → tally id (ps ++ qs) ≡ tally id ps +ℤ tally id qs
tally-append id [] qs = sym (zero-+ℤ (tally id qs))
tally-append id (p ∷ ps) qs =
    ap (λ z. (if p.member_id == id then p.minutes else pos 0) +ℤ z) (tally-append id ps qs)
    ∙ sym (+ℤ_assoc _ (tally id ps) (tally id qs))

-- Setting a property to its number and some minutes adds these to the total.
base : Option Amount → Amount
base none = number (pos 0)
base (some a) = a

total-set :
    (m : Map Amount) (k : String) (z : ℤ)
    → HasNumbers m
    → (total (set m k (add_minutes (base (get m k)) z)) ≡ total m +ℤ z)
      × HasNumbers (set m k (add_minutes (base (get m k)) z))
unfolding base get set
total-set [] k z h = (omega int_laws, (refl, tt))
total-set ((j, a) ∷ m) k z (e, h) = elim (Bool-cases (j == k)) [
  | inl same ↦ rw (same, e) (omega int_laws, (refl, h))
  | inr other ↦
      let (sum, numbers) = total-set m k z h in
      rw other
        (ap (λ t. minutes_in a +ℤ t) sum ∙ sym (+ℤ_assoc (minutes_in a) (total m) z), (e, numbers))
]

base-read : (m : Map Amount) (k : String) → IsPlain k → read m k ≡ base (get m k)
unfolding read base
base-read m k h = ground arith

pub total-apply_postings :
    (ps : List LedgerPosting) (m : Map Amount)
    → PostsPlain ps
    → HasNumbers m
    → (total (apply_postings m ps) ≡ total m +ℤ moved ps) × HasNumbers (apply_postings m ps)
unfolding apply_postings write
total-apply_postings [] m h n = (sym (+ℤ-zero (total m)), n)
total-apply_postings (p ∷ ps) m (plain, h) n =
    let next = set m p.member_id (add_minutes (base (get m p.member_id)) p.minutes) in
    let (sum, numbers) = total-set m p.member_id p.minutes n in
    let (rest, after) = total-apply_postings ps next h numbers in
    rw (proto_inherited p.member_id plain, base-read m p.member_id plain)
      (rest ∙ ap (λ t. t +ℤ moved ps) sum ∙ +ℤ_assoc (total m) p.minutes (moved ps), after)
