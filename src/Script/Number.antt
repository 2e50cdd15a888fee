-- ===== src/Script/Number.antt =====
-- JavaScript numbers, as far as the packages test and compare them.
use peer_hours.Prelude.{
  ℕ, zero, suc, ◌+◌, ◌≡◌, Bool, true, false, not, ◌&&◌, ◌||◌, arith, ltb, leb, ℤ, pos, negsuc,
  pos_part, neg_part, ltb_ℤ, ◌==◌, ==_refl, ℤ-discrete, ℕ_discrete,
}

-- `fraction z k` is the finite number z + k / 2 ^ 1074, for 0 < k < 2 ^ 1074: every finite number
-- is a multiple of 2 ^ -1074. `infinite true` is Infinity, `infinite false` is -Infinity.
pub data Number : Type 0 where
  whole : ℤ → Number
  fraction : ℤ → ℕ → Number
  infinite : Bool → Number
  nan : Number

unfoldable pub Bool-equality : Discrete Bool
Bool-equality = hlevel

instance unfoldable pub Number-discrete : Discrete Number
unfolding ℤ-discrete ℕ_discrete Bool-equality
Number-discrete = hlevel (ℤ-discrete, ℕ_discrete, Bool-equality)

-- `a === b`
unfoldable pub strictly_equal : Number → Number → Bool
strictly_equal nan b = false
strictly_equal a b = a == b

pub eq_of_strictly_equal : (a b : Number) → strictly_equal a b ≡ true → a ≡ b
unfolding strictly_equal
eq_of_strictly_equal a b h = ground arith

-- `Number.isFinite(n)`
unfoldable pub is_finite : Number → Bool
is_finite (infinite _) = false
is_finite nan = false
is_finite _ = true

-- `Number.isInteger(n)`
unfoldable pub is_integer : Number → Bool
is_integer (whole _) = true
is_integer _ = false

abbrev leb_ℤ : ℤ → ℤ → Bool
leb_ℤ a b = leb (pos_part a + neg_part b) (pos_part b + neg_part a)

-- `a < b`
unfoldable pub less : Number → Number → Bool
less (whole a) (whole b) = ltb_ℤ a b
less (whole a) (fraction z k) = leb_ℤ a z
less (fraction z k) (whole b) = ltb_ℤ z b
less (fraction z k) (fraction y j) = ltb_ℤ z y || leb_ℤ z y && leb_ℤ y z && ltb k j
less nan b = false
less a nan = false
less (infinite true) b = false
less (infinite false) (infinite s) = s
less (infinite false) b = true
less a (infinite s) = s

-- `!Number.isFinite(n) || !Number.isInteger(n) || n <= 0`, the guard of every amount of minutes.
unfoldable pub is_bad_amount : Number → Bool
unfolding is_finite is_integer less Number-discrete
is_bad_amount n =
    not (is_finite n) || not (is_integer n) || less n (whole (pos 0)) || n == whole (pos 0)

-- Minutes that pass the guard are a positive whole number.
pub amount_of_guard : (n : Number) → is_bad_amount n ≡ false → (m : ℕ) × (n ≡ whole (pos (suc m)))
unfolding is_bad_amount
amount_of_guard (whole (pos zero)) h = ground arith
amount_of_guard (whole (pos (suc m))) h = (m, ground arith)
amount_of_guard (whole (negsuc m)) h = ground arith
amount_of_guard (fraction z k) h = ground arith
amount_of_guard (infinite s) h = ground arith
amount_of_guard nan h = ground arith

pub guard_of_amount : (m : ℕ) → is_bad_amount (whole (pos (suc m))) ≡ false
unfolding is_bad_amount
guard_of_amount m = ground arith

-- The whole number that a number is; used only of numbers that passed the guard.
abbrev pub to_whole : Number → ℤ
to_whole (whole z) = z
to_whole _ = pos 0

pub strictly_equal_self : (n : Number) → is_bad_amount n ≡ false → strictly_equal n n ≡ true
unfolding is_bad_amount is_finite strictly_equal
strictly_equal_self n h = ground (arith, ==_refl n)

pub finite_of_guard : (n : Number) → is_bad_amount n ≡ false → is_finite n ≡ true
unfolding is_bad_amount
finite_of_guard n h = ground arith
