-- ===== src/Script/Text/Separated.antt =====
-- Texts that `keyFor` of packages/timebank-identity/src/index.ts joins around NUL characters.
use Prim.Native.Char.{Char, code}
use Prim.Native.String.{◌++◌}
use text.Mathlib.TextLemmas.{nil-append, cons-append}
use peer_hours.Prelude.{
  ℕ, ◌+◌, ◌≡◌, refl, sym, ◌∙◌, ap, arith, String, ℕ_discrete, ◌==◌, count_equality, if◌then◌else◌,
}

-- How many NUL characters a text has.
unfoldable pub nuls : String → ℕ
nuls String.[] = 0
nuls (String.◌∷◌ c s) = if code c == 0 then nuls s + 1 else nuls s

pub nuls-append : (s t : String) → nuls (s ++ t) ≡ nuls s + nuls t
unfolding nuls
nuls-append String.[] t = rw (nil-append t) (omega arith)
nuls-append (String.◌∷◌ c s) t = rw (cons-append c s t) (ground (arith, nuls-append s t))

first : Char → String → Char
first d String.[] = d
first d (String.◌∷◌ c s) = c

rest : String → String
rest String.[] = String.[]
rest (String.◌∷◌ c s) = s

after_nul : (x : String) → "\0" ++ x ≡ String.◌∷◌ "\0" x
after_nul x = cons-append "\0" "" x ∙ ap (λ y. String.◌∷◌ "\0" y) (nil-append x)

-- The two texts around the first NUL character.
split_from :
    (s t x y : String)
    → nuls s ≡ 0
    → nuls t ≡ 0
    → s ++ String.◌∷◌ "\0" x ≡ t ++ String.◌∷◌ "\0" y
    → (s ≡ t) × (x ≡ y)
unfolding nuls first rest ℕ_discrete
split_from String.[] String.[] x y h k e =
    let f = rw (nil-append, nil-append (String.◌∷◌ "\0" y)) at e in (refl, ap rest f)
split_from String.[] (String.◌∷◌ d t) x y h k e =
    let f = rw (nil-append, cons-append) at e in
    let same : "\0" ≡ d = ap (first "\0") f in
    let filled : nuls (String.◌∷◌ "\0" t) ≡ 0 = rw (← same) at k in absurd (omega arith)
split_from (String.◌∷◌ c s) String.[] x y h k e =
    let f = rw (nil-append, cons-append) at e in
    let same : c ≡ "\0" = ap (first "\0") f in
    let filled : nuls (String.◌∷◌ "\0" s) ≡ 0 = rw same at h in absurd (omega arith)
split_from (String.◌∷◌ c s) (String.◌∷◌ d t) x y h k e =
    let f = rw (cons-append, cons-append d t (String.◌∷◌ "\0" y)) at e in
    let same : c ≡ d = ap (first "\0") f in
    let (left, right) = split_from s t x y (ground arith) (ground arith) (ap rest f) in
    (ap (λ u. String.◌∷◌ c u) left ∙ ap (λ b. String.◌∷◌ b t) same, right)

pub split :
    (s t x y : String)
    → nuls s ≡ 0
    → nuls t ≡ 0
    → s ++ ("\0" ++ x) ≡ t ++ ("\0" ++ y)
    → (s ≡ t) × (x ≡ y)
split s t x y h k e =
    split_from s t x y h k
      (sym (ap (λ z. s ++ z) (after_nul x)) ∙ e ∙ ap (λ z. t ++ z) (after_nul y))
