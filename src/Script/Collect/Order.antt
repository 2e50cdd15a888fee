-- ===== src/Script/Collect/Order.antt =====
-- The sorted values of a collected map: one list for all orders and repetitions of the items, where
-- the comparator tells values with different keys apart.
use peer_hours.Prelude.{
  String, ◌≡◌, ◌≢◌, refl, sym, ap, ◌∙◌, ◌⊎◌, Bool, true, List, [], ◌∷◌, Occurs, here, there,
  SameSet, All-of_Occurs, Error, Result, ok,
}
use peer_hours.Script.Map.{Map, values}
use peer_hours.Script.Map.Laws.{IsKeyed, HasUniqueKeys, HasNoKey}
use peer_hours.Script.Sort.{sort}
use peer_hours.Script.Sort.Laws.{IsApart, sort-IsSorted, sort-Occurs, Occurs-sort, eq_of_IsSorted}
use peer_hours.Script.Collect.{collect, collect-IsKeyed, Occurs-values_iff}

module _ {B : Type 0} (key : B → String) where
  pub Occurs-key :
      (k : String) (m : Map B) (b : B)
      → IsKeyed key m
      → HasNoKey k m
      → Occurs b (values m)
      → k ≢ key b
  Occurs-key k ((j, w) ∷ m) b (e, h) (n, u) (here same) = λ p. n (e ∙ ap key (sym same) ∙ sym p)
  Occurs-key k ((j, w) ∷ m) b (e, h) (n, u) (there o) = Occurs-key k m b h u o
  Occurs-key k [] b h u o = elim o [ ]

  module _ {A : Type 0} ⦃d : Discrete B⦄ (check : A → Result B) (conflict : Error) where
    pub values_same :
        (xs ys : List A) (m n : Map B)
        → SameSet xs ys
        → collect check key conflict [] xs ≡ ok m
        → collect check key conflict [] ys ≡ ok n
        → SameSet (values m) (values n)
    values_same xs ys m n s h h' b = (
      λ o.
          let (x, p, e) = (Occurs-values_iff check key conflict xs m b h).0 o in
          (Occurs-values_iff check key conflict ys n b h').1 (x, (s x).0 p, e),
      λ o.
          let (x, p, e) = (Occurs-values_iff check key conflict ys n b h').0 o in
          (Occurs-values_iff check key conflict xs m b h).1 (x, (s x).1 p, e),
    )

module _ {B : Type 0} (key : B → String) (lt : B → B → Bool) where
  -- The comparator tells values with different keys apart.
  abbrev pub Separates : List B → Type 0
  Separates vs =
      (a b : B) → Occurs a vs → Occurs b vs → key a ≢ key b → (lt a b ≡ true) ⊎ (lt b a ≡ true)

  pub values-IsApart :
      (m : Map B) → IsKeyed key m → HasUniqueKeys m → Separates (values m) → IsApart lt (values m)
  values-IsApart [] h u s = tt
  values-IsApart ((j, w) ∷ m) (e, h) (n, u) s = (
    All-of_Occurs _ (values m)
        (λ b o. s w b (here refl) (there o) (λ p. Occurs-key key j m b h n o (e ∙ p))),
    values-IsApart m h u (λ a b o p. s a b (there o) (there p)),
  )

  module _ (lt_irrefl : (a : B) → lt a a ≡ true → ⊥)
      (lt_trans : (a b c : B) → lt a b ≡ true → lt b c ≡ true → lt a c ≡ true) where
    module _ {A : Type 0} ⦃d : Discrete B⦄ (check : A → Result B) (conflict : Error) where
      pub sort-values_same :
          (xs ys : List A) (m n : Map B)
          → SameSet xs ys
          → collect check key conflict [] xs ≡ ok m
          → collect check key conflict [] ys ≡ ok n
          → Separates (values m)
          → sort lt (values m) ≡ sort lt (values n)
      sort-values_same xs ys m n s h h' apart =
          let same = values_same key check conflict xs ys m n s h h' in
          let (w, u) = collect-IsKeyed check key conflict xs [] m h (tt, tt) in
          let (w', u') = collect-IsKeyed check key conflict ys [] n h' (tt, tt) in
          let apart' : Separates (values n) = λ a b o p. apart a b ((same a).1 o) ((same b).1 p) in
          eq_of_IsSorted lt lt_irrefl lt_trans (sort lt (values m)) (sort lt (values n))
            (sort-IsSorted lt lt_trans (values m) (values-IsApart m w u apart))
            (sort-IsSorted lt lt_trans (values n) (values-IsApart n w' u' apart'))
            (λ b. (
              λ o. Occurs-sort lt ((same b).0 (sort-Occurs lt (values m) o)),
              λ o. Occurs-sort lt ((same b).1 (sort-Occurs lt (values n) o)),
            ))
