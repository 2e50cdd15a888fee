-- ===== src/Script/Sort/Laws.antt =====
-- A sort keeps the items; where any two items are told apart it is the one ascending list of them.
use peer_hours.Prelude.{
  ◌≡◌, refl, sym, ap, ◌∙◌, map, ◌⊎◌, inl, inr, Bool, true, false, List, [], ◌∷◌, Bool-cases,
  if◌then◌else◌, Occurs, here, there, Occurs-nil, SameSet, All, All-of_Occurs, All-Occurs,
}
use mathlib.Core.Path.{subst}
use peer_hours.Script.Sort.{insert, sort}

module _ {ℓ} {A : Type ℓ} (lt : A → A → Bool) where
  insert-Occurs : {a : A} (x : A) (ys : List A) → Occurs a (insert lt x ys) → (a ≡ x) ⊎ Occurs a ys
  unfolding insert
  insert-Occurs x [] (here e) = inl e
  insert-Occurs x [] (there o) = inr o
  insert-Occurs {a} x (y ∷ ys) o = split (lt y x) (insert-Occurs x ys) o
    where
      split :
          (t : Bool)
          → (Occurs a (insert lt x ys) → (a ≡ x) ⊎ Occurs a ys)
          → Occurs a (if t then y ∷ insert lt x ys else x ∷ y ∷ ys)
          → (a ≡ x) ⊎ Occurs a (y ∷ ys)
      split true ih (here e) = inr (here e)
      split true ih (there o) = elim (ih o) [ inl e ↦ inl e | inr old ↦ inr (there old) ]
      split false ih (here e) = inl e
      split false ih (there o) = inr o

  Occurs-insert_self : (x : A) (ys : List A) → Occurs x (insert lt x ys)
  unfolding insert
  Occurs-insert_self x [] = here refl
  Occurs-insert_self x (y ∷ ys) = split (lt y x) (Occurs-insert_self x ys)
    where
      split :
          (t : Bool)
          → Occurs x (insert lt x ys)
          → Occurs x (if t then y ∷ insert lt x ys else x ∷ y ∷ ys)
      split true ih = there ih
      split false ih = here refl

  Occurs-insert : {a : A} (x : A) {ys : List A} → Occurs a ys → Occurs a (insert lt x ys)
  unfolding insert
  Occurs-insert {a} x (here {x = y} {xs = ys} e) = split (lt y x)
    where
      split : (t : Bool) → Occurs a (if t then y ∷ insert lt x ys else x ∷ y ∷ ys)
      split true = here e
      split false = there (here e)
  Occurs-insert {a} x (there {x = y} {xs = ys} o) = split (lt y x) (Occurs-insert x o)
    where
      split :
          (t : Bool)
          → Occurs a (insert lt x ys)
          → Occurs a (if t then y ∷ insert lt x ys else x ∷ y ∷ ys)
      split true ih = there ih
      split false ih = there (there o)

  pub sort-Occurs : {a : A} (xs : List A) → Occurs a (sort lt xs) → Occurs a xs
  unfolding sort
  sort-Occurs [] o = o
  sort-Occurs (x ∷ xs) o = elim (insert-Occurs x (sort lt xs) o) [
    | inl e ↦ here e
    | inr old ↦ there (sort-Occurs xs old)
  ]

  pub Occurs-sort : {a : A} {xs : List A} → Occurs a xs → Occurs a (sort lt xs)
  unfolding sort
  Occurs-sort (here {x} {xs} e) = rw e (Occurs-insert_self x (sort lt xs))
  Occurs-sort (there {x} o) = Occurs-insert x (Occurs-sort o)

  -- Strictly ascending.
  abbrev pub IsSorted : List A → Type ℓ
  IsSorted [] = Unit
  IsSorted (x ∷ xs) = All (λ y. lt x y ≡ true) xs × IsSorted xs

  -- Every two items at different places are told apart.
  abbrev pub IsApart : List A → Type ℓ
  IsApart [] = Unit
  IsApart (x ∷ xs) = All (λ y. (lt x y ≡ true) ⊎ (lt y x ≡ true)) xs × IsApart xs

  module _ (lt_trans : (a b c : A) → lt a b ≡ true → lt b c ≡ true → lt a c ≡ true) where
    All-trans :
        (x y : A) (ys : List A)
        → lt x y ≡ true
        → All (λ z. lt y z ≡ true) ys
        → All (λ z. lt x z ≡ true) ys
    All-trans x y [] h k = tt
    All-trans x y (z ∷ zs) h (p, k) = (lt_trans x y z h p, All-trans x y zs h k)

    All-insert : (P : A → Type 0) (x : A) (ys : List A) → P x → All P ys → All P (insert lt x ys)
    All-insert P x ys p h =
        All-of_Occurs P (insert lt x ys)
          λ a o. elim (insert-Occurs x ys o) [ inl e ↦ rw e p | inr old ↦ All-Occurs P h old ]

    insert-IsSorted :
        (x : A) (ys : List A)
        → All (λ y. (lt x y ≡ true) ⊎ (lt y x ≡ true)) ys
        → IsSorted ys
        → IsSorted (insert lt x ys)
    unfolding insert
    insert-IsSorted x [] h s = (tt, tt)
    insert-IsSorted x (y ∷ ys) (apart, h) (least, s) = elim (Bool-cases (lt y x)) [
      | inl before ↦
          rw before (All-insert (λ z. lt y z ≡ true) x ys before least, insert-IsSorted x ys h s)
      | inr other ↦ rw other (
          let first : lt x y ≡ true = elim apart [ inl p ↦ p | inr q ↦ cc ] in
          ((first, All-trans x y ys first least), (least, s)))
    ]

    pub sort-IsSorted : (xs : List A) → IsApart xs → IsSorted (sort lt xs)
    unfolding sort
    sort-IsSorted [] h = tt
    sort-IsSorted (x ∷ xs) (h, k) =
        insert-IsSorted x (sort lt xs)
          (All-of_Occurs _ (sort lt xs) (λ a o. All-Occurs _ h (sort-Occurs xs o)))
          (sort-IsSorted xs k)

  module _ (lt_irrefl : (a : A) → lt a a ≡ true → ⊥)
      (lt_trans : (a b c : A) → lt a b ≡ true → lt b c ≡ true → lt a c ≡ true) where
    same_head :
        (x y : A) (xs ys : List A)
        → IsSorted (x ∷ xs)
        → IsSorted (y ∷ ys)
        → Occurs x (y ∷ ys)
        → Occurs y (x ∷ xs)
        → x ≡ y
    same_head x y xs ys s t (here e) o = e
    same_head x y xs ys s t (there p) (here e) = sym e
    same_head x y xs ys (h, s) (k, t) (there p) (there o) =
        absurd (lt_irrefl x (lt_trans x y x (All-Occurs _ h o) (All-Occurs _ k p)))

    tail_item :
        {a : A} (x : A) (xs ys : List A)
        → IsSorted (x ∷ xs)
        → ((b : A) → Occurs b (x ∷ xs) → Occurs b (x ∷ ys))
        → Occurs a xs
        → Occurs a ys
    tail_item {a} x xs ys (h, s) to o = tail (to a (there o))
      where
        tail : Occurs a (x ∷ ys) → Occurs a ys
        tail (here e) = absurd (lt_irrefl x (rw e at (All-Occurs _ h o)))
        tail (there p) = p

    -- Ascending lists with the same items are equal.
    pub eq_of_IsSorted : (xs ys : List A) → IsSorted xs → IsSorted ys → SameSet xs ys → xs ≡ ys
    eq_of_IsSorted [] [] s t h = refl
    eq_of_IsSorted [] (y ∷ ys) s t h = absurd (Occurs-nil ((h y).1 (here refl)))
    eq_of_IsSorted (x ∷ xs) [] s t h = absurd (Occurs-nil ((h x).0 (here refl)))
    eq_of_IsSorted (x ∷ xs) (y ∷ ys) s t h =
        let e : x ≡ y = same_head x y xs ys s t ((h x).0 (here refl)) ((h y).1 (here refl)) in
        let t' : IsSorted (x ∷ ys) = rw e t in
        let h' : SameSet (x ∷ xs) (x ∷ ys) = subst (λ z. SameSet (x ∷ xs) (z ∷ ys)) (sym e) h in
        let rest : xs ≡ ys =
          eq_of_IsSorted xs ys s.1 t.1
            (λ a. (tail_item x xs ys s (λ b. (h' b).0), tail_item x ys xs t' (λ b. (h' b).1))) in
        rw (← e, rest)

  -- Weakly ascending: no item goes before the one in front of it.
  abbrev Follows : A → List A → Type 0
  Follows x [] = Unit
  Follows x (y ∷ ys) = lt y x ≡ false

  abbrev IsSteady : List A → Type 0
  IsSteady [] = Unit
  IsSteady (x ∷ xs) = Follows x xs × IsSteady xs

  module _ (lt_asym : (a b : A) → lt a b ≡ true → lt b a ≡ false) where
    Follows-insert :
        (z x : A) (ys : List A) → Follows z ys → lt x z ≡ false → Follows z (insert lt x ys)
    unfolding insert
    Follows-insert z x [] h k = k
    Follows-insert z x (y ∷ ys) h k = elim (Bool-cases (lt y x)) [
      | inl before ↦ rw before h
      | inr other ↦ rw other k
    ]

    insert-IsSteady : (x : A) (ys : List A) → IsSteady ys → IsSteady (insert lt x ys)
    unfolding insert
    insert-IsSteady x [] s = (tt, tt)
    insert-IsSteady x (y ∷ ys) (h, s) = elim (Bool-cases (lt y x)) [
      | inl before ↦
          rw before (Follows-insert y x ys h (lt_asym y x before), insert-IsSteady x ys s)
      | inr other ↦ rw other (other, (h, s))
    ]

    sort-IsSteady : (xs : List A) → IsSteady (sort lt xs)
    unfolding sort
    sort-IsSteady [] = tt
    sort-IsSteady (x ∷ xs) = insert-IsSteady x (sort lt xs) (sort-IsSteady xs)

    insert_first : (x : A) (ys : List A) → Follows x ys → insert lt x ys ≡ x ∷ ys
    unfolding insert
    insert_first x [] h = refl
    insert_first x (y ∷ ys) h = rw h refl

    sort_steady : (xs : List A) → IsSteady xs → sort lt xs ≡ xs
    unfolding sort
    sort_steady [] s = refl
    sort_steady (x ∷ xs) (h, s) = rw (sort_steady xs s, insert_first x xs h) refl

    -- Sorting twice is sorting once.
    pub sort-sort : (xs : List A) → sort lt (sort lt xs) ≡ sort lt xs
    sort-sort xs = sort_steady (sort lt xs) (sort-IsSteady xs)

module _ {ℓ κ} {A : Type ℓ} {B : Type κ} (f : A → B) (lt : B → B → Bool) where
  abbrev lt_by : A → A → Bool
  lt_by a b = lt (f a) (f b)

  map-insert : (x : A) (ys : List A) → map f (insert lt_by x ys) ≡ insert lt (f x) (map f ys)
  unfolding insert
  map-insert x [] = refl
  map-insert x (y ∷ ys) = elim (Bool-cases (lt (f y) (f x))) [
    | inl before ↦ rw (before, map-insert x ys) refl
    | inr other ↦ rw other refl
  ]

  -- Sorting by what a function reads is sorting what it reads.
  pub map-sort : (xs : List A) → map f (sort lt_by xs) ≡ sort lt (map f xs)
  unfolding sort
  map-sort [] = refl
  map-sort (x ∷ xs) = map-insert x (sort lt_by xs) ∙ ap (insert lt (f x)) (map-sort xs)
