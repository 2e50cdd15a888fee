-- ===== src/Script/Collect.antt =====
-- The loop that many reductions share: check each item, refuse one whose key stands in the map with
-- other content, and set it. A repeated item is set again and changes nothing.
pub mod Order
pub mod Distinct
use peer_hours.Prelude.{
  String, ◌≡◌, refl, sym, ap, ◌∙◌, ◌⊎◌, inl, inr, Bool, false, Option, none, some, List, [], ◌∷◌,
  arith, ◌==◌, ◌!=◌, text_equality, Bool-cases, eq_of_==, ==_refl, Occurs, here, there, Occurs-nil,
  SameSet, ◌↔◌, Error, Result, ok, throw_if, ◌>>=◌, ◌>>◌, Result-cases,
}
use peer_hours.Script.Map.{Map, get, set, values}
use peer_hours.Script.Map.Laws.{
  get-set, IsKeyed, HasUniqueKeys, set-IsKeyed, set-HasUniqueKeys, Occurs-values_of_get,
  get_of_Occurs-values,
}

module _ {A B : Type 0} ⦃d : Discrete B⦄ (check : A → Result B) (key : B → String)
    (conflict : Error) where
  -- `existing !== undefined && JSON.stringify(existing) !== JSON.stringify(item)`
  unfoldable pub clashes : Option B → B → Bool
  clashes none b = false
  clashes (some old) b = old != b

  unfoldable pub collect : Map B → List A → Result (Map B)
  unfolding clashes
  collect m [] = ok m
  collect m (x ∷ xs) = do
    b ← check x
    throw_if (clashes (get m (key b)) b) conflict
    collect (set m (key b) b) xs

  -- One round of the loop that does not throw.
  pub collect-cons :
      (m : Map B) (x : A) (xs : List A) {n : Map B}
      → collect m (x ∷ xs) ≡ ok n
      → (b : B) × (check x ≡ ok b)
        × (clashes (get m (key b)) b ≡ false)
        × (collect (set m (key b) b) xs ≡ ok n)
  unfolding collect
  collect-cons m x xs h = elim (Result-cases (check x)) [
    | inl (b, e) ↦ (b, e, ground arith, ground arith)
    | inr (e, f) ↦ absurd (ground arith)
  ]

  -- A set that does not clash keeps every lookup.
  get-set_kept :
      (m : Map B) (b : B) (k : String) (v : B)
      → clashes (get m (key b)) b ≡ false
      → get m k ≡ some v
      → get (set m (key b) b) k ≡ some v
  unfolding clashes
  get-set_kept m b k v h g = elim (Bool-cases (key b == k)) [
    | inl same ↦ ground (arith, get-set m (key b) k b, eq_of_== (key b) k same)
    | inr other ↦ rw (get-set m (key b) k b, other) g
  ]

  pub get-collect_kept :
      (xs : List A) (m n : Map B) (k : String) (v : B)
      → collect m xs ≡ ok n
      → get m k ≡ some v
      → get n k ≡ some v
  unfolding collect
  get-collect_kept [] m n k v h g = ground arith
  get-collect_kept (x ∷ xs) m n k v h g =
      let (b, e, c, r) = collect-cons m x xs h in
      get-collect_kept xs (set m (key b) b) n k v r (get-set_kept m b k v c g)

  get-set_self : (m : Map B) (b : B) → get (set m (key b) b) (key b) ≡ some b
  get-set_self m b = rw (get-set m (key b) (key b) b, ==_refl (key b))

  -- Every item passes its check, and the map holds what the check returned.
  pub get-collect_item :
      (xs : List A) (m n : Map B) (x : A)
      → collect m xs ≡ ok n
      → Occurs x xs
      → (b : B) × (check x ≡ ok b) × (get n (key b) ≡ some b)
  get-collect_item [] m n x h o = absurd (Occurs-nil o)
  get-collect_item (y ∷ ys) m n x h (here same) =
      let (b, e, c, r) = collect-cons m y ys h in
      (b, ap check same ∙ e, get-collect_kept ys (set m (key b) b) n (key b) b r (get-set_self m b))
  get-collect_item (y ∷ ys) m n x h (there o) =
      let (b, e, c, r) = collect-cons m y ys h in get-collect_item ys (set m (key b) b) n x r o

  -- The map holds nothing else.
  abbrev pub Source : List A → String → B → Type 0
  Source xs k v = (x : A) × Occurs x xs × (check x ≡ ok v) × (key v ≡ k)

  pub collect-Source :
      (xs : List A) (m n : Map B) (k : String) (v : B)
      → collect m xs ≡ ok n
      → get n k ≡ some v
      → (get m k ≡ some v) ⊎ Source xs k v
  unfolding collect
  collect-Source [] m n k v h g = inl (ground arith)
  collect-Source (x ∷ xs) m n k v h g =
      let (b, e, c, r) = collect-cons m x xs h in
      elim (collect-Source xs (set m (key b) b) n k v r g) [
        | inl old ↦ elim (Bool-cases (key b == k)) [
          | inl same ↦ inr (
              let found : b ≡ v = ground (arith, get-set m (key b) k b) in
              (x, here refl, rw (← found) e, rw (← found) (eq_of_== (key b) k same)))
          | inr other ↦ inl (ground (arith, get-set m (key b) k b))
        ]
        | inr (y, o, f, at) ↦ inr (y, there o, f, at)
      ]

  no_clash :
      (o : Option B) (b : B) (p : Option B)
      → p ≡ some b
      → ((v : B) → o ≡ some v → p ≡ some v)
      → clashes o b ≡ false
  unfolding clashes
  no_clash none b p g h = refl
  no_clash (some old) b p g h = ground (arith, h old refl, ==_refl b)

  still :
      (m t : Map B) (b : B)
      → get t (key b) ≡ some b
      → ((k : String) (v : B) → get m k ≡ some v → get t k ≡ some v)
      → (k : String) (v : B) → get (set m (key b) b) k ≡ some v
      → get t k ≡ some v
  still m t b g below k v h = elim (Bool-cases (key b == k)) [
    | inl same ↦ ground (arith, get-set m (key b) k b, eq_of_== (key b) k same)
    | inr other ↦ below k v (ground (arith, get-set m (key b) k b))
  ]

  -- The loop ends well if every item's check returns what one given map holds under its key.
  pub collect_total :
      (xs : List A) (m t : Map B)
      → ((k : String) (v : B) → get m k ≡ some v → get t k ≡ some v)
      → ((x : A) → Occurs x xs → (b : B) × (check x ≡ ok b) × (get t (key b) ≡ some b))
      → (n : Map B) × (collect m xs ≡ ok n)
  unfolding collect
  collect_total [] m t below items = (m, refl)
  collect_total (x ∷ xs) m t below items =
      let (b, e, g) = items x (here refl) in
      let fits : clashes (get m (key b)) b ≡ false =
        no_clash (get m (key b)) b (get t (key b)) g (below (key b)) in
      let (n, r) =
        collect_total xs (set m (key b) b) t (λ k v h. still m t b g below k v h)
          (λ y o. items y (there o)) in
      (n, rw (e, fits) r)

  pub collect-IsKeyed :
      (xs : List A) (m n : Map B)
      → collect m xs ≡ ok n
      → IsKeyed key m × HasUniqueKeys m
      → IsKeyed key n × HasUniqueKeys n
  unfolding collect
  collect-IsKeyed [] m n h w = let e : m ≡ n = ground arith in rw (← e) w
  collect-IsKeyed (x ∷ xs) m n h (w, u) =
      let (b, e, c, r) = collect-cons m x xs h in
      collect-IsKeyed xs (set m (key b) b) n r
        (set-IsKeyed key m b w, set-HasUniqueKeys m (key b) b u)

  -- The values collected from the empty map are what the checks returned.
  pub Occurs-values_iff :
      (xs : List A) (n : Map B) (b : B)
      → collect [] xs ≡ ok n
      → Occurs b (values n) ↔ ((x : A) × Occurs x xs × (check x ≡ ok b))
  Occurs-values_iff xs n b h = (
    λ o.
        let (w, u) = collect-IsKeyed xs [] n h (tt, tt) in
        elim (collect-Source xs [] n (key b) b h (get_of_Occurs-values key n b w u o)) [
          | inl old ↦ absurd (unfold get in ground arith)
          | inr (x, p, e, at) ↦ (x, p, e)
        ],
    λ (x, p, e).
        let (b', f, g) = get-collect_item xs [] n x h p in
        let same : b' ≡ b = ground arith in rw (← same) (Occurs-values_of_get key n (key b') b' g),
  )

  included :
      (xs ys : List A) (m n : Map B) (k : String) (v : B)
      → ((a : A) → Occurs a xs → Occurs a ys)
      → collect [] xs ≡ ok m
      → collect [] ys ≡ ok n
      → get m k ≡ some v
      → get n k ≡ some v
  included xs ys m n k v s h h' g = elim (collect-Source xs [] m k v h g) [
    | inl old ↦ absurd (unfold get in ground arith)
    | inr (x, o, e, at) ↦
        let (b, f, found) = get-collect_item ys [] n x h' (s x o) in
        let same : b ≡ v = ground arith in ground arith
  ]

  same_option :
      (o p : Option B)
      → ((v : B) → o ≡ some v → p ≡ some v)
      → ((v : B) → p ≡ some v → o ≡ some v)
      → o ≡ p
  same_option none none h k = refl
  same_option none (some v) h k = k v refl
  same_option (some v) p h k = sym (h v refl)

  -- Order and repetition do not matter: the same items give a map with the same lookups.
  pub collect_same :
      (xs ys : List A) (n : Map B)
      → SameSet xs ys
      → collect [] xs ≡ ok n
      → (m : Map B) × (collect [] ys ≡ ok m) × ((k : String) → get m k ≡ get n k)
  collect_same xs ys n s h =
      let (m, r) =
        collect_total ys [] n (λ k v g. absurd (unfold get in ground arith))
          (λ y o. get-collect_item xs [] n y h ((s y).1 o)) in
      (
        m,
        r,
        λ k.
            same_option (get m k) (get n k) (λ v. included ys xs m n k v (λ a. (s a).1) r h)
              (λ v. included xs ys n m k v (λ a. (s a).0) h r),
      )
