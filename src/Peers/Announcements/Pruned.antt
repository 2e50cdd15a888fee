-- ===== src/Peers/Announcements/Pruned.antt =====
-- What pruning keeps in the cache: packages/peer-runtime/src/index.ts.
use peer_hours.Prelude.{
  ◌+◌, ◌≤◌, false, String, some, [], ◌∷◌, length, All, Occurs, Occurs-nil, here, there, ◌≡◌, ◌≢◌,
  inl, inr, Bool-cases, ◌==◌, text_equality, ℤ, arith,
}
use peer_hours.Script.Map.{Map, get, set, values}
use peer_hours.Script.Map.Laws.{HasUniqueKeys}
use peer_hours.Identity.Owned.{MemberFeedAnnouncement}
use peer_hours.Peers.Announcements.{is_expired_member_feed_announcement, prune}

module _ {ℓ} {V : Type ℓ} where
  pub length-set_new : (m : Map V) (k : String) (v : V) → length (set m k v) ≤ length m + 1
  unfolding set
  length-set_new [] k v = omega arith
  length-set_new ((j, w) ∷ m) k v = ground (arith, length-set_new m k v)

  pub length-set_old :
      (m : Map V) (k : String) (v w : V) → get m k ≡ some w → length (set m k v) ≡ length m
  unfolding get set
  length-set_old [] k v w h = cc
  length-set_old ((j, x) ∷ m) k v w h = ground (arith, length-set_old m k v w)

  pub set-All :
      (P : V → Type 0) (m : Map V) (k : String) (v : V)
      → All (λ e. P e.1) m
      → P v
      → All (λ e. P e.1) (set m k v)
  unfolding set
  set-All P [] k v h p = (p, tt)
  set-All P ((j, w) ∷ m) k v (q, h) p = elim (Bool-cases (j == k)) [
    | inl same ↦ rw same (p, h)
    | inr other ↦ rw other (q, set-All P m k v h p)
  ]

module _ (parse_date : String → ℤ) (now : ℤ) where
  -- An announcement of the cache that has not expired.
  abbrev pub Current : MemberFeedAnnouncement → Map MemberFeedAnnouncement → Type 0
  Current a m = Occurs a (values m) × (is_expired_member_feed_announcement parse_date now a ≡ false)

  pub length-prune : (m : Map MemberFeedAnnouncement) → length (prune parse_date now m) ≤ length m
  unfolding prune
  length-prune [] = omega arith
  length-prune ((k, a) ∷ m) = ground (arith, length-prune m)

  pub prune-All :
      (P : String × MemberFeedAnnouncement → Type 0) (m : Map MemberFeedAnnouncement)
      → All P m
      → All P (prune parse_date now m)
  unfolding prune
  prune-All P [] h = tt
  prune-All P ((k, a) ∷ m) (p, h) =
      elim (Bool-cases (is_expired_member_feed_announcement parse_date now a)) [
        | inl old ↦ rw old (prune-All P m h)
        | inr current ↦ rw current (p, prune-All P m h)
      ]

  pub prune-HasUniqueKeys :
      (m : Map MemberFeedAnnouncement) → HasUniqueKeys m → HasUniqueKeys (prune parse_date now m)
  unfolding prune
  prune-HasUniqueKeys [] h = tt
  prune-HasUniqueKeys ((k, a) ∷ m) (n, h) =
      elim (Bool-cases (is_expired_member_feed_announcement parse_date now a)) [
        | inl old ↦ rw old (prune-HasUniqueKeys m h)
        | inr current ↦ rw current (prune-All (λ e. e.0 ≢ k) m n, prune-HasUniqueKeys m h)
      ]

  kept_or_later :
      (k : String) (b : MemberFeedAnnouncement) (m : Map MemberFeedAnnouncement)
      (a : MemberFeedAnnouncement)
      → (Occurs a (values (prune parse_date now m)) → Current a m)
      → is_expired_member_feed_announcement parse_date now b ≡ false
      → Occurs a (b ∷ values (prune parse_date now m))
      → Current a ((k, b) ∷ m)
  kept_or_later k b m a later current (here e) = (here e, rw e current)
  kept_or_later k b m a later current (there o) = let (p, f) = later o in (there p, f)

  pub prune-Occurs :
      (m : Map MemberFeedAnnouncement) (a : MemberFeedAnnouncement)
      → Occurs a (values (prune parse_date now m))
      → Current a m
  unfolding prune
  prune-Occurs [] a o = absurd (Occurs-nil o)
  prune-Occurs ((k, b) ∷ m) a o =
      elim (Bool-cases (is_expired_member_feed_announcement parse_date now b)) [
        | inl old ↦ let (p, f) = prune-Occurs m a (rw old at o) in (there p, f)
        | inr current ↦ kept_or_later k b m a (prune-Occurs m a) current (rw current at o)
      ]

  pub Occurs-prune :
      (m : Map MemberFeedAnnouncement) (a : MemberFeedAnnouncement)
      → Current a m
      → Occurs a (values (prune parse_date now m))
  unfolding prune
  Occurs-prune [] a (o, c) = absurd (Occurs-nil o)
  Occurs-prune ((k, b) ∷ m) a (here e, c) =
      let current : is_expired_member_feed_announcement parse_date now b ≡ false = rw (← e) c in
      rw current (here e)
  Occurs-prune ((k, b) ∷ m) a (there o, c) =
      elim (Bool-cases (is_expired_member_feed_announcement parse_date now b)) [
        | inl old ↦ rw old (Occurs-prune m a (o, c))
        | inr current ↦ rw current (there (Occurs-prune m a (o, c)))
      ]
