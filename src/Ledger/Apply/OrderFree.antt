-- ===== src/Ledger/Apply/OrderFree.antt =====
-- `applyTransfers` sees its input as a set.
use peer_hours.Prelude.{
  String, ◌≡◌, ◌≢◌, refl, sym, ap, ◌∙◌, ◌⊎◌, inl, inr, true, List, [], ◌∷◌, arith, Ordering, Occurs,
  SameSet, ok, >>=-eq-ok, Result-cases, Option-cases, ledger, conflicting_id,
}
use peer_hours.Script.Map.{Map, get, values}
use peer_hours.Script.Sort.{sort}
use peer_hours.Script.Collation.{Collation, before, before_irrefl, before_trans}
use peer_hours.Script.Collect.{Occurs-values_iff, collect_same}
use peer_hours.Script.Collect.Order.{Separates, sort-values_same}
use peer_hours.Ledger.Types.{Transfer, Ledger, SignatureVerifier, Transfer-discrete}
use peer_hours.Ledger.Transfers.{create_transfer, assert_present}
use peer_hours.Ledger.Transfers.Normal.{create_transfer-IsNormal}
use peer_hours.Ledger.Settling.{transfer_id}
use peer_hours.Ledger.Apply.{
  admit, transfers_by_id, assert_valid_reversals, by_id_order, apply_transfers, default_policy,
  normalize_ledger_policy,
}

-- A checked transfer is the created one.
pub admit-eq-create :
    (community : String) (verify : SignatureVerifier) (t u : Transfer)
    → admit community verify t ≡ ok u
    → create_transfer t ≡ ok u
unfolding admit
admit-eq-create community verify t u h = elim (Result-cases (create_transfer t)) [
  | inl (v, e) ↦ ground arith
  | inr (x, e) ↦ absurd (ground arith)
]

pub id-admit :
    (community : String) (verify : SignatureVerifier) (t u : Transfer)
    → admit community verify t ≡ ok u
    → u.id ≡ t.id
id-admit community verify t u h =
    ap (λ x. x.id) (create_transfer-IsNormal t u (admit-eq-create community verify t u h)).0

assert_valid_reversals_same :
    (m n : Map Transfer) (ts : List Transfer)
    → ((k : String) → get m k ≡ get n k)
    → assert_valid_reversals m ts ≡ assert_valid_reversals n ts
unfolding assert_valid_reversals
assert_valid_reversals_same m n [] h = refl
assert_valid_reversals_same m n (t ∷ ts) h = elim (Option-cases t.reverses_transfer_id) [
  | inl e ↦ rw (e, assert_valid_reversals_same m n ts h) refl
  | inr (k, e) ↦ rw (e, h k, assert_valid_reversals_same m n ts h) refl
]

module _ (c : Collation) where
  -- The collation tells the ids of different transfers apart.
  abbrev pub TellsIdsApart : List Transfer → Type 0
  TellsIdsApart ts =
      (s t : Transfer)
      → Occurs s ts
      → Occurs t ts
      → s.id ≢ t.id
      → c.locale_compare s.id t.id ≢ Ordering.eq

  ordered :
      (a b : String)
      → c.locale_compare a b ≢ Ordering.eq
      → (before c a b ≡ true) ⊎ (before c b a ≡ true)
  unfolding before
  ordered a b n = ground (arith, c.swapped a b)

  collected-Separates :
      (community : String) (verify : SignatureVerifier) (ts : List Transfer) (m : Map Transfer)
      → transfers_by_id community verify ts ≡ ok m
      → TellsIdsApart ts
      → Separates transfer_id (by_id_order c) (values m)
  unfolding transfers_by_id
  collected-Separates community verify ts m h apart a b o p n =
      let source = λ (x : Transfer) (q : Occurs x (values m)).
        (Occurs-values_iff (admit community verify) transfer_id (ledger conflicting_id) ts m x h).0
          q in
      let (s, at, e) = source a o in
      let (t, at', f) = source b p in
      let same = id-admit community verify s a e in
      let same' = id-admit community verify t b f in
      ordered a.id b.id (rw (same, same') (apart s t at at' (λ q. n (same ∙ q ∙ sym same'))))

  collected :
      (community : String) (xs : List Transfer) (verify : SignatureVerifier) (l : Ledger)
      → apply_transfers c community xs verify ≡ ok l
      → (m : Map Transfer) × (transfers_by_id community verify xs ≡ ok m)
  unfolding apply_transfers
  collected community xs verify l h =
      let (_, _, h₁) = >>=-eq-ok (assert_present community "Community id") _ h in
      let (_, _, h₂) = >>=-eq-ok (normalize_ledger_policy default_policy) _ h₁ in
      let (m, e, _) = >>=-eq-ok (transfers_by_id community verify xs) _ h₂ in (m, e)

  -- If the transfers settle, the same transfers in any other order, and however often each is
  -- repeated, settle too, and give the same ledger: the same accepted and rejected transfers, the
  -- same postings and the same balances, in the same order. The collation is to tell the ids of
  -- different transfers apart.
  pub apply_transfers_same :
      (community : String) (xs ys : List Transfer) (verify : SignatureVerifier) (l : Ledger)
      → SameSet xs ys
      → TellsIdsApart xs
      → apply_transfers c community xs verify ≡ ok l
      → apply_transfers c community ys verify ≡ ok l
  unfolding apply_transfers transfers_by_id
  apply_transfers_same community xs ys verify l s apart h =
      let (m, e) = collected community xs verify l h in
      let (n, f, lookups) =
        collect_same (admit community verify) transfer_id (ledger conflicting_id) xs ys m s e in
      let sorted =
        sort-values_same transfer_id (by_id_order c) (λ a. before_irrefl c a.id)
          (λ a b d. before_trans c a.id b.id d.id) (admit community verify) (ledger conflicting_id)
          xs ys m n s e f (collected-Separates community verify xs m e apart) in
      let settled = rw e at h in
      rw (f, ← sorted, assert_valid_reversals_same n m (sort (by_id_order c) (values m)) lookups)
        settled
