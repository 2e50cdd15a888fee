-- ===== src/Ledger/Apply/Decisions.antt =====
-- `applyTransfers` decides every transfer once.
use peer_hours.Prelude.{
  contains, Occurs-contains, contains-Occurs, Bool-cases, count_absent, ◌+◌, ◌<◌, ◌≡◌, refl, sym,
  ap, ◌∙◌, ◌⊎◌, inl, inr, Bool, true, false, String, none, some, List, [], ◌∷◌, ◌++◌, map, arith,
  text_equality, Occurs-contains, contains-Occurs, Bool-cases, Option-cases, Occurs, here, there,
  Occurs-append_left, count, hit, hit_self, hit_ne, count_absent, Occurs-of_count, count_of_Occurs,
  Occurs-map, map-Occurs, All, All-append, All-Occurs, All-of_Occurs, ok, ledger, conflicting_id,
}
use peer_hours.Script.Map.{Map, values}
use peer_hours.Script.Map.Laws.{IsKeyed, HasUniqueKeys}
use peer_hours.Script.Sort.{insert, sort}
use peer_hours.Script.Collation.{Collation}
use peer_hours.Script.Collect.{collect, collect-IsKeyed, get-collect_item, Occurs-values_iff}
use peer_hours.Script.Collect.Order.{Occurs-key}
use peer_hours.Ledger.Types.{Transfer, LedgerPolicy, Ledger, SignatureVerifier, Transfer-discrete}
use peer_hours.Ledger.Transfers.{create_transfer}
use peer_hours.Ledger.Transfers.Normal.{IsNormal, create_transfer-IsNormal}
use peer_hours.Ledger.Settling.{Progress, names_accepted, transfer_id}
use peer_hours.Ledger.Settling.Moves.{accepted_after, Move, settles, declines, reverses, leaves}
use peer_hours.Ledger.Settling.Runs.{refused}
use peer_hours.Ledger.Apply.{admit, transfers_by_id, by_id_order, apply_transfers}
use peer_hours.Ledger.Apply.OrderFree.{admit-eq-create}
use peer_hours.Ledger.Apply.Settled.{Applied, applied, applied_run, sorted_source}

count-insert :
    (t : Transfer) (lt : Transfer → Transfer → Bool) (x : Transfer) (xs : List Transfer)
    → count t (insert lt x xs) ≡ hit t x + count t xs
unfolding insert
count-insert t lt x [] = refl
count-insert t lt x (y ∷ ys) = elim (Bool-cases (lt y x)) [
  | inl before ↦ rw before (omega (arith, count-insert t lt x ys))
  | inr other ↦ rw other refl
]

pub count-sort :
    (t : Transfer) (lt : Transfer → Transfer → Bool) (xs : List Transfer)
    → count t (sort lt xs) ≡ count t xs
unfolding sort
count-sort t lt [] = refl
count-sort t lt (x ∷ xs) = omega (arith, count-insert t lt x (sort lt xs), count-sort t lt xs)

-- A value of a map with unique keys stands in it once.
count-values :
    (m : Map Transfer) (u : Transfer)
    → IsKeyed transfer_id m
    → HasUniqueKeys m
    → Occurs u (values m)
    → count u (values m) ≡ 1
count-values ((j, w) ∷ m) u (e, h) (n, k) (here same) =
    let one : hit u w ≡ 1 = rw same (hit_self w) in
    let none : count u (values m) ≡ 0 =
      count_absent u (values m)
        (λ o. Occurs-key transfer_id j m u h n o (e ∙ ap transfer_id (sym same))) in
    omega (arith, one, none)
count-values ((j, w) ∷ m) u (e, h) (n, k) (there o) =
    let other : hit u w ≡ 0 =
      hit_ne u w (λ same. Occurs-key transfer_id j m u h n o (e ∙ ap transfer_id (sym same))) in
    omega (arith, other, count-values m u h k o)
count-values [] u h k o = elim o [ ]

-- The transfer reverses an item of the list.
abbrev pub Reverses : List Transfer → Transfer → Type 0
Reverses ts t = (o : Transfer) × Occurs o ts × (t.reverses_transfer_id ≡ some o.id)

named-Reverses :
    (ts : List Transfer) (t : Transfer)
    → names_accepted (map transfer_id ts) t ≡ true
    → Reverses ts t
named-Reverses ts t h = elim (Option-cases t.reverses_transfer_id) [
  | inl e ↦ absurd (ground arith)
  | inr (k, e) ↦
      let there_is = Occurs-contains (map transfer_id ts) k (ground arith) in
      let (o, p, same) = map-Occurs transfer_id ts there_is in (o, p, e ∙ ap some same)
]

pub unnamed-Reverses :
    (ts : List Transfer) (t : Transfer)
    → names_accepted (map transfer_id ts) t ≡ false
    → ¬ (Reverses ts t)
unnamed-Reverses ts t h (o, p, e) = ground (arith, contains-Occurs (Occurs-map transfer_id p))

abbrev pub HasOriginals : Progress → Type 0
HasOriginals s = All (λ t. (t.reverses_transfer_id ≡ none) ⊎ Reverses s.accepted t) s.accepted

later :
    (ts : List Transfer) (x t : Transfer)
    → (t.reverses_transfer_id ≡ none) ⊎ Reverses ts t
    → (t.reverses_transfer_id ≡ none) ⊎ Reverses (ts ++ x ∷ []) t
later ts x t (inl e) = inl e
later ts x t (inr (o, p, e)) = inr (o, Occurs-append_left (x ∷ []) p, e)

HasOriginals-accepted :
    (t : Transfer) (s : Progress)
    → (t.reverses_transfer_id ≡ none) ⊎ Reverses s.accepted t
    → HasOriginals s
    → HasOriginals (accepted_after t s)
HasOriginals-accepted t s r h =
    All-append _ s.accepted (t ∷ [])
      (All-of_Occurs _ s.accepted (λ u o. later s.accepted t u (All-Occurs _ h o)))
      (later s.accepted t t r, tt)

module _ (policy : LedgerPolicy) (Q : Transfer → Type 0) where
  pub Move-HasOriginals : (u v : Progress) → Move policy Q u v → HasOriginals u → HasOriginals v
  Move-HasOriginals u v (settles t q e w) h = HasOriginals-accepted t u (inl e) h
  Move-HasOriginals u v (declines t q w) h = h
  Move-HasOriginals u v (reverses t q n) h =
      HasOriginals-accepted t u (inr (named-Reverses u.accepted t n)) h
  Move-HasOriginals u v (leaves pending) h = h

pub Reverses-in :
    (xs ys : List Transfer) (t : Transfer)
    → ((o : Transfer) → Occurs o xs → Occurs o ys)
    → Reverses xs t
    → Reverses ys t
Reverses-in xs ys t h (o, p, e) = (o, h o p, e)

module _ (c : Collation) (community : String) (ts : List Transfer) (verify : SignatureVerifier)
    (l : Ledger) (h : apply_transfers c community ts verify ≡ ok l) where
  abbrev stages : Applied c community ts verify l
  stages = applied c community ts verify l h

  abbrev sorted : List Transfer
  sorted = sort (by_id_order c) (values stages.by_id)

  share :
      (u : Transfer)
      → count u l.transfers + count u (map refused l.rejected_transfers) ≡ count u sorted
  share u =
      let (_, _, same) =
        applied_run c community ts verify IsNormal l (λ t v _ e. (create_transfer-IsNormal t v e).2)
          (λ t q. q.again) stages in
      rw (stages.transfers, stages.rejected)
        (omega (arith, same u, count-sort u (by_id_order c) stages.after.accepted))

  once : (t u : Transfer) → Occurs t ts → create_transfer t ≡ ok u → count u sorted ≡ 1
  unfolding transfers_by_id
  once t u o e =
      let check = admit community verify in
      let collected : collect check transfer_id (ledger conflicting_id) [] ts ≡ ok stages.by_id =
        stages.collected in
      let (b, f, g) =
        get-collect_item check transfer_id (ledger conflicting_id) ts [] stages.by_id t collected
          o in
      let same : b ≡ u = cc (admit-eq-create community verify t b f, e) in
      let at =
        (Occurs-values_iff check transfer_id (ledger conflicting_id) ts stages.by_id u collected).1
          (t, o, rw same at f) in
      let (w, k) =
        collect-IsKeyed check transfer_id (ledger conflicting_id) ts [] stages.by_id collected
          (tt, tt) in
      count-sort u (by_id_order c) (values stages.by_id) ∙ count-values stages.by_id u w k at

  positive :
      (u : Transfer)
      → Occurs u l.transfers ⊎ Occurs u (map refused l.rejected_transfers)
      → 0 < count u l.transfers + count u (map refused l.rejected_transfers)
  positive u (inl o) = omega (arith, count_of_Occurs o)
  positive u (inr o) = omega (arith, count_of_Occurs o)

  abbrev pub IsDecided : Transfer → Type 0
  IsDecided u = Occurs u l.transfers ⊎ Occurs u (map refused l.rejected_transfers)

  pub decided-sorted :
      (u : Transfer)
      → IsDecided u
      → Occurs u (sort (by_id_order c) (values (applied c community ts verify l h).by_id))
  decided-sorted u o = Occurs-of_count u sorted (rw (← share u) (positive u o))

  pub sorted-IsDecided :
      (u : Transfer)
      → Occurs u (sort (by_id_order c) (values (applied c community ts verify l h).by_id))
      → IsDecided u
  sorted-IsDecided u o = elim (Bool-cases (contains l.transfers u)) [
    | inl stands ↦ inl (Occurs-contains l.transfers u stands)
    | inr absent ↦ inr (
        Occurs-of_count u (map refused l.rejected_transfers) (
          omega (
            arith,
            share u,
            count_of_Occurs o,
            count_absent u l.transfers (λ p. cc (absent, contains-Occurs p)),
          )))
  ]

  -- In a ledger that `applyTransfers` returns, each transfer created from the input stands
  -- exactly once among the accepted and the rejected transfers together.
  pub apply_transfers-decides :
      (t u : Transfer)
      → Occurs t ts
      → create_transfer t ≡ ok u
      → count u l.transfers + count u (map refused l.rejected_transfers) ≡ 1
  apply_transfers-decides t u o e = rw (share u) (once t u o e)

  -- Whatever stands among the accepted or the rejected transfers of a ledger that
  -- `applyTransfers` returns was created from the input.
  pub apply_transfers-source :
      (u : Transfer)
      → Occurs u l.transfers ⊎ Occurs u (map refused l.rejected_transfers)
      → (t : Transfer) × Occurs t ts × (create_transfer t ≡ ok u)
  apply_transfers-source u o =
      sorted_source c community ts verify stages.by_id u stages.collected (decided-sorted u o)
