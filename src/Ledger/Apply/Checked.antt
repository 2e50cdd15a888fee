-- ===== src/Ledger/Apply/Checked.antt =====
-- What `assertUniqueSettlements` and `assertValidReversals` give of a ledger.
use peer_hours.Prelude.{
  String, ◌≡◌, ◌⊎◌, ◌∙◌, sym, inl, inr, true, false, none, some, List, [], ◌∷◌, contains, arith,
  Occurs, here, there, Occurs-nil, ok, text_equality, Option-cases, Bool-cases, >>=-eq-ok, ledger,
  conflicting_id,
}
use peer_hours.Script.Number.{strictly_equal, eq_of_strictly_equal}
use peer_hours.Script.Map.{Map, get}
use peer_hours.Script.Map.Laws.{Occurs-values_of_get}
use peer_hours.Script.Sort.Laws.{Occurs-sort}
use peer_hours.Script.Collect.{collect-Source}
use peer_hours.Script.Collation.{Collation}
use peer_hours.Ledger.Types.{Transfer, Ledger, SignatureVerifier, Transfer-discrete}
use peer_hours.Ledger.Settling.{transfer_id}
use peer_hours.Ledger.Apply.{
  assert_unique_settlements, assert_reversal, assert_valid_reversals, apply_transfers, by_id_order,
  admit, transfers_by_id,
}
use peer_hours.Ledger.Apply.Settled.{applied}
use peer_hours.Ledger.Apply.Decisions.{IsDecided, decided-sorted, sorted-IsDecided}

-- One round of `assertUniqueSettlements` that does not throw.
unique-cons :
    (settled : List String) (t : Transfer) (ts : List Transfer)
    → assert_unique_settlements settled (t ∷ ts) ≡ ok tt
    → ((p : String) × (t.reverses_transfer_id ≡ some p)
        × (assert_unique_settlements settled ts ≡ ok tt))
      ⊎ ((p : String) × (t.source_proposal_id ≡ some p)
          × (contains settled p ≡ false)
          × (assert_unique_settlements (p ∷ settled) ts ≡ ok tt))
unfolding assert_unique_settlements
unique-cons settled t ts h = elim (Option-cases t.reverses_transfer_id) [
  | inr (p, e) ↦ inl (p, e, ground arith)
  | inl e ↦ elim (Option-cases t.source_proposal_id) [
    | inl f ↦ absurd (ground arith)
    | inr (p, f) ↦ elim (Bool-cases (contains settled p)) [
      | inl s ↦ absurd (ground arith)
      | inr n ↦ inr (p, f, n, ground arith)
    ]
  ]
]

-- No ordinary transfer settles a proposal that is already settled.
unsettled :
    (settled : List String) (ts : List Transfer) (u : Transfer) (p : String)
    → assert_unique_settlements settled ts ≡ ok tt
    → Occurs u ts
    → u.reverses_transfer_id ≡ none
    → u.source_proposal_id ≡ some p
    → contains settled p ≡ false
unsettled settled [] u p h o r e = absurd (Occurs-nil o)
unsettled settled (t ∷ ts) u p h (here same) r e = elim (unique-cons settled t ts h) [
  | inl (q, f, _) ↦ absurd (ground arith)
  | inr (q, f, n, _) ↦ ground arith
]
unsettled settled (t ∷ ts) u p h (there o) r e = elim (unique-cons settled t ts h) [
  | inl (q, f, k) ↦ unsettled settled ts u p k o r e
  | inr (q, f, n, k) ↦ let later = unsettled (q ∷ settled) ts u p k o r e in ground arith
]

-- An ordinary transfer of a proposal.
abbrev pub IsOrdinaryFor : String → Transfer → Type 0
IsOrdinaryFor p t = (t.reverses_transfer_id ≡ none) × (t.source_proposal_id ≡ some p)

no_second :
    (settled : List String) (t : Transfer) (ts : List Transfer) (u : Transfer) (p : String)
    → assert_unique_settlements settled (t ∷ ts) ≡ ok tt
    → Occurs u ts
    → IsOrdinaryFor p t
    → IsOrdinaryFor p u
    → ⊥
no_second settled t ts u p h o (r, i) (s, j) = elim (unique-cons settled t ts h) [
  | inl (k, f, _) ↦ ground arith
  | inr (k, f, n, g) ↦
      let later = unsettled (k ∷ settled) ts u p g o s j in
      let same : k ≡ p = ground arith in ground arith
]

one_settlement :
    (settled : List String) (ts : List Transfer) (t u : Transfer) (p : String)
    → assert_unique_settlements settled ts ≡ ok tt
    → Occurs t ts
    → Occurs u ts
    → IsOrdinaryFor p t
    → IsOrdinaryFor p u
    → t ≡ u
one_settlement settled [] t u p h o q e f = absurd (Occurs-nil o)
one_settlement settled (x ∷ ts) t u p h (here e) (here f) i j = e ∙ sym f
one_settlement settled (x ∷ ts) t u p h (here e) (there q) i j =
    absurd (no_second settled x ts u p h q (rw (← e) i) j)
one_settlement settled (x ∷ ts) t u p h (there o) (here f) i j =
    absurd (no_second settled x ts t p h o (rw (← f) j) i)
one_settlement settled (x ∷ ts) t u p h (there o) (there q) i j =
    elim (unique-cons settled x ts h) [
      | inl (k, f, g) ↦ one_settlement settled ts t u p g o q i j
      | inr (k, f, n, g) ↦ one_settlement (k ∷ settled) ts t u p g o q i j
    ]

-- `u` moves the minutes of `v` back.
pub record MovesBack (u v : Transfer) : Type 0 where
  pub provider : u.provider_member_id ≡ v.recipient_member_id
  pub recipient : u.recipient_member_id ≡ v.provider_member_id
  pub minutes : u.minutes ≡ v.minutes

reversal-MovesBack :
    (by_id : Map Transfer) (ts : List Transfer) (u : Transfer) (k : String)
    → assert_valid_reversals by_id ts ≡ ok tt
    → Occurs u ts
    → u.reverses_transfer_id ≡ some k
    → (v : Transfer) × (get by_id k ≡ some v) × MovesBack u v
unfolding assert_valid_reversals
reversal-MovesBack by_id [] u k h o e = absurd (Occurs-nil o)
reversal-MovesBack by_id (t ∷ ts) u k h (there o) e =
    let (_, _, h') = >>=-eq-ok (assert_reversal by_id t) _ h in
    reversal-MovesBack by_id ts u k h' o e
reversal-MovesBack by_id (t ∷ ts) u k h (here same) e = elim (Option-cases (get by_id k)) [
  | inl f ↦ absurd (ground arith)
  | inr (v, f) ↦
      let m : strictly_equal u.minutes v.minutes ≡ true = ground arith in
      (
        v,
        f,
        record {
          provider = ground arith;
          recipient = ground arith;
          minutes = eq_of_strictly_equal u.minutes v.minutes m;
        },
      )
]

module _ (c : Collation) (community : String) (ts : List Transfer) (verify : SignatureVerifier)
    (l : Ledger) (h : apply_transfers c community ts verify ≡ ok l) where
  -- In a ledger that `applyTransfers` returns, a proposal is settled at most once: two ordinary
  -- transfers of one proposal that stand among the accepted and the rejected transfers are one
  -- and the same.
  pub apply_transfers-settles_once :
      (t u : Transfer) (p : String)
      → IsDecided c community ts verify l h t
      → IsDecided c community ts verify l h u
      → IsOrdinaryFor p t
      → IsOrdinaryFor p u
      → t ≡ u
  apply_transfers-settles_once t u p o q i j =
      one_settlement [] _ t u p (applied c community ts verify l h).unique
        (decided-sorted c community ts verify l h t o)
        (decided-sorted c community ts verify l h u q) i j

  -- In a ledger that `applyTransfers` returns, a reversal among the accepted and the rejected
  -- transfers names a transfer that stands there too, with provider and recipient exchanged and
  -- the same minutes.
  pub apply_transfers-mirrors :
      (u : Transfer) (k : String)
      → IsDecided c community ts verify l h u
      → u.reverses_transfer_id ≡ some k
      → (v : Transfer) × IsDecided c community ts verify l h v × (v.id ≡ k) × MovesBack u v
  unfolding transfers_by_id
  apply_transfers-mirrors u k o e =
      let a = applied c community ts verify l h in
      let (v, g, m) =
        reversal-MovesBack a.by_id _ u k a.reversible (decided-sorted c community ts verify l h u o)
          e in
      let stands = Occurs-sort (by_id_order c) (Occurs-values_of_get transfer_id a.by_id k v g) in
      let named : v.id ≡ k =
        elim (collect-Source (admit community verify) transfer_id (ledger conflicting_id) ts []
          a.by_id k v a.collected g) [
            | inl old ↦ absurd (unfold get in ground arith)
            | inr (_, _, _, at) ↦ at
          ] in
      (v, sorted-IsDecided c community ts verify l h v stands, named, m)
