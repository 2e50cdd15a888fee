-- ===== src/Ledger/Apply/Inherited.antt =====
-- Members whose id is the name of a property that every object inherits.
use peer_hours.Prelude.{
  ◌≡◌, ap, ◌∙◌, ◌≢◌, refl, ◌⊎◌, inl, inr, true, String, List, [], ◌∷◌, map, arith, ◌==◌,
  text_equality, Bool-cases, eq_of_==, ok, All, All-append,
}
use peer_hours.Script.Map.{Map, get}
use peer_hours.Script.Map.Laws.{get-set}
use peer_hours.Script.Collation.{Collation}
use peer_hours.Ledger.Types.{
  Transfer, Ledger, LedgerPosting, RejectedTransfer, SignatureVerifier, Amount, text,
  unaccepted_reversal,
}
use peer_hours.Ledger.Transfers.Normal.{IsNormal, create_transfer-IsNormal}
use peer_hours.Ledger.Balances.{
  is_inherited, read, write, add_minutes, apply_postings, would_cross_minimum_balance,
}
use peer_hours.Ledger.Settling.{Progress, start}
use peer_hours.Ledger.Settling.Moves.{
  postings_of, Move, settles, declines, reverses, leaves, Moves-keep,
}
use peer_hours.Ledger.Apply.{default_policy, apply_transfers}
use peer_hours.Ledger.Apply.Settled.{applied, applied_run}

module _ (id : String) (inherits : is_inherited id ≡ true) where
  read-write_text :
      (m : Map Amount) (k : String) (a : Amount)
      → read m id ≡ text
      → (k ≡ id → a ≡ text)
      → read (write m k a) id ≡ text
  unfolding read write
  read-write_text m k a r h = elim (Bool-cases (k == "__proto__")) [
    | inl proto ↦ rw proto r
    | inr other ↦ elim (Bool-cases (k == id)) [
      | inl same ↦ ground (arith, get-set m k id a, h (eq_of_== k id same))
      | inr apart ↦ ground (arith, get-set m k id a)
    ]
  ]

  pub read-apply_text :
      (ps : List LedgerPosting) (m : Map Amount)
      → read m id ≡ text
      → read (apply_postings m ps) id ≡ text
  unfolding apply_postings
  read-apply_text [] m r = r
  read-apply_text (p ∷ ps) m r =
      read-apply_text ps (write m p.member_id (add_minutes (read m p.member_id) p.minutes)) (
        read-write_text m p.member_id (add_minutes (read m p.member_id) p.minutes) r
          (λ e. rw (e, r) refl))

  record Unlimited (s : Progress) : Type 0 where
    no_number : read s.balances id ≡ text
    refused_others :
        All
          (λ (r : RejectedTransfer).
            (r.reason ≡ unaccepted_reversal) ⊎ (r.transfer.recipient_member_id ≢ id))
          s.rejected

  crossing_other :
      (t : Transfer) (s : Progress)
      → read s.balances id ≡ text
      → would_cross_minimum_balance t s.balances default_policy ≡ true
      → t.recipient_member_id ≢ id
  unfolding would_cross_minimum_balance
  crossing_other t s r w e =
      let same : read s.balances t.recipient_member_id ≡ text = rw e r in ground arith

  unaccepted :
      (ts : List Transfer)
      → All
          (λ (r : RejectedTransfer).
            (r.reason ≡ unaccepted_reversal) ⊎ (r.transfer.recipient_member_id ≢ id))
          (map (λ t. record { transfer = t; reason = unaccepted_reversal }) ts)
  unaccepted [] = tt
  unaccepted (t ∷ ts) = (inl refl, unaccepted ts)

  Move-Unlimited : (u v : Progress) → Move default_policy IsNormal u v → Unlimited u → Unlimited v
  Move-Unlimited u v (settles t q e w) h = record {
    no_number = read-apply_text (postings_of t) u.balances h.no_number;
    refused_others = h.refused_others;
  }
  Move-Unlimited u v (declines t q w) h = record {
    no_number = h.no_number;
    refused_others =
        All-append _ u.rejected _ h.refused_others (inr (crossing_other t u h.no_number w), tt);
  }
  Move-Unlimited u v (reverses t q n) h = record {
    no_number = read-apply_text (postings_of t) u.balances h.no_number;
    refused_others = h.refused_others;
  }
  Move-Unlimited u v (leaves pending) h = record {
    no_number = h.no_number;
    refused_others = All-append _ u.rejected _ h.refused_others (unaccepted pending);
  }

  Unlimited-start : Unlimited start
  unfolding read get
  Unlimited-start = record { no_number = rw inherits refl; refused_others = tt }

  -- In a ledger that `applyTransfers` returns, a member whose id is the name of a property that
  -- every object inherits has no numeric balance, and no transfer to it was rejected for the
  -- minimum balance, however much it received.
  pub apply_transfers-unlimited :
      (c : Collation) (community : String) (ts : List Transfer) (verify : SignatureVerifier)
      (l : Ledger)
      → apply_transfers c community ts verify ≡ ok l
      → (read l.balances id ≡ text)
        × All
            (λ (r : RejectedTransfer).
              (r.reason ≡ unaccepted_reversal) ⊎ (r.transfer.recipient_member_id ≢ id))
            l.rejected_transfers
  apply_transfers-unlimited c community ts verify l h =
      let a = applied c community ts verify l h in
      let (run, _, _) =
        applied_run c community ts verify IsNormal l (λ t v _ e. (create_transfer-IsNormal t v e).2)
          (λ t q. q.again) a in
      let u = Moves-keep default_policy IsNormal Unlimited Move-Unlimited run Unlimited-start in
      (ap (λ b. read b id) a.balances ∙ u.no_number, rw a.rejected u.refused_others)
