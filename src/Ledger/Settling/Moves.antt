-- ===== src/Ledger/Settling/Moves.antt =====
-- Settling as a run of moves: each changes the progress by one accepted or rejected transfer, and
-- the last one rejects the reversals that are left.
use peer_hours.Prelude.{
  ◌≡◌, refl, true, false, String, none, List, [], ◌∷◌, ◌++◌, map, text_equality, pos, ◌-ℤ◌, ok,
}
use peer_hours.Script.Number.{to_whole}
use peer_hours.Ledger.Types.{Transfer, LedgerPosting, LedgerPolicy}
use peer_hours.Ledger.Transfers.{create_transfer, derive_postings}
use peer_hours.Ledger.Balances.{apply_postings, would_cross_minimum_balance}
use peer_hours.Ledger.Settling.{
  Progress, accept_transfer, reject, names_accepted, reject_reversals, transfer_id,
}

-- The two postings of a transfer that is its own normal form.
abbrev pub postings_of : Transfer → List LedgerPosting
postings_of t =
    record { transfer_id = t.id; member_id = t.provider_member_id; minutes = to_whole t.minutes }
    ∷ record {
      transfer_id = t.id;
      member_id = t.recipient_member_id;
      minutes = pos 0 -ℤ to_whole t.minutes;
    }
    ∷ []

abbrev pub accepted_after : Transfer → Progress → Progress
accepted_after t s = record {
  accepted = s.accepted ++ t ∷ [];
  rejected = s.rejected;
  postings = s.postings ++ postings_of t;
  balances = apply_postings s.balances (postings_of t);
}

abbrev pub IsStable : Transfer → Type 0
IsStable t = create_transfer t ≡ ok t

pub accept_of_IsStable :
    (t : Transfer) (s : Progress) → IsStable t → accept_transfer t s ≡ ok (accepted_after t s)
unfolding accept_transfer derive_postings
accept_of_IsStable t s h = rw h refl

abbrev pub accepted_ids : Progress → List String
accepted_ids s = map transfer_id s.accepted

module _ (policy : LedgerPolicy) (Q : Transfer → Type 0) where
  pub data Move (s : Progress) : Progress → Type 0 where
    settles :
        (t : Transfer)
        → Q t
        → t.reverses_transfer_id ≡ none
        → would_cross_minimum_balance t s.balances policy ≡ false
        → Move s (accepted_after t s)
    declines :
        (t : Transfer)
        → Q t
        → would_cross_minimum_balance t s.balances policy ≡ true
        → Move s (reject t s)
    reverses :
        (t : Transfer)
        → Q t
        → names_accepted (accepted_ids s) t ≡ true
        → Move s (accepted_after t s)
    leaves : (pending : List Transfer) → Move s (reject_reversals pending s)

  pub data Moves (s : Progress) : Progress → Type 0 where
    done : Moves s s
    more : {t u : Progress} → Moves s t → Move t u → Moves s u

  pub Moves-trans : {s t u : Progress} → Moves s t → Moves t u → Moves s u
  Moves-trans m done = m
  Moves-trans m (more n v) = more (Moves-trans m n) v

  -- What every move keeps holds at the end of a run.
  pub Moves-keep :
      {s t : Progress} (P : Progress → Type 0)
      → ((u v : Progress) → Move u v → P u → P v)
      → Moves s t
      → P s
      → P t
  Moves-keep P keep done p = p
  Moves-keep P keep (more {t = u} {u = v} m n) p = keep u v n (Moves-keep P keep m p)
