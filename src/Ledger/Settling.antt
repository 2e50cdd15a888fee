-- ===== src/Ledger/Settling.antt =====
-- The two phases of `applyTransfers`: ordinary settlements in order, then reversals in rounds.
pub mod Moves
pub mod Runs
pub mod Outcome
use peer_hours.Prelude.{
  ℕ, zero, suc, Bool, true, false, String, none, some, List, [], ◌∷◌, ◌++◌, map, contains,
  text_equality, if◌then◌else◌, out_of_fuel, Result, ok, err, ◌>>=◌,
}
use peer_hours.Script.Map.{Map}
use peer_hours.Ledger.Types.{
  Transfer, LedgerPosting, LedgerPolicy, RejectedTransfer, minimum_balance, unaccepted_reversal,
  Amount,
}
use peer_hours.Ledger.Transfers.{derive_postings}
use peer_hours.Ledger.Balances.{apply_postings, would_cross_minimum_balance}

-- The arrays and the object that `applyTransfers` fills.
pub record Progress : Type 0 where
  pub accepted : List Transfer
  pub rejected : List RejectedTransfer
  pub postings : List LedgerPosting
  pub balances : Map Amount

abbrev pub start : Progress
start = record { accepted = []; rejected = []; postings = []; balances = [] }

unfoldable pub accept_transfer : Transfer → Progress → Result Progress
accept_transfer transfer s = do
  postings ← derive_postings transfer
  ok (record {
    accepted = s.accepted ++ transfer ∷ [];
    rejected = s.rejected;
    postings = s.postings ++ postings;
    balances = apply_postings s.balances postings;
  })

abbrev pub reject : Transfer → Progress → Progress
reject transfer s = record s {
  rejected = s.rejected ++ record { transfer = transfer; reason = minimum_balance } ∷ [];
}

-- One round of the loop over the sorted transfers; reversals are kept for later.
unfoldable pub settle_one :
    LedgerPolicy → Transfer → List Transfer → Progress → Result (List Transfer × Progress)
settle_one policy transfer reversals s = elim transfer.reverses_transfer_id [
  | some _ ↦ ok (reversals ++ transfer ∷ [], s)
  | none ↦
      if would_cross_minimum_balance transfer s.balances policy
      then ok (reversals, reject transfer s)
      else (do s' ← accept_transfer transfer s; ok (reversals, s'))
]

unfoldable pub settle_ordinary :
    LedgerPolicy → List Transfer → List Transfer → Progress → Result (List Transfer × Progress)
unfolding settle_one
settle_ordinary policy [] reversals s = ok (reversals, s)
settle_ordinary policy (transfer ∷ transfers) reversals s = do
  (reversals', s') ← settle_one policy transfer reversals s
  settle_ordinary policy transfers reversals' s'

abbrev pub names_accepted : List String → Transfer → Bool
names_accepted accepted_ids reversal = elim reversal.reverses_transfer_id [
  | none ↦ false
  | some id ↦ contains accepted_ids id
]

-- One pass over the pending reversals: what stays pending, and whether one was accepted.
unfoldable pub settle_round :
    List String → List Transfer → Progress → Result (List Transfer × Bool × Progress)
settle_round accepted_ids [] s = ok ([], false, s)
settle_round accepted_ids (reversal ∷ pending) s = elim (names_accepted accepted_ids reversal) [
  | true ↦ do
    s' ← accept_transfer reversal s
    (next, _, s'') ← settle_round accepted_ids pending s'
    ok (next, true, s'')
  | false ↦ do
    (next, accepted, s') ← settle_round accepted_ids pending s
    ok (reversal ∷ next, accepted, s')
]

abbrev pub reject_reversals : List Transfer → Progress → Progress
reject_reversals pending s = record s {
  rejected = s.rejected ++ map (λ t. record { transfer = t; reason = unaccepted_reversal }) pending;
}

abbrev pub transfer_id : Transfer → String
transfer_id t = t.id

-- The `while` loop. Every round but the last accepts a reversal, so the number of pending ones is
-- fuel enough; `out_of_fuel` is no error of the program.
unfoldable pub settle_reversals : ℕ → List Transfer → Progress → Result Progress
settle_reversals fuel [] s = ok s
settle_reversals zero (_ ∷ _) s = err out_of_fuel
settle_reversals (suc fuel) (reversal ∷ pending) s = do
  (next, accepted, s') ← settle_round (map transfer_id s.accepted) (reversal ∷ pending) s
  elim accepted [ true ↦ settle_reversals fuel next s' | false ↦ ok (reject_reversals next s') ]
