-- ===== src/Ledger/Apply.antt =====
-- `applyTransfers` of packages/timebank-ledger/src/index.ts, and its checks.
pub mod OrderFree
pub mod Settled
pub mod Terminates
pub mod Accounts
pub mod Decisions
pub mod Explained
pub mod Credit
pub mod Inherited
pub mod Checked
use peer_hours.Prelude.{
  Bool, not, ◌||◌, String, Option, none, some, List, [], ◌∷◌, length, contains, ◌!=◌, text_equality,
  pos, negsuc, Result, ok, err, throw_if, ◌>>=◌, ◌>>◌, ledger, foreign_transfer, unverifiable,
  unverified, conflicting_id, unknown_original, wrong_reversal, no_proposal, settled_twice,
  bad_policy,
}
use peer_hours.Script.Number.{whole, is_finite, is_integer, less, strictly_equal, Number-discrete}
use peer_hours.Script.Map.{Map, get, values}
use peer_hours.Script.Sort.{sort}
use peer_hours.Script.Collation.{Collation, before}
use peer_hours.Script.Collect.{collect}
use peer_hours.Ledger.Types.{
  TransferAttestation, Transfer, LedgerPolicy, Ledger, SignatureVerifier, Transfer-discrete,
}
use peer_hours.Ledger.Transfers.{assert_present, create_transfer}
use peer_hours.Ledger.Settling.{Progress, start, settle_ordinary, settle_reversals, transfer_id}

-- Fifty hours.
abbrev pub default_policy : LedgerPolicy
default_policy = record { minimum_balance_minutes = whole (negsuc 2999) }

unfoldable pub normalize_ledger_policy : LedgerPolicy → Result LedgerPolicy
normalize_ledger_policy policy = do
  throw_if
      (not (is_finite policy.minimum_balance_minutes)
        || not (is_integer policy.minimum_balance_minutes)
        || less (whole (pos 0)) policy.minimum_balance_minutes)
      (ledger bad_policy)
  ok (record { minimum_balance_minutes = policy.minimum_balance_minutes })

-- `try { verified = verify(…) } catch { throw … }`, then the test.
abbrev pub assert_verified : Result Bool → Result (Unit {0})
assert_verified (err _) = err (ledger unverifiable)
assert_verified (ok verified) = throw_if (not verified) (ledger unverified)

unfoldable pub verify_each :
    SignatureVerifier → Transfer → List TransferAttestation → Result (Unit {0})
verify_each verify transfer [] = ok tt
verify_each verify transfer (attestation ∷ rest) = do
  assert_verified (verify transfer attestation)
  verify_each verify transfer rest

unfoldable pub verify_transfer : SignatureVerifier → Transfer → Result (Unit {0})
unfolding verify_each
verify_transfer verify transfer = verify_each verify transfer transfer.attestations

-- The first lines of the loop over the input, up to the lookup in `transfersById`.
unfoldable pub admit : String → SignatureVerifier → Transfer → Result Transfer
admit community_id verify source = do
  transfer ← create_transfer source
  throw_if (transfer.community_id != community_id) (ledger foreign_transfer)
  verify_transfer verify transfer
  ok transfer

unfoldable pub transfers_by_id : String → SignatureVerifier → List Transfer → Result (Map Transfer)
unfolding Transfer-discrete
transfers_by_id community_id verify transfers =
    collect (admit community_id verify) transfer_id (ledger conflicting_id) [] transfers

abbrev pub settles_once : List String → Option String → Result (List String)
settles_once settled none = err (ledger no_proposal)
settles_once settled (some proposal) = do
  throw_if (contains settled proposal) (ledger settled_twice)
  ok (proposal ∷ settled)

unfoldable pub assert_unique_settlements : List String → List Transfer → Result (Unit {0})
assert_unique_settlements settled [] = ok tt
assert_unique_settlements settled (transfer ∷ transfers) = do
  settled' ← elim transfer.reverses_transfer_id [
    | some _ ↦ ok settled
    | none ↦ settles_once settled transfer.source_proposal_id
  ]
  assert_unique_settlements settled' transfers

abbrev pub mirrors : Transfer → Option Transfer → Result (Unit {0})
mirrors transfer none = err (ledger unknown_original)
mirrors transfer (some original) =
    throw_if
      (transfer.provider_member_id != original.recipient_member_id
        || transfer.recipient_member_id != original.provider_member_id
        || not (strictly_equal transfer.minutes original.minutes))
      (ledger wrong_reversal)

abbrev pub assert_reversal : Map Transfer → Transfer → Result (Unit {0})
assert_reversal by_id transfer = elim transfer.reverses_transfer_id [
  | none ↦ ok tt
  | some original_id ↦ mirrors transfer (get by_id original_id)
]

unfoldable pub assert_valid_reversals : Map Transfer → List Transfer → Result (Unit {0})
assert_valid_reversals by_id [] = ok tt
assert_valid_reversals by_id (transfer ∷ transfers) = do
  assert_reversal by_id transfer
  assert_valid_reversals by_id transfers

-- The settling of the sorted transfers.
unfoldable pub settle : LedgerPolicy → List Transfer → Result Progress
settle policy transfers = do
  (reversals, s) ← settle_ordinary policy transfers [] start
  settle_reversals (length reversals) reversals s

module _ (c : Collation) where
  abbrev pub by_id_order : Transfer → Transfer → Bool
  by_id_order left right = before c left.id right.id

  unfoldable pub apply_transfers : String → List Transfer → SignatureVerifier → Result Ledger
  apply_transfers community_id transfers verify = do
    assert_present community_id "Community id"
    policy ← normalize_ledger_policy default_policy
    by_id ← transfers_by_id community_id verify transfers
    let sorted = sort by_id_order (values by_id)
    assert_unique_settlements [] sorted
    assert_valid_reversals by_id sorted
    s ← settle policy sorted
    ok (record {
      community_id = community_id;
      transfers = sort by_id_order s.accepted;
      rejected_transfers = s.rejected;
      postings = s.postings;
      balances = s.balances;
    })
