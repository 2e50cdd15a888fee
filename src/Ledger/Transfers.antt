-- ===== src/Ledger/Transfers.antt =====
-- Creating transfers: `createTransferTerms`, `normalizeAttestations`, `createTransfer` and
-- `derivePostings` of packages/timebank-ledger/src/index.ts.
pub mod Normal
use peer_hours.Prelude.{
  ℕ, Bool, ◌||◌, ◌&&◌, not, String, Option, none, some, List, [], ◌∷◌, length, ◌==◌, ◌!=◌,
  text_equality, count_equality, if◌then◌else◌, pos, ◌-ℤ◌, Result, ok, err, throw_if, ◌>>=◌, ◌>>◌,
  LedgerRule, ledger, required, bad_minutes, same_member, reverses_itself, two_attestations,
  unrelated_signer, attests_twice, both_attestations,
}
use peer_hours.Script.Text.{is_blank}
use peer_hours.Script.Number.{Number, is_bad_amount, to_whole}
use peer_hours.Script.Map.{Map, get, set, has}
use peer_hours.Ledger.Types.{TransferAttestation, TransferTerms, Transfer, LedgerPosting}

unfoldable pub assert_present : String → String → Result (Unit {0})
assert_present value label = throw_if (is_blank value) (ledger (LedgerRule.required label))

unfoldable pub assert_positive_whole_minutes : Number → Result (Unit {0})
assert_positive_whole_minutes minutes =
    throw_if (is_bad_amount minutes) (ledger LedgerRule.bad_minutes)

-- The branches on `reversesTransferId`.
unfoldable pub assert_origin : TransferTerms → Option String → Result (Unit {0})
unfolding assert_present
assert_origin input (some reversed) = do
  assert_present reversed "Reversed transfer id"
  throw_if (reversed == input.id) (ledger reverses_itself)
assert_origin input none =
    assert_present (elim input.source_proposal_id [ none ↦ "" | some id ↦ id ]) "Source proposal id"

unfoldable pub create_transfer_terms : TransferTerms → Result TransferTerms
unfolding assert_present assert_positive_whole_minutes assert_origin
create_transfer_terms input = do
  assert_present input.id "Transfer id"
  assert_present input.community_id "Community id"
  assert_present input.provider_member_id "Provider member id"
  assert_present input.recipient_member_id "Recipient member id"
  assert_positive_whole_minutes input.minutes
  throw_if (input.provider_member_id == input.recipient_member_id) (ledger LedgerRule.same_member)
  assert_origin input input.reverses_transfer_id
  ok input

-- The body of the loop of `normalizeAttestations`, up to the `set`.
unfoldable pub assert_attestation :
    TransferTerms → Map TransferAttestation → TransferAttestation → Result (Unit {0})
unfolding assert_present
assert_attestation transfer by_member attestation = do
  assert_present attestation.member_id "Attesting member id"
  assert_present attestation.key_id "Attestation signing key id"
  assert_present attestation.payload_digest "Attestation payload digest"
  assert_present attestation.signature "Attestation signature"
  throw_if
      (attestation.member_id != transfer.provider_member_id
        && attestation.member_id != transfer.recipient_member_id)
      (ledger unrelated_signer)
  throw_if (has by_member attestation.member_id) (ledger attests_twice)

unfoldable pub collect_attestations :
    TransferTerms
    → Map TransferAttestation
    → List TransferAttestation
    → Result (Map TransferAttestation)
collect_attestations transfer by_member [] = ok by_member
collect_attestations transfer by_member (attestation ∷ rest) = do
  assert_attestation transfer by_member attestation
  collect_attestations transfer (set by_member attestation.member_id attestation) rest

unfoldable pub both_signers :
    Option TransferAttestation → Option TransferAttestation → Result (List TransferAttestation)
both_signers (some provider) (some recipient) = ok (provider ∷ recipient ∷ [])
both_signers _ _ = err (ledger both_attestations)

unfoldable pub normalize_attestations : Transfer → Result (List TransferAttestation)
unfolding collect_attestations both_signers
normalize_attestations transfer = do
  throw_if (length transfer.attestations != 2) (ledger two_attestations)
  by_member ← collect_attestations transfer.terms [] transfer.attestations
  both_signers (get by_member transfer.provider_member_id)
      (get by_member transfer.recipient_member_id)

unfoldable pub create_transfer : Transfer → Result Transfer
create_transfer input = do
  terms ← create_transfer_terms input.terms
  attestations ← normalize_attestations input
  ok (record { terms = terms; attestations = attestations })

unfoldable pub derive_postings : Transfer → Result (List LedgerPosting)
derive_postings transfer = do
  normalized ← create_transfer transfer
  ok (
      record {
        transfer_id = normalized.id;
        member_id = normalized.provider_member_id;
        minutes = to_whole normalized.minutes;
      }
      ∷ record {
        transfer_id = normalized.id;
        member_id = normalized.recipient_member_id;
        minutes = pos 0 -ℤ to_whole normalized.minutes;
      }
      ∷ [])
