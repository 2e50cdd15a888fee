-- ===== src/Identity/Attesting.antt =====
-- `createParticipantTransferAttestation` of packages/timebank-identity/src/index.ts.
pub mod Verified
use peer_hours.Prelude.{
  Bool, not, ◌&&◌, String, Option, List, ◌==◌, ◌!=◌, text_equality, Error, Result, ok, err,
  throw_if, ◌>>=◌, ◌>>◌, IdentityRule, identity, not_participant, cannot_sign, not_canonical,
}
use peer_hours.Ledger.Types.{TransferAttestation, TransferTerms}
use peer_hours.Ledger.Transfers.{create_transfer_terms}
use peer_hours.Identity.Events.{assert_present}
use peer_hours.Identity.Payload.{transfer_payload_digest}

-- `try { ... } catch { throw error; }`
abbrev pub signed_or : {A : Type 0} → Error → Result A → Result A
signed_or error (ok value) = ok value
signed_or error (err _) = err error

-- `sign` is the key custodian, which may throw.
module _ (digest : TransferTerms → String) (is_signature : String → Bool)
    (sign : TransferTerms → Result String) where
  unfoldable pub create_participant_attestation :
      TransferTerms → String → String → Result TransferAttestation
  unfolding assert_present transfer_payload_digest
  create_participant_attestation transfer member key_id = do
    terms ← create_transfer_terms transfer
    assert_present member "Attesting member id"
    assert_present key_id "Attestation signing key id"
    throw_if (member != terms.provider_member_id && member != terms.recipient_member_id)
        (identity IdentityRule.not_participant)
    signature ← signed_or (identity cannot_sign) (sign terms)
    throw_if (not (is_signature signature)) (identity not_canonical)
    payload_digest ← transfer_payload_digest digest terms
    ok (record {
      member_id = member;
      key_id = key_id;
      payload_digest = payload_digest;
      signature = signature;
    })
