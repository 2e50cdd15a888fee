-- ===== src/Records/Timebank/Settlements.antt =====
-- Records of settlement acknowledgements and of the attestations of a settlement transfer.
pub mod Lossless
use peer_hours.Prelude.{
  Bool, ◌&&◌, String, Option, none, some, List, ◌==◌, ◌!=◌, text_equality, Result, ok, err,
  throw_if, ◌>>=◌, ◌>>◌, MappingRule, mapping, not_object, same_member, not_participant, wrong_id,
}
use peer_hours.Script.Collation.{Collation}
use peer_hours.Settlement.Acknowledgements.{
  SettlementAcknowledgement, Acknowledgement-discrete, settlement_acknowledgement_id,
}
use peer_hours.Settlement.Attestations.{
  SettlementTransferAttestation, Container-discrete, settlement_transfer_attestation_id,
}
use peer_hours.Records.Json.{Json, text, number, object, Members, end, member, field}
use peer_hours.Records.Envelope.{RecordEnvelope}
use peer_hours.Records.Timebank.{
  CreateTimebankRecordMetadata, RecordForm, assert_text, assert_minutes, as_object, to_record,
  decode_record, reduce_records,
}
use peer_hours.Records.Timebank.Transfers.{attestation_view}

abbrev pub settlement_acknowledgement_record_kind : String
settlement_acknowledgement_record_kind = "peer-hours/settlement-acknowledgement/v1"

abbrev pub settlement_attestation_record_kind : String
settlement_attestation_record_kind = "peer-hours/settlement-transfer-attestation/v1"

unfoldable pub acknowledgement_view : SettlementAcknowledgement → Members
acknowledgement_view a = member "acknowledgedByMemberId" (text a.acknowledged_by_member_id) (
    member "communityId" (text a.community_id) (
      member "id" (text a.id) (
        member "minutes" (number a.minutes) (
          member "providerMemberId" (text a.provider_member_id) (
            member "recipientMemberId" (text a.recipient_member_id)
              (member "sourceProposalId" (text a.source_proposal_id) end))))))

unfoldable pub container_view : SettlementTransferAttestation → Members
container_view a = member "attestation" (object (attestation_view a.attestation)) (
    member "communityId" (text a.community_id)
      (member "id" (text a.id) (member "sourceProposalId" (text a.source_proposal_id) end)))

unfoldable pub normalize_acknowledgement : Json → Result SettlementAcknowledgement
unfolding assert_text assert_minutes
normalize_acknowledgement value = do
  a ← as_object value "settlement acknowledgement"
  id ← assert_text (field a "id") "Settlement acknowledgement id"
  community ← assert_text (field a "communityId") "Settlement acknowledgement community id"
  source ← assert_text (field a "sourceProposalId") "Settlement acknowledgement source proposal id"
  provider ←
      assert_text (field a "providerMemberId") "Settlement acknowledgement provider member id"
  recipient ←
      assert_text (field a "recipientMemberId") "Settlement acknowledgement recipient member id"
  signer ← assert_text (field a "acknowledgedByMemberId") "Settlement acknowledgement member id"
  minutes ← assert_minutes (field a "minutes") "Settlement acknowledgement minutes"
  throw_if (provider == recipient) (mapping same_member)
  throw_if (signer != provider && signer != recipient) (mapping not_participant)
  expected ← settlement_acknowledgement_id source signer
  throw_if (id != expected) (mapping (MappingRule.wrong_id "settlement acknowledgement"))
  ok (record {
    id = id;
    community_id = community;
    source_proposal_id = source;
    provider_member_id = provider;
    recipient_member_id = recipient;
    minutes = minutes;
    acknowledged_by_member_id = signer;
  })

-- `isRecord(source.attestation)`
unfoldable pub inner_object : Option Json → String → Result Members
inner_object (some (object members)) label = ok members
inner_object _ label = err (mapping (not_object label))

unfoldable pub normalize_container : Json → Result SettlementTransferAttestation
unfolding assert_text inner_object
normalize_container value = do
  source ← as_object value "settlement transfer attestation"
  id ← assert_text (field source "id") "Settlement transfer attestation id"
  community ←
      assert_text (field source "communityId") "Settlement transfer attestation community id"
  proposal ←
      assert_text (field source "sourceProposalId")
        "Settlement transfer attestation source proposal id"
  attestation ← inner_object (field source "attestation") "settlement transfer attestation"
  signer ← assert_text (field attestation "memberId") "Settlement transfer attesting member id"
  key ← assert_text (field attestation "keyId") "Settlement transfer attestation key id"
  digest ←
      assert_text (field attestation "payloadDigest")
        "Settlement transfer attestation payload digest"
  signature ←
      assert_text (field attestation "signature") "Settlement transfer attestation signature"
  expected ← settlement_transfer_attestation_id proposal signer
  throw_if (id != expected) (mapping (MappingRule.wrong_id "settlement transfer attestation"))
  ok (record {
    id = id;
    community_id = community;
    source_proposal_id = proposal;
    attestation = record {
      member_id = signer;
      key_id = key;
      payload_digest = digest;
      signature = signature;
    };
  })

abbrev pub acknowledges : SettlementAcknowledgement → String → Bool
acknowledges a author = author == a.acknowledged_by_member_id

abbrev pub attests : SettlementTransferAttestation → String → Bool
attests a author = author == a.attestation.member_id

abbrev pub acknowledgement_form : RecordForm SettlementAcknowledgement
acknowledgement_form = record {
  kind = settlement_acknowledgement_record_kind;
  label = "settlement acknowledgement";
  view = acknowledgement_view;
  normalize = normalize_acknowledgement;
  record_id = λ a. a.id;
  community_of = λ a. a.community_id;
  may_submit = acknowledges;
}

abbrev pub settlement_attestation_form : RecordForm SettlementTransferAttestation
settlement_attestation_form = record {
  kind = settlement_attestation_record_kind;
  label = "settlement transfer attestation";
  view = container_view;
  normalize = normalize_container;
  record_id = λ a. a.id;
  community_of = λ a. a.community_id;
  may_submit = attests;
}

module _ (is_canonical : String → Bool) where
  unfoldable pub to_acknowledgement_record :
      SettlementAcknowledgement → CreateTimebankRecordMetadata → Result RecordEnvelope
  to_acknowledgement_record = to_record is_canonical acknowledgement_form acknowledges

  unfoldable pub decode_acknowledgement_record : Json → Result SettlementAcknowledgement
  decode_acknowledgement_record = decode_record is_canonical acknowledgement_form

  unfoldable pub to_settlement_attestation_record :
      SettlementTransferAttestation → CreateTimebankRecordMetadata → Result RecordEnvelope
  to_settlement_attestation_record = to_record is_canonical settlement_attestation_form attests

  unfoldable pub decode_settlement_attestation_record : Json → Result SettlementTransferAttestation
  decode_settlement_attestation_record = decode_record is_canonical settlement_attestation_form

  module _ (c : Collation) where
    unfoldable pub reduce_acknowledgement_records :
        List Json → String → Result (List SettlementAcknowledgement)
    unfolding Acknowledgement-discrete
    reduce_acknowledgement_records = reduce_records is_canonical acknowledgement_form c (λ a. a.id)

    unfoldable pub reduce_settlement_attestation_records :
        List Json → String → Result (List SettlementTransferAttestation)
    unfolding Container-discrete
    reduce_settlement_attestation_records =
        reduce_records is_canonical settlement_attestation_form c (λ a. a.id)
