-- ===== src/Records/Timebank/Transfers.antt =====
-- Records of ledger transfers. A transfer is read from JSON field by field: where a value has
-- another type, the ledger's constructor throws, and so does the adapter. Left out are what it lets
-- pass: further fields of an attestation, and the `sourceProposalId` of a reversal, which it keeps
-- without a test and which is refused here if it is no text.
pub mod Lossless
pub mod Confirmed
use peer_hours.Prelude.{
  Bool, ◌||◌, String, Option, none, some, List, [], ◌∷◌, ◌==◌, ◌!=◌, ◌&&◌, text_equality, Result,
  ok, err, throw_if, ◌>>=◌, ◌>>◌, mapping, bad_transfer, not_participant,
}
use peer_hours.Script.Number.{Number}
use peer_hours.Script.Collation.{Collation}
use peer_hours.Domain.Types.{ExchangeProposal}
use peer_hours.Ledger.Types.{TransferAttestation, TransferTerms, Transfer, Transfer-discrete}
use peer_hours.Ledger.Transfers.{create_transfer}
use peer_hours.Settlement.Acknowledgements.{SettlementAcknowledgement}
use peer_hours.Settlement.Transfers.{create_confirmed_transfer}
use peer_hours.Records.Json.{
  Json, text, number, array, object, Items, nil, item, Members, end, member, field,
}
use peer_hours.Records.Envelope.{RecordEnvelope}
use peer_hours.Records.Timebank.{
  CreateTimebankRecordMetadata, RecordForm, as_object, rethrown_as, to_record, decode_record,
  reduce_records,
}
use peer_hours.Records.Timebank.Proposals.{optional_member}

abbrev pub ledger_transfer_record_kind : String
ledger_transfer_record_kind = "peer-hours/ledger-transfer/v1"

unfoldable pub attestation_view : TransferAttestation → Members
attestation_view a = member "keyId" (text a.key_id) (
    member "memberId" (text a.member_id)
      (member "payloadDigest" (text a.payload_digest) (member "signature" (text a.signature) end)))

unfoldable pub attestations_view : List TransferAttestation → Items
attestations_view [] = nil
attestations_view (a ∷ rest) = item (object (attestation_view a)) (attestations_view rest)

unfoldable pub transfer_view : Transfer → Members
transfer_view t = member "attestations" (array (attestations_view t.attestations)) (
    member "communityId" (text t.community_id) (
      member "id" (text t.id) (
        member "minutes" (number t.minutes) (
          member "providerMemberId" (text t.provider_member_id) (
            member "recipientMemberId" (text t.recipient_member_id) (
              optional_member "reversesTransferId" t.reverses_transfer_id
                (optional_member "sourceProposalId" t.source_proposal_id end)))))))

unfoldable pub read_text : Option Json → Result String
read_text (some (text s)) = ok s
read_text _ = err (mapping bad_transfer)

unfoldable pub read_optional : Option Json → Result (Option String)
read_optional none = ok none
read_optional (some (text s)) = ok (some s)
read_optional (some _) = err (mapping bad_transfer)

unfoldable pub read_number : Option Json → Result Number
read_number (some (number n)) = ok n
read_number _ = err (mapping bad_transfer)

unfoldable pub read_attestation : Json → Result TransferAttestation
unfolding read_text
read_attestation (object a) = do
  signer ← read_text (field a "memberId")
  key ← read_text (field a "keyId")
  digest ← read_text (field a "payloadDigest")
  signature ← read_text (field a "signature")
  ok (record { member_id = signer; key_id = key; payload_digest = digest; signature = signature })
read_attestation _ = err (mapping bad_transfer)

unfoldable pub read_each : Items → Result (List TransferAttestation)
read_each nil = ok []
read_each (item value rest) = do
  attestation ← read_attestation value
  attestations ← read_each rest
  ok (attestation ∷ attestations)

unfoldable pub read_attestations : Option Json → Result (List TransferAttestation)
read_attestations (some (array items)) = read_each items
read_attestations _ = err (mapping bad_transfer)

-- `value as unknown as Transfer`
unfoldable pub read_transfer : Members → Result Transfer
unfolding read_text read_optional read_number read_attestations
read_transfer transfer = do
  id ← read_text (field transfer "id")
  community ← read_text (field transfer "communityId")
  source ← read_optional (field transfer "sourceProposalId")
  provider ← read_text (field transfer "providerMemberId")
  recipient ← read_text (field transfer "recipientMemberId")
  minutes ← read_number (field transfer "minutes")
  reversed ← read_optional (field transfer "reversesTransferId")
  attestations ← read_attestations (field transfer "attestations")
  ok (record {
    terms = record {
      id = id;
      community_id = community;
      source_proposal_id = source;
      provider_member_id = provider;
      recipient_member_id = recipient;
      minutes = minutes;
      reverses_transfer_id = reversed;
    };
    attestations = attestations;
  })

-- The message of the ledger's error is not kept.
unfoldable pub normalize_transfer : Json → Result Transfer
unfolding read_transfer
normalize_transfer value = do
  members ← as_object value "ledger transfer"
  rethrown_as (mapping bad_transfer) (do transfer ← read_transfer members; create_transfer transfer)

abbrev pub takes_part : Transfer → String → Bool
takes_part t author = author == t.provider_member_id || author == t.recipient_member_id

-- The encoder of transfers takes every author.
abbrev pub any_author : Transfer → String → Bool
any_author t author = Bool.true

abbrev pub ledger_transfer_form : RecordForm Transfer
ledger_transfer_form = record {
  kind = ledger_transfer_record_kind;
  label = "ledger transfer";
  view = transfer_view;
  normalize = normalize_transfer;
  record_id = λ t. t.id;
  community_of = λ t. t.community_id;
  may_submit = takes_part;
}

module _ (is_canonical : String → Bool) where
  unfoldable pub to_ledger_transfer_record :
      Transfer → CreateTimebankRecordMetadata → Result RecordEnvelope
  to_ledger_transfer_record = to_record is_canonical ledger_transfer_form any_author

  unfoldable pub decode_ledger_transfer_record : Json → Result Transfer
  decode_ledger_transfer_record = decode_record is_canonical ledger_transfer_form

  module _ (c : Collation) where
    unfoldable pub to_confirmed_transfer_record :
        ExchangeProposal
        → List SettlementAcknowledgement
        → List TransferAttestation
        → CreateTimebankRecordMetadata
        → Result RecordEnvelope
    to_confirmed_transfer_record proposal acknowledgements attestations metadata = do
      transfer ← create_confirmed_transfer c proposal acknowledgements attestations
      throw_if
          (metadata.author_id != transfer.provider_member_id
            && metadata.author_id != transfer.recipient_member_id)
          (mapping not_participant)
      to_ledger_transfer_record transfer metadata

    unfoldable pub reduce_ledger_transfer_records : List Json → String → Result (List Transfer)
    unfolding Transfer-discrete
    reduce_ledger_transfer_records = reduce_records is_canonical ledger_transfer_form c (λ t. t.id)
