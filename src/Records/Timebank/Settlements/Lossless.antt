-- ===== src/Records/Timebank/Settlements/Lossless.antt =====
-- The records of settlement acknowledgements and attestations keep what they record.
use mathlib.Core.Path.{subst}
use peer_hours.Prelude.{
  Bool, true, false, ◌&&◌, String, String-discrete, ◌≡◌, refl, arith, text_equality, ◌==◌, ◌!=◌, ok,
  >>=-eq-ok, eq_of_ok, throw_if-ok, mapping, MappingRule, same_member, not_participant,
}
use peer_hours.Script.Text.{is_blank}
use peer_hours.Script.Number.{is_bad_amount, is_finite, finite_of_guard}
use peer_hours.Script.Order.{units_before}
use peer_hours.Script.Sort.{insert, sort}
use peer_hours.Settlement.Acknowledgements.{
  SettlementAcknowledgement, settlement_acknowledgement_id,
}
use peer_hours.Settlement.Attestations.{
  SettlementTransferAttestation, settlement_transfer_attestation_id,
}
use peer_hours.Records.Json.{
  Json, object, field, collect_members, normalize_json, normalize_members,
}
use peer_hours.Records.Envelope.{RecordEnvelope, envelope_members}
use peer_hours.Records.Timebank.{
  CreateTimebankRecordMetadata, assert_text, assert_minutes, as_object,
}
use peer_hours.Records.Timebank.Fields.{assert_text-ok, assert_minutes-ok}
use peer_hours.Records.Timebank.Transfers.{attestation_view}
use peer_hours.Records.Timebank.Settlements.{
  acknowledgement_view, container_view, normalize_acknowledgement, inner_object,
  normalize_container, acknowledges, attests, acknowledgement_form, settlement_attestation_form,
  to_acknowledgement_record, decode_acknowledgement_record, to_settlement_attestation_record,
  decode_settlement_attestation_record,
}
use peer_hours.Records.Timebank.Decoded.{IsLossless, decode_record-to_record_same}

acknowledgement_view-normal :
    (a : SettlementAcknowledgement)
    → is_finite a.minutes ≡ true
    → normalize_json (object (acknowledgement_view a)) ≡ ok (object (acknowledgement_view a))
unfolding normalize_json normalize_members collect_members sort insert units_before
    acknowledgement_view String-discrete
acknowledgement_view-normal a finite = rw finite refl

container_view-normal :
    (a : SettlementTransferAttestation)
    → normalize_json (object (container_view a)) ≡ ok (object (container_view a))
unfolding normalize_json normalize_members collect_members sort insert units_before container_view
    attestation_view String-discrete
container_view-normal a = refl

-- What the reader of acknowledgements lets pass.
record IsStated (a : SettlementAcknowledgement) : Type 0 where
  id : is_blank a.id ≡ false
  community : is_blank a.community_id ≡ false
  source : is_blank a.source_proposal_id ≡ false
  provider : is_blank a.provider_member_id ≡ false
  recipient : is_blank a.recipient_member_id ≡ false
  signer : is_blank a.acknowledged_by_member_id ≡ false
  minutes : is_bad_amount a.minutes ≡ false
  apart : (a.provider_member_id == a.recipient_member_id) ≡ false
  signed :
      (a.acknowledged_by_member_id != a.provider_member_id
        && a.acknowledged_by_member_id != a.recipient_member_id)
      ≡ false
  expected : String
  named :
      settlement_acknowledgement_id a.source_proposal_id a.acknowledged_by_member_id ≡ ok expected
  names : (a.id != expected) ≡ false

-- What the reader of attestations lets pass.
record IsContained (a : SettlementTransferAttestation) : Type 0 where
  id : is_blank a.id ≡ false
  community : is_blank a.community_id ≡ false
  source : is_blank a.source_proposal_id ≡ false
  signer : is_blank a.attestation.member_id ≡ false
  key : is_blank a.attestation.key_id ≡ false
  digest : is_blank a.attestation.payload_digest ≡ false
  signature : is_blank a.attestation.signature ≡ false
  expected : String
  named :
      settlement_transfer_attestation_id a.source_proposal_id a.attestation.member_id ≡ ok expected
  names : (a.id != expected) ≡ false

read-IsStated :
    (j : Json) (a : SettlementAcknowledgement) → normalize_acknowledgement j ≡ ok a → IsStated a
unfolding normalize_acknowledgement
read-IsStated j a h =
    let (m, e₀, h₀) = >>=-eq-ok (as_object j "settlement acknowledgement") _ h in
    let (id, e₁, h₁) =
      >>=-eq-ok (assert_text (field m "id") "Settlement acknowledgement id") _ h₀ in
    let (community, e₂, h₂) =
      >>=-eq-ok (assert_text (field m "communityId") "Settlement acknowledgement community id") _
        h₁ in
    let (source, e₃, h₃) =
      >>=-eq-ok
        (assert_text (field m "sourceProposalId") "Settlement acknowledgement source proposal id") _
        h₂ in
    let (provider, e₄, h₄) =
      >>=-eq-ok
        (assert_text (field m "providerMemberId") "Settlement acknowledgement provider member id") _
        h₃ in
    let (recipient, e₅, h₅) =
      >>=-eq-ok
        (assert_text (field m "recipientMemberId") "Settlement acknowledgement recipient member id")
        _ h₄ in
    let (signer, e₆, h₆) =
      >>=-eq-ok
        (assert_text (field m "acknowledgedByMemberId") "Settlement acknowledgement member id") _
        h₅ in
    let (minutes, e₇, h₇) =
      >>=-eq-ok (assert_minutes (field m "minutes") "Settlement acknowledgement minutes") _ h₆ in
    let (apart, g₁) = throw_if-ok (provider == recipient) (mapping same_member) _ h₇ in
    let (signed, g₂) =
      throw_if-ok (signer != provider && signer != recipient) (mapping not_participant) _ g₁ in
    let (expected, f, g₃) = >>=-eq-ok (settlement_acknowledgement_id source signer) _ g₂ in
    let (named, g₄) =
      throw_if-ok (id != expected) (mapping (MappingRule.wrong_id "settlement acknowledgement")) _
        g₃ in
    let made : SettlementAcknowledgement = record {
      id = id;
      community_id = community;
      source_proposal_id = source;
      provider_member_id = provider;
      recipient_member_id = recipient;
      minutes = minutes;
      acknowledged_by_member_id = signer;
    } in
    let checked : IsStated made = record {
      id = assert_text-ok (field m "id") "Settlement acknowledgement id" e₁;
      community =
          assert_text-ok (field m "communityId") "Settlement acknowledgement community id" e₂;
      source =
          assert_text-ok (field m "sourceProposalId")
            "Settlement acknowledgement source proposal id" e₃;
      provider =
          assert_text-ok (field m "providerMemberId")
            "Settlement acknowledgement provider member id" e₄;
      recipient =
          assert_text-ok (field m "recipientMemberId")
            "Settlement acknowledgement recipient member id" e₅;
      signer =
          assert_text-ok (field m "acknowledgedByMemberId") "Settlement acknowledgement member id"
            e₆;
      minutes = assert_minutes-ok (field m "minutes") "Settlement acknowledgement minutes" e₇;
      apart = apart;
      signed = signed;
      expected = expected;
      named = f;
      names = named;
    } in
    subst IsStated (eq_of_ok made a g₄) checked

read-IsContained :
    (j : Json) (a : SettlementTransferAttestation) → normalize_container j ≡ ok a → IsContained a
unfolding normalize_container
read-IsContained j a h =
    let (m, e₀, h₀) = >>=-eq-ok (as_object j "settlement transfer attestation") _ h in
    let (id, e₁, h₁) =
      >>=-eq-ok (assert_text (field m "id") "Settlement transfer attestation id") _ h₀ in
    let (community, e₂, h₂) =
      >>=-eq-ok (assert_text (field m "communityId") "Settlement transfer attestation community id")
        _ h₁ in
    let (source, e₃, h₃) =
      >>=-eq-ok
        (assert_text (field m "sourceProposalId")
          "Settlement transfer attestation source proposal id")
        _ h₂ in
    let (n, e₄, h₄) =
      >>=-eq-ok (inner_object (field m "attestation") "settlement transfer attestation") _ h₃ in
    let (signer, e₅, h₅) =
      >>=-eq-ok (assert_text (field n "memberId") "Settlement transfer attesting member id") _ h₄ in
    let (key, e₆, h₆) =
      >>=-eq-ok (assert_text (field n "keyId") "Settlement transfer attestation key id") _ h₅ in
    let (digest, e₇, h₇) =
      >>=-eq-ok
        (assert_text (field n "payloadDigest") "Settlement transfer attestation payload digest") _
        h₆ in
    let (signature, e₈, h₈) =
      >>=-eq-ok (assert_text (field n "signature") "Settlement transfer attestation signature") _
        h₇ in
    let (expected, f, g₁) = >>=-eq-ok (settlement_transfer_attestation_id source signer) _ h₈ in
    let (named, g₂) =
      throw_if-ok (id != expected)
        (mapping (MappingRule.wrong_id "settlement transfer attestation")) _ g₁ in
    let made : SettlementTransferAttestation = record {
      id = id;
      community_id = community;
      source_proposal_id = source;
      attestation = record {
        member_id = signer;
        key_id = key;
        payload_digest = digest;
        signature = signature;
      };
    } in
    let checked : IsContained made = record {
      id = assert_text-ok (field m "id") "Settlement transfer attestation id" e₁;
      community =
          assert_text-ok (field m "communityId") "Settlement transfer attestation community id" e₂;
      source =
          assert_text-ok (field m "sourceProposalId")
            "Settlement transfer attestation source proposal id" e₃;
      signer = assert_text-ok (field n "memberId") "Settlement transfer attesting member id" e₅;
      key = assert_text-ok (field n "keyId") "Settlement transfer attestation key id" e₆;
      digest =
          assert_text-ok (field n "payloadDigest") "Settlement transfer attestation payload digest"
            e₇;
      signature =
          assert_text-ok (field n "signature") "Settlement transfer attestation signature" e₈;
      expected = expected;
      named = f;
      names = named;
    } in
    subst IsContained (eq_of_ok made a g₂) checked

stated_again :
    (a : SettlementAcknowledgement)
    → IsStated a
    → normalize_acknowledgement (object (acknowledgement_view a)) ≡ ok a
unfolding normalize_acknowledgement acknowledgement_view field assert_text assert_minutes
    String-discrete
stated_again a w =
    rw
      (
        w.id, w.community, w.source, w.provider, w.recipient, w.signer, w.minutes, w.apart,
        w.signed, w.named, w.names,
      )
      refl

contained_again :
    (a : SettlementTransferAttestation)
    → IsContained a
    → normalize_container (object (container_view a)) ≡ ok a
unfolding normalize_container container_view attestation_view inner_object field assert_text
    String-discrete
contained_again a w =
    rw (w.id, w.community, w.source, w.signer, w.key, w.digest, w.signature, w.named, w.names) refl

same_acknowledgement :
    (a b : SettlementAcknowledgement)
    → normalize_acknowledgement (object (acknowledgement_view a)) ≡ ok b
    → b ≡ a
unfolding normalize_acknowledgement acknowledgement_view field assert_text assert_minutes
    String-discrete
same_acknowledgement a b h = ground arith

same_container :
    (a b : SettlementTransferAttestation)
    → normalize_container (object (container_view a)) ≡ ok b
    → b ≡ a
unfolding normalize_container container_view attestation_view inner_object field assert_text
    String-discrete
same_container a b h = ground arith

acknowledgement-IsLossless : IsLossless acknowledgement_form
acknowledgement-IsLossless = record {
  again = λ j a h. stated_again a (read-IsStated j a h);
  normal = λ j a h.
      acknowledgement_view-normal a (finite_of_guard a.minutes (read-IsStated j a h).minutes);
}

container-IsLossless : IsLossless settlement_attestation_form
container-IsLossless = record {
  again = λ j a h. contained_again a (read-IsContained j a h);
  normal = λ j a h. container_view-normal a;
}

module _ (is_canonical : String → Bool) where
  -- The record that is written for an acknowledgement is decoded to that same acknowledgement.
  pub decode_acknowledgement-to_acknowledgement :
      (a : SettlementAcknowledgement) (metadata : CreateTimebankRecordMetadata) (r : RecordEnvelope)
      → to_acknowledgement_record is_canonical a metadata ≡ ok r
      → decode_acknowledgement_record is_canonical (object (envelope_members r)) ≡ ok a
  unfolding to_acknowledgement_record decode_acknowledgement_record
  decode_acknowledgement-to_acknowledgement a metadata r h =
      decode_record-to_record_same is_canonical acknowledgement_form acknowledgement-IsLossless
        acknowledges same_acknowledgement (λ t author e. e) a metadata r h

  -- The record that is written for an attestation is decoded to that same attestation.
  pub decode_attestation-to_attestation :
      (a : SettlementTransferAttestation) (metadata : CreateTimebankRecordMetadata)
      (r : RecordEnvelope)
      → to_settlement_attestation_record is_canonical a metadata ≡ ok r
      → decode_settlement_attestation_record is_canonical (object (envelope_members r)) ≡ ok a
  unfolding to_settlement_attestation_record decode_settlement_attestation_record
  decode_attestation-to_attestation a metadata r h =
      decode_record-to_record_same is_canonical settlement_attestation_form container-IsLossless
        attests same_container (λ t author e. e) a metadata r h
