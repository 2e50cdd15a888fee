-- ===== src/Records/Resolve/Admission.antt =====
-- The admission of signed domain records, and the checks of attestations and of settlements against
-- their proposals: packages/timebank-records/src/resolve.ts.
use peer_hours.Prelude.{
  Bool, not, ◌||◌, String, none, some, List, [], ◌∷◌, text_equality, if◌then◌else◌, Result, ok,
  throw_if, ◌>>=◌, ◌>>◌, resolution, unsigned_record, bad_record_signature, wrong_record_author,
  bad_attestation,
}
use peer_hours.Script.Map.{Map}
use peer_hours.Domain.Types.{ExchangeProposal}
use peer_hours.Ledger.Types.{Transfer}
use peer_hours.Ledger.Transfers.{create_transfer_terms}
use peer_hours.Identity.Events.{MemberSigningKeyAuthorization}
use peer_hours.Identity.Verifier.{empty_index, index_authorized_keys, verify_member_signature}
use peer_hours.Settlement.Acknowledgements.{SettlementAcknowledgement}
use peer_hours.Settlement.Transfers.{create_settlement_terms}
use peer_hours.Settlement.Transfers.Authorized.{validate_authorized_transfer}
use peer_hours.Settlement.Attestations.{
  SettlementTransferAttestation, source_or_empty, validate_attestation,
}
use peer_hours.Records.Json.{object, Members, field}
use peer_hours.Records.Timebank.{reads}
use peer_hours.Records.Timebank.Listings.{
  published_listing_record_kind, closed_listing_record_kind, decode_published_listing_record,
  decode_closed_listing_record,
}
use peer_hours.Records.Timebank.Proposals.{
  accepted_proposal_record_kind, proposed_proposal_record_kind, decode_accepted_proposal_record,
  decode_proposed_proposal_record,
}
use peer_hours.Records.Timebank.Transfers.{decode_ledger_transfer_record}
use peer_hours.Records.Timebank.Settlements.{
  settlement_acknowledgement_record_kind, settlement_attestation_record_kind,
  decode_acknowledgement_record, decode_settlement_attestation_record,
}
use peer_hours.Records.Signed.{is_member_signed_record, verify_member_signed_record}
use peer_hours.Records.Resolve.{Runtime, is_member_authored_kind, listed, push, known_proposal}

-- `record.authorId !== member`, as an error.
abbrev pub assert_author : Members → String → Result (Unit {0})
assert_author r member =
    throw_if (not (reads (field r "authorId") member)) (resolution wrong_record_author)

module _ (rt : Runtime) where
  unfoldable pub assert_record_author_participates : Members → Result (Unit {0})
  assert_record_author_participates r =
      if reads (field r "kind") proposed_proposal_record_kind
      then (do
        p ← decode_proposed_proposal_record rt.is_canonical (object r)
        assert_author r p.creator_member_id)
      else if reads (field r "kind") accepted_proposal_record_kind
      then (do
        p ← decode_accepted_proposal_record rt.is_canonical (object r)
        throw_if
            (elim p.accepted_by_member_id [
              | none ↦ Bool.true
              | some member ↦ not (reads (field r "authorId") member)
            ])
            (resolution wrong_record_author))
      else if reads (field r "kind") published_listing_record_kind
      then (do
        l ← decode_published_listing_record rt.is_canonical (object r)
        assert_author r l.member_id)
      else if reads (field r "kind") closed_listing_record_kind
      then (do
        closure ← decode_closed_listing_record rt.is_canonical (object r)
        assert_author r closure.member_id)
      else if reads (field r "kind") settlement_acknowledgement_record_kind
      then (do
        a ← decode_acknowledgement_record rt.is_canonical (object r)
        assert_author r a.acknowledged_by_member_id)
      else if reads (field r "kind") settlement_attestation_record_kind
      then (do
        a ← decode_settlement_attestation_record rt.is_canonical (object r)
        assert_author r a.attestation.member_id)
      else (do
        t ← decode_ledger_transfer_record rt.is_canonical (object r)
        throw_if
            (not (
              reads (field r "authorId") t.provider_member_id
              || reads (field r "authorId") t.recipient_member_id))
            (resolution wrong_record_author))

  -- The body of the loop, past its `continue`.
  abbrev pub assert_admitted : Members → List MemberSigningKeyAuthorization → Result (Unit {0})
  assert_admitted r authorizations = do
    throw_if (not (is_member_signed_record r)) (resolution unsigned_record)
    verified ←
        verify_member_signed_record rt.is_canonical rt.fingerprint rt.is_signature rt.verify_record
          r authorizations
    throw_if (not verified) (resolution bad_record_signature)
    assert_record_author_participates r

  unfoldable pub assert_member_signed_domain_records :
      List Members → String → List MemberSigningKeyAuthorization → Result (Unit {0})
  assert_member_signed_domain_records [] community authorizations = ok tt
  assert_member_signed_domain_records (r ∷ records) community authorizations =
      let rest = assert_member_signed_domain_records records community authorizations in
      if not (reads (field r "communityId") community)
        || not (is_member_authored_kind (field r "kind"))
      then rest
      else (do assert_admitted r authorizations; rest)

  module _ (authorizations : List MemberSigningKeyAuthorization) (proposals : Map ExchangeProposal)
      (acknowledgements : Map (List SettlementAcknowledgement)) where
    -- The loop over the attestations of settlements.
    unfoldable pub attestations_by_proposal :
        Map (List SettlementTransferAttestation)
        → List SettlementTransferAttestation
        → Result (Map (List SettlementTransferAttestation))
    attestations_by_proposal m [] = ok m
    attestations_by_proposal m (given ∷ attestations) = do
      p ← known_proposal proposals given.source_proposal_id
      let known = listed acknowledgements p.id
      normalized ← validate_attestation rt.collation rt.digest p known given
      terms ← create_settlement_terms rt.collation p known
      index ← index_authorized_keys rt.fingerprint rt.is_canonical empty_index authorizations
      payload ← create_transfer_terms terms
      throw_if
          (not (
            verify_member_signature rt.is_signature rt.verify_terms index payload terms.community_id
              normalized.attestation.member_id normalized.attestation.key_id
              normalized.attestation.signature))
          (resolution bad_attestation)
      attestations_by_proposal (push m p.id normalized) attestations

    -- The loop over the transfers that are no reversals.
    unfoldable pub assert_settlements_authorized : List Transfer → Result (Unit {0})
    assert_settlements_authorized [] = ok tt
    assert_settlements_authorized (t ∷ transfers) =
        let rest = assert_settlements_authorized transfers in
        elim t.reverses_transfer_id [
          | some _ ↦ rest
          | none ↦ do
            p ← known_proposal proposals (source_or_empty t.source_proposal_id)
            _ ←
                validate_authorized_transfer rt.fingerprint rt.is_canonical rt.digest
                  rt.is_signature rt.verify_terms rt.collation p (listed acknowledgements p.id) t
                  authorizations
            rest
        ]
