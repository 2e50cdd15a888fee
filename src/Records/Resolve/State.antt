-- ===== src/Records/Resolve/State.antt =====
-- `resolveTimebankRecords` of packages/timebank-records/src/resolve.ts.
use peer_hours.Prelude.{
  not, String, List, [], ◌++◌, map, contains, ◌==◌, text_equality, Result, ok, throw_if, ◌>>=◌,
  ◌>>◌, resolution, legacy_event,
}
use peer_hours.Ledger.Apply.{apply_transfers}
use peer_hours.Identity.Events.{MemberSigningKeyAuthorization}
use peer_hours.Identity.Verifier.{empty_index, index_authorized_keys, verify_attestation}
use peer_hours.Settlement.Acknowledgements.{resolve_settlement_acknowledgements}
use peer_hours.Settlement.Attestations.{has_items, resolve_attestations}
use peer_hours.Records.Json.{Members}
use peer_hours.Records.Envelope.{RecordEnvelope, envelope_members, reduce_record_envelopes}
use peer_hours.Records.Timebank.Listings.{
  published_listing_record_kind, closed_listing_record_kind, reduce_published_listing_records,
  reduce_closed_listing_records,
}
use peer_hours.Records.Timebank.Proposals.{
  accepted_proposal_record_kind, proposed_proposal_record_kind, reduce_accepted_proposal_records,
  reduce_proposed_proposal_records,
}
use peer_hours.Records.Timebank.Transfers.{
  ledger_transfer_record_kind, reduce_ledger_transfer_records,
}
use peer_hours.Records.Timebank.Settlements.{
  settlement_acknowledgement_record_kind, settlement_attestation_record_kind,
  reduce_acknowledgement_records, reduce_settlement_attestation_records,
}
use peer_hours.Records.Declarations.{
  member_feed_declaration_record_kind, declarations_to_authorizations,
}
use peer_hours.Records.KeyEvents.{reduce_event_records}
use peer_hours.Records.KeyLifecycles.{is_lifecycle_record, reduce_proven_lifecycles}
use peer_hours.Records.Resolve.{
  Runtime, ResolvedTimebankState, filter, of_kind_json, is_identity_record, closed_listing_ids,
  by_proposal_id, assert_accepted_proposals_preserve_published_terms, listed,
  acknowledgements_by_proposal, map_result, resolution_error,
}
use peer_hours.Records.Resolve.Admission.{
  assert_member_signed_domain_records, attestations_by_proposal, assert_settlements_authorized,
}

module _ (rt : Runtime) where
  -- The authorizations of a community's records, from all three kinds of identity record.
  unfoldable pub resolve_authorizations :
      List RecordEnvelope → Result (List MemberSigningKeyAuthorization)
  resolve_authorizations records = do
    let declarations = filter (λ r. r.kind == member_feed_declaration_record_kind) records
    let members = map (λ r. r.author_id) declarations
    let legacy = filter is_identity_record records
    throw_if (has_items (filter (λ r. contains members r.author_id) legacy))
        (resolution legacy_event)
    legacy_authorizations ←
        reduce_event_records rt.fingerprint rt.is_canonical rt.collation
          (map envelope_members legacy)
    self_owned ←
        declarations_to_authorizations rt.fingerprint rt.is_canonical rt.hash rt.is_signature
          rt.verify_declaration rt.collation (map envelope_members declarations)
    lifecycles ←
        reduce_proven_lifecycles rt.fingerprint rt.is_canonical rt.hash rt.is_signature
          rt.verify_lifecycle rt.verify_declaration rt.collation
          (map envelope_members (filter is_lifecycle_record records))
          (map envelope_members declarations)
    ok (legacy_authorizations ++ (self_owned ++ lifecycles))

  -- The body of the `try`, from the listings on.
  unfoldable pub assembled_state :
      String
      → List RecordEnvelope
      → List MemberSigningKeyAuthorization
      → Result ResolvedTimebankState
  assembled_state community_id community authorizations = do
    all_published ←
        reduce_published_listing_records rt.is_canonical rt.collation
          (of_kind_json published_listing_record_kind community) community_id
    closed ←
        reduce_closed_listing_records rt.is_canonical rt.collation
          (of_kind_json closed_listing_record_kind community) community_id
    closed_ids ← closed_listing_ids all_published closed
    accepted ←
        reduce_accepted_proposal_records rt.is_canonical rt.collation
          (of_kind_json accepted_proposal_record_kind community) community_id
    proposed ←
        reduce_proposed_proposal_records rt.is_canonical rt.collation
          (of_kind_json proposed_proposal_record_kind community) community_id
    acknowledgements ←
        reduce_acknowledgement_records rt.is_canonical rt.collation
          (of_kind_json settlement_acknowledgement_record_kind community) community_id
    transfers ←
        reduce_ledger_transfer_records rt.is_canonical rt.collation
          (of_kind_json ledger_transfer_record_kind community) community_id
    attestations ←
        reduce_settlement_attestation_records rt.is_canonical rt.collation
          (of_kind_json settlement_attestation_record_kind community) community_id
    assert_accepted_proposals_preserve_published_terms proposed accepted
    let proposals = by_proposal_id [] accepted
    acknowledged ← acknowledgements_by_proposal proposals [] acknowledgements
    confirmations ←
        map_result
          (λ p. resolve_settlement_acknowledgements rt.collation p (listed acknowledged p.id))
          accepted
    attested ← attestations_by_proposal rt authorizations proposals acknowledged [] attestations
    attestation_states ←
        map_result
          (λ p.
            resolve_attestations rt.collation rt.digest p (listed acknowledged p.id)
              (listed attested p.id))
          accepted
    assert_settlements_authorized rt authorizations proposals acknowledged transfers
    index ← index_authorized_keys rt.fingerprint rt.is_canonical empty_index authorizations
    ledger ← apply_transfers rt.collation community_id transfers (
        verify_attestation rt.fingerprint rt.is_canonical rt.digest rt.is_signature rt.verify_terms
          index)
    ok (record {
      community_id = community_id;
      authorizations = authorizations;
      published_listings = filter (λ l. not (contains closed_ids l.id)) all_published;
      proposed_proposals = proposed;
      accepted_proposals = accepted;
      settlement_acknowledgements = acknowledgements;
      settlement_confirmations = confirmations;
      settlement_attestations = attestation_states;
      transfers = transfers;
      ledger = ledger;
    })

  -- The body of the `try`.
  unfoldable pub resolved_state : String → List Members → Result ResolvedTimebankState
  resolved_state community_id records = do
    normalized ← reduce_record_envelopes rt.is_canonical rt.collation records
    let community = filter (λ r. r.community_id == community_id) normalized
    authorizations ← resolve_authorizations community
    assert_member_signed_domain_records rt records community_id authorizations
    assembled_state community_id community authorizations

  unfoldable pub resolve_timebank_records : String → List Members → Result ResolvedTimebankState
  resolve_timebank_records community_id records =
      resolution_error (resolved_state community_id records)
