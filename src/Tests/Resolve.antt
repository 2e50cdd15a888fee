-- ===== src/Tests/Resolve.antt =====
-- A history in which ann and bobby settle an exchange.
use peer_hours.Ledger.Settling.{accept_transfer}
use peer_hours.Ledger.Transfers.{derive_postings}
use peer_hours.Ledger.Balances.{apply_postings}
use peer_hours.Identity.Verifier.{assert_each_authorized}
use peer_hours.Identity.Verifier.{assert_authorized_attestations}
use peer_hours.Settlement.Attestations.{attestations_by_participant}
use peer_hours.Ledger.Balances.{is_inherited}
use peer_hours.Settlement.Attestations.{resolve_attestations}
use peer_hours.Records.Timebank.Proposals.{normalize_accepted_proposal}
use peer_hours.Identity.Verifier.{verify_attestation}
use peer_hours.Ledger.Apply.{admit}
use peer_hours.Settlement.Transfers.Authorized.{validate_authorized_transfer}
use peer_hours.Ledger.Balances.{would_cross_minimum_balance}
use peer_hours.Ledger.Apply.{verify_transfer}
use peer_hours.Records.Resolve.State.{assembled_state}
use peer_hours.Records.KeyEvents.{event_from_record}
use peer_hours.Records.Timebank.Transfers.{normalize_transfer}
use peer_hours.Records.Timebank.Transfers.{decode_ledger_transfer_record}
use peer_hours.Records.Timebank.Transfers.{attestation_view}
use peer_hours.Identity.Events.{create_event}
use peer_hours.Identity.Events.{apply_event}
use peer_hours.Records.Timebank.Transfers.{read_each}
use peer_hours.Records.Timebank.Proposals.{decode_accepted_proposal_record}
use peer_hours.Records.Timebank.Transfers.{attestations_view}
use peer_hours.Records.Timebank.Transfers.{read_attestation}
use peer_hours.Records.KeyEvents.{read_event}
use peer_hours.Records.Timebank.Settlements.{decode_acknowledgement_record}
use peer_hours.Records.Timebank.Settlements.{normalize_acknowledgement}
use peer_hours.Ledger.Settling.{settle_reversals, settle_ordinary}
use peer_hours.Ledger.Apply.{
  transfers_by_id, assert_valid_reversals, settle, assert_unique_settlements, apply_transfers,
  normalize_ledger_policy,
}
use peer_hours.Records.Timebank.{decode_own, reduce_records, decode_record, normalize_record, reads}
use peer_hours.Records.Resolve.{
  assert_preserved, map_result, assert_accepted_proposals_preserve_published_terms,
  acknowledgements_by_proposal, closed_listing_ids, is_member_authored_kind, is_identity_record,
  filter, by_proposal_id, ResolvedTimebankState,
}
use peer_hours.Records.Timebank.Proposals.{
  reduce_accepted_proposal_records, reduce_proposed_proposal_records, proposal_view,
}
use peer_hours.Records.Timebank.Settlements.{
  reduce_settlement_attestation_records, reduce_acknowledgement_records, acknowledgement_view,
}
use peer_hours.Records.Resolve.Admission.{
  attestations_by_proposal, assert_settlements_authorized, assert_member_signed_domain_records,
  assert_record_author_participates,
}
use peer_hours.Records.Timebank.Transfers.{reduce_ledger_transfer_records, transfer_view}
use peer_hours.Records.Timebank.Listings.{
  reduce_closed_listing_records, reduce_published_listing_records, decode_published_listing_record,
}
use peer_hours.Identity.Lifecycles.{lifecycles_by_id, assert_not_retired, reduce_lifecycles}
use peer_hours.Identity.Events.{
  create_authorization, apply_events, reduce_events, assert_not_reassigned, events_by_id,
  MemberSigningKeyAuthorizationEvent, activate,
}
use peer_hours.Records.Signed.{
  assert_text, create_member_signed_record, is_member_signed_record, verify_member_signed_record,
}
use peer_hours.Identity.Verifier.{index_authorized_keys, index_key, verify_member_signature}
use peer_hours.Records.KeyEvents.{events_from_records, reduce_event_records, event_view}
use peer_hours.Records.Declarations.{declarations_by_feed, declarations_to_authorizations}
use peer_hours.Records.KeyLifecycles.{
  declared_roots, is_lifecycle_record, reduce_proven_lifecycles, lifecycles_from_records,
  assert_proven,
}
use peer_hours.Records.Envelope.{
  records_by_id, reduce_record_envelopes, RecordEnvelope, envelope_members,
}
use peer_hours.Records.Resolve.State.{
  resolve_timebank_records, resolve_authorizations, resolved_state,
}
use peer_hours.Script.Text.Separated.{nuls}
use peer_hours.Identity.Verifier.Indexed.{IsSeparable}
use peer_hours.Prelude.{
  All, ℕ_discrete, ◌-ℤ◌, ◌+ℤ◌, pos, negsuc, String, ok, List, [], ◌∷◌, ◌≡◌, refl, true, Occurs,
  here,
}
use peer_hours.Ledger.Types.{Amount, Transfer, TransferAttestation}
use peer_hours.Settlement.Attestations.{awaiting_attestations}
use peer_hours.Records.Resolve.Settled.{Settles}
use peer_hours.Records.Resolve.Admitted.{IsAdmitted}
use peer_hours.Records.Resolve.Assembled.{
  acknowledged, resolve_timebank_records-Settles, resolve_timebank_records-IsAdmitted,
}
use peer_hours.Tests.Settlement.{key_of_member, confirmed, agreed, from_ann, from_bobby}
use peer_hours.Domain.Types.{ExchangeProposal}
use peer_hours.Settlement.Acknowledgements.{SettlementAcknowledgement}
use peer_hours.Settlement.Transfers.Deterministic.{settlement_terms}
use peer_hours.Records.Json.{text, Members, member, field}
use peer_hours.Tests.Records.{envelope_of, encoding, test_runtime}

abbrev activation_of : String → MemberSigningKeyAuthorizationEvent
activation_of who = record {
  event_id = who;
  community_id = "c";
  member_id = who;
  key_id = who;
  occurred_at = "2026";
  action = activate who;
}

abbrev activating : String → Members
activating who =
    envelope_members
      (record (envelope_of who "identity.member-signing-key.activate" who
        (event_view (activation_of who))) { schema = "peer-hours/timebank-record" })

abbrev signed_record : String → RecordEnvelope → Members
signed_record who r =
    member "signingKeyId" (text who) (member "signature" (text who) (envelope_members r))

abbrev attested : String → TransferAttestation
attested who = record {
  member_id = who;
  key_id = who;
  payload_digest = "p/settlement";
  signature = who;
}

abbrev settled : Transfer
settled = record {
  terms = settlement_terms agreed;
  attestations = attested "ann" ∷ attested "bobby" ∷ [];
}

abbrev acknowledging : String → SettlementAcknowledgement → Members
acknowledging who a =
    signed_record who
      (envelope_of a.id "peer-hours/settlement-acknowledgement/v1" who (acknowledgement_view a))

abbrev accepting : Members
accepting = signed_record "bobby" (
    envelope_of "p/accepted" "peer-hours/accepted-exchange-proposal/v1" "bobby"
      (proposal_view agreed))

abbrev settling : Members
settling =
    signed_record "ann"
      (envelope_of "p/settlement" "peer-hours/ledger-transfer/v1" "ann" (transfer_view settled))

abbrev history : List Members
history =
    settling
    ∷ acknowledging "bobby" from_bobby
    ∷ accepting
    ∷ acknowledging "ann" from_ann
    ∷ activating "bobby"
    ∷ activating "ann"
    ∷ []

abbrev settled_state : ResolvedTimebankState
settled_state = record {
  community_id = "c";
  authorizations = key_of_member "ann" ∷ key_of_member "bobby" ∷ [];
  published_listings = [];
  proposed_proposals = [];
  accepted_proposals = agreed ∷ [];
  settlement_acknowledgements = from_ann ∷ from_bobby ∷ [];
  settlement_confirmations = confirmed ∷ [];
  settlement_attestations =
      record { proposal_id = "p"; status = awaiting_attestations; attestations = [] } ∷ [];
  transfers = settled ∷ [];
  ledger = record {
    community_id = "c";
    transfers = settled ∷ [];
    rejected_transfers = [];
    postings =
        record { transfer_id = "p/settlement"; member_id = "ann"; minutes = pos 60 }
        ∷ record { transfer_id = "p/settlement"; member_id = "bobby"; minutes = negsuc 59 }
        ∷ [];
    balances = ("ann", Amount.number (pos 60)) ∷ ("bobby", Amount.number (negsuc 59)) ∷ [];
  };
}

resolves_history : resolve_timebank_records test_runtime "c" history ≡ ok settled_state
unfolding encoding filter resolve_timebank_records resolved_state resolve_authorizations
    apply_events assert_not_reassigned assert_proven declarations_by_feed
    declarations_to_authorizations declared_roots events_by_id events_from_records
    is_identity_record is_lifecycle_record lifecycles_from_records records_by_id
    reduce_event_records reduce_events reduce_lifecycles reduce_proven_lifecycles
    reduce_record_envelopes assert_member_signed_domain_records assert_not_retired
    assert_record_author_participates assert_text create_authorization create_member_signed_record
    decode_published_listing_record decode_record index_authorized_keys index_key
    is_member_authored_kind is_member_signed_record lifecycles_by_id normalize_record
    reduce_published_listing_records verify_member_signature verify_member_signed_record
    acknowledgements_by_proposal apply_transfers assert_accepted_proposals_preserve_published_terms
    assert_preserved assert_settlements_authorized attestations_by_proposal closed_listing_ids
    decode_own map_result normalize_ledger_policy reduce_accepted_proposal_records
    reduce_acknowledgement_records reduce_closed_listing_records reduce_ledger_transfer_records
    reduce_proposed_proposal_records reduce_records reduce_settlement_attestation_records
    assert_unique_settlements assert_valid_reversals settle settle_ordinary settle_reversals
    transfers_by_id apply_event attestation_view attestations_view create_event
    decode_accepted_proposal_record decode_acknowledgement_record decode_ledger_transfer_record
    event_from_record normalize_acknowledgement normalize_transfer read_attestation read_each
    read_event admit assembled_state assert_authorized_attestations assert_each_authorized
    attestations_by_participant is_inherited normalize_accepted_proposal resolve_attestations
    validate_authorized_transfer verify_attestation verify_transfer would_cross_minimum_balance
    accept_transfer acknowledgement_view apply_postings by_proposal_id derive_postings event_view
    proposal_view transfer_view ◌-ℤ◌ ◌+ℤ◌
resolves_history = refl

settled-IsSeparable : All IsSeparable settled_state.authorizations
unfolding nuls ℕ_discrete
settled-IsSeparable = (
  record { community = refl; member = refl; key = refl },
  (record { community = refl; member = refl; key = refl }, tt),
)

resolve_timebank_records-Settles_example :
    (p : ExchangeProposal) × (u : Transfer) × Occurs p (agreed ∷ [])
    × Settles test_runtime settled_state.authorizations
        (by_proposal_id [] (agreed ∷ []))
        (acknowledged settled_state)
        settled
        p
        u
resolve_timebank_records-Settles_example =
    resolve_timebank_records-Settles test_runtime "c" history settled_state settled resolves_history
      (here refl) refl settled-IsSeparable

settling_authored : is_member_authored_kind (field settling "kind") ≡ true
unfolding encoding is_member_authored_kind
settling_authored = refl

settling_community : reads (field settling "communityId") "c" ≡ true
unfolding encoding
settling_community = refl

resolve_timebank_records-IsAdmitted_example :
    IsAdmitted test_runtime "c" settled_state.authorizations settling
resolve_timebank_records-IsAdmitted_example =
    resolve_timebank_records-IsAdmitted test_runtime "c" history settled_state settling
      resolves_history (here refl) settling_community settling_authored settled-IsSeparable
