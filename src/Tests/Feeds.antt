-- ===== src/Tests/Feeds.antt =====
-- A member who declares a feed and publishes a listing in it.
use peer_hours.Records.Resolve.State.{
  assembled_state, resolve_timebank_records, resolve_authorizations, resolved_state,
}
use peer_hours.Ledger.Settling.{settle_reversals, settle_ordinary}
use peer_hours.Ledger.Apply.{
  transfers_by_id, assert_valid_reversals, settle, assert_unique_settlements, apply_transfers,
  normalize_ledger_policy,
}
use peer_hours.Records.Timebank.{decode_own, reduce_records, decode_record, normalize_record}
use peer_hours.Records.Resolve.{
  assert_preserved, map_result, assert_accepted_proposals_preserve_published_terms,
  acknowledgements_by_proposal, closed_listing_ids, is_member_authored_kind, is_identity_record,
  filter,
}
use peer_hours.Records.Timebank.Proposals.{
  reduce_accepted_proposal_records, reduce_proposed_proposal_records,
}
use peer_hours.Records.Timebank.Settlements.{
  reduce_settlement_attestation_records, reduce_acknowledgement_records,
}
use peer_hours.Records.Resolve.Admission.{
  attestations_by_proposal, assert_settlements_authorized, assert_member_signed_domain_records,
  assert_record_author_participates,
}
use peer_hours.Records.Timebank.Transfers.{reduce_ledger_transfer_records}
use peer_hours.Records.Timebank.Listings.{
  reduce_closed_listing_records, reduce_published_listing_records, decode_published_listing_record,
  listing_view,
}
use peer_hours.Identity.Lifecycles.{lifecycles_by_id, assert_not_retired, reduce_lifecycles}
use peer_hours.Identity.Events.{
  create_authorization, apply_events, reduce_events, assert_not_reassigned, events_by_id,
}
use peer_hours.Records.Signed.{
  assert_text, create_member_signed_record, is_member_signed_record, verify_member_signed_record,
}
use peer_hours.Identity.Verifier.{index_authorized_keys, index_key, verify_member_signature}
use peer_hours.Records.KeyEvents.{events_from_records, reduce_event_records}
use peer_hours.Records.Declarations.{
  declarations_by_feed, declarations_to_authorizations, root_authorization,
}
use peer_hours.Records.KeyLifecycles.{
  declared_roots, is_lifecycle_record, reduce_proven_lifecycles, lifecycles_from_records,
  assert_proven,
}
use peer_hours.Records.Envelope.{records_by_id, reduce_record_envelopes, envelope_members}
use peer_hours.Prelude.{String, some, ok, [], ◌∷◌, ◌≡◌, refl, true, here, there}
use peer_hours.Domain.Types.{Listing}
use peer_hours.Records.Json.{text, object, Members, member, field}
use peer_hours.Records.Feeds.{
  MemberFeedHistory, resolve_timebank_member_feeds, FeedResolvedTimebankState, is_bound,
  declares_feed, is_member_authored_record, assert_feed_public_key, assert_record_like,
  declare_feed, collect_records, collect_histories, declare_record, declare_records,
  declared_feed_keys_by_member,
}
use peer_hours.Records.Feeds.Provenance.{
  Declares, resolve_timebank_member_feeds-one_owner, resolve_timebank_member_feeds-Declares,
}
use peer_hours.Script.Hex.{is_hex, is_hex_key, to_lower_case}
use peer_hours.Tests.Records.{
  encoding, declared, declares-zeros, envelope_of, digging, declares, declaring, zeros,
  test_runtime,
}

abbrev planting : Listing
planting = record digging { member_id = "phm_root" }

abbrev planting_record : Members
planting_record = member "signingKeyId" (text "root:phm_root") (
    member "signature" (text "root") (
      envelope_members
        (envelope_of "l" "peer-hours/published-listing/v1" "phm_root" (listing_view planting))))

abbrev own_feed : MemberFeedHistory
own_feed = record {
  feed_public_key = zeros;
  records = object planting_record ∷ object (declaring zeros) ∷ [];
}

abbrev planted : FeedResolvedTimebankState
planted = record {
  community_id = "c";
  authorizations = root_authorization (declares zeros) ∷ [];
  published_listings = planting ∷ [];
  proposed_proposals = [];
  accepted_proposals = [];
  settlement_acknowledgements = [];
  settlement_confirmations = [];
  settlement_attestations = [];
  transfers = [];
  ledger = record {
    community_id = "c";
    transfers = [];
    rejected_transfers = [];
    postings = [];
    balances = [];
  };
}

resolves_feeds : resolve_timebank_member_feeds test_runtime "c" (own_feed ∷ []) ≡ ok planted
unfolding declared filter is_hex is_hex_key to_lower_case is_member_authored_record
    assert_feed_public_key assert_record_like declare_feed collect_records collect_histories
    declare_record declare_records declared_feed_keys_by_member resolve_timebank_member_feeds
    resolve_timebank_records resolved_state resolve_authorizations apply_events
    assert_not_reassigned assert_proven declarations_by_feed declarations_to_authorizations
    declared_roots events_by_id events_from_records is_identity_record is_lifecycle_record
    lifecycles_from_records records_by_id reduce_event_records reduce_events reduce_lifecycles
    reduce_proven_lifecycles reduce_record_envelopes assert_member_signed_domain_records
    assert_not_retired assert_record_author_participates assert_text create_authorization
    create_member_signed_record decode_published_listing_record decode_record index_authorized_keys
    index_key is_member_authored_kind is_member_signed_record lifecycles_by_id normalize_record
    reduce_published_listing_records verify_member_signature verify_member_signed_record
    acknowledgements_by_proposal apply_transfers assert_accepted_proposals_preserve_published_terms
    assert_preserved assert_settlements_authorized attestations_by_proposal closed_listing_ids
    decode_own map_result normalize_ledger_policy reduce_accepted_proposal_records
    reduce_acknowledgement_records reduce_closed_listing_records reduce_ledger_transfer_records
    reduce_proposed_proposal_records reduce_records reduce_settlement_attestation_records
    assert_unique_settlements assert_valid_reversals settle settle_ordinary settle_reversals
    transfers_by_id assembled_state
resolves_feeds = refl

planting_bound : is_bound "c" planting_record ≡ true
unfolding encoding is_member_authored_record
planting_bound = refl

resolve_timebank_member_feeds-Declares_example :
    (author : String) × (field planting_record "authorId" ≡ some (text author))
    × Declares test_runtime "c" (own_feed ∷ []) author (to_lower_case zeros)
resolve_timebank_member_feeds-Declares_example =
    resolve_timebank_member_feeds-Declares test_runtime "c" (own_feed ∷ []) planted own_feed
      planting_record resolves_feeds (here refl) (here refl) planting_bound

abbrev planter : String
planter = "phm_root"

declares_own : declares_feed "c" (declaring zeros) ≡ true
unfolding encoding
declares_own = refl

abbrev planter_declares : Declares test_runtime "c" (own_feed ∷ []) "phm_root" (to_lower_case zeros)
planter_declares = record {
  history = own_feed;
  held = here refl;
  declaring = declaring zeros;
  written = there (here refl);
  declares = declares_own;
  declaration = declares zeros;
  read = declares-zeros;
  member_named = refl;
  key_named = refl;
}

resolve_timebank_member_feeds-one_owner_example : "phm_root" ≡ planter
resolve_timebank_member_feeds-one_owner_example =
    resolve_timebank_member_feeds-one_owner test_runtime "c" (own_feed ∷ []) planted "phm_root"
      planter (to_lower_case zeros) resolves_feeds planter_declares planter_declares
