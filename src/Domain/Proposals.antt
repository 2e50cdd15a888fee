-- ===== src/Domain/Proposals.antt =====
-- Exchange proposals of packages/timebank-domain/src/index.ts.
pub mod Agreement
use peer_hours.Prelude.{
  Bool, ◌||◌, String, none, some, ◌==◌, ◌!=◌, text_equality, if◌then◌else◌, not, ◌&&◌, Result, ok,
  throw_if, ◌>>=◌, ◌>>◌, DomainRule, domain, wrong_kinds, other_community, not_published,
  same_member, too_many_minutes, not_proposed, proposal_mismatch, not_creator,
  not_other_participant,
}
use peer_hours.Script.Number.{Number, less}
use peer_hours.Domain.Types.{
  MemberProfile, Listing, ListingKind, published, proposed, accepted, ExchangeProposal,
  ListingStatus-discrete, ListingKind-discrete, ProposalStatus-discrete,
}
use peer_hours.Domain.Listings.{assert_listing_owner, assert_positive_whole_minutes}

unfoldable pub assert_matchable_listings : Listing → Listing → Number → Result (Unit {0})
unfolding assert_positive_whole_minutes ListingStatus-discrete ListingKind-discrete
assert_matchable_listings offered requested minutes = do
  throw_if (offered.kind != ListingKind.offer || requested.kind != ListingKind.request)
      (domain wrong_kinds)
  throw_if (offered.community_id != requested.community_id) (domain other_community)
  throw_if (offered.status != published || requested.status != published) (domain not_published)
  throw_if (offered.member_id == requested.member_id) (domain DomainRule.same_member)
  assert_positive_whole_minutes minutes
  throw_if (less offered.minutes minutes || less requested.minutes minutes)
      (domain too_many_minutes)

unfoldable pub assert_proposal_participants :
    Listing → Listing → MemberProfile → MemberProfile → Result (Unit {0})
unfolding assert_listing_owner
assert_proposal_participants offered requested provider recipient = do
  assert_listing_owner offered provider
  assert_listing_owner requested recipient

unfoldable pub assert_proposal_creator : String → String → String → Result (Unit {0})
assert_proposal_creator creator provider_id recipient_id =
    throw_if (creator != provider_id && creator != recipient_id) (domain not_creator)

-- The arguments are the fields of the input object, in its order.
unfoldable pub propose_exchange :
    String
    → Listing
    → Listing
    → MemberProfile
    → MemberProfile
    → String
    → Number
    → Result ExchangeProposal
propose_exchange id offered requested provider recipient creator minutes = do
  assert_matchable_listings offered requested minutes
  assert_proposal_participants offered requested provider recipient
  assert_proposal_creator creator provider.id recipient.id
  ok (record {
    id = id;
    community_id = offered.community_id;
    offer_id = offered.id;
    request_id = requested.id;
    provider_member_id = provider.id;
    receiver_member_id = recipient.id;
    creator_member_id = creator;
    accepted_by_member_id = none;
    minutes = minutes;
    status = proposed;
  })

unfoldable pub matches_inputs :
    ExchangeProposal → Listing → Listing → MemberProfile → MemberProfile → Bool
matches_inputs proposal offered requested provider recipient = not (
    proposal.offer_id != offered.id
    || proposal.request_id != requested.id
    || proposal.community_id != offered.community_id
    || proposal.provider_member_id != provider.id
    || proposal.receiver_member_id != recipient.id)

unfoldable pub accept_exchange_proposal :
    ExchangeProposal
    → Listing
    → Listing
    → MemberProfile
    → MemberProfile
    → String
    → Result ExchangeProposal
unfolding ProposalStatus-discrete
accept_exchange_proposal proposal offered requested provider recipient accepted_by = do
  throw_if (proposal.status != proposed) (domain not_proposed)
  throw_if (not (matches_inputs proposal offered requested provider recipient))
      (domain proposal_mismatch)
  assert_matchable_listings offered requested proposal.minutes
  assert_proposal_participants offered requested provider recipient
  assert_proposal_creator proposal.creator_member_id provider.id recipient.id
  let other = if proposal.creator_member_id == provider.id then recipient.id else provider.id
  throw_if (accepted_by != other) (domain not_other_participant)
  ok (record proposal { status = accepted; accepted_by_member_id = some accepted_by })
