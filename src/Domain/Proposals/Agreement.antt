-- ===== src/Domain/Proposals/Agreement.antt =====
-- What an accepted proposal stands for, and how acceptance follows a proposal.
use peer_hours.Prelude.{
  ◌≡◌, ◌≢◌, ◌⊎◌, false, true, String, none, some, ◌==◌, text_equality, if◌then◌else◌, ok, err,
  domain, not_other_participant, arith,
}
use peer_hours.Script.Number.{Number, less, is_bad_amount}
use peer_hours.Domain.Types.{
  MemberProfile, Listing, published, proposed, accepted, ExchangeProposal,
}
use peer_hours.Domain.Proposals.{
  propose_exchange, accept_exchange_proposal, matches_inputs, assert_matchable_listings,
  assert_proposal_participants, assert_proposal_creator,
}

module _ (offered requested : Listing) (provider recipient : MemberProfile) where
  pub record IsAgreement (p : ExchangeProposal) : Type 0 where
    pub status : p.status ≡ accepted
    pub apart : p.provider_member_id ≢ p.receiver_member_id
    pub consent :
        ((p.creator_member_id ≡ p.provider_member_id)
          × (p.accepted_by_member_id ≡ some p.receiver_member_id))
        ⊎ ((p.creator_member_id ≡ p.receiver_member_id)
            × (p.accepted_by_member_id ≡ some p.provider_member_id))
    pub offer_owner : p.provider_member_id ≡ offered.member_id
    pub request_owner : p.receiver_member_id ≡ requested.member_id
    pub offer_community : p.community_id ≡ offered.community_id
    pub request_community : p.community_id ≡ requested.community_id
    pub offer_published : offered.status ≡ published
    pub request_published : requested.status ≡ published
    pub amount : is_bad_amount p.minutes ≡ false
    pub within_offer : less offered.minutes p.minutes ≡ false
    pub within_request : less requested.minutes p.minutes ≡ false

  -- An accepted proposal binds two distinct members of one community, the owners of the published
  -- offer and request; one of them created it and the other one accepted it; its minutes are a
  -- positive whole number that neither listing falls short of.
  pub accept-IsAgreement :
      (p q : ExchangeProposal) (member : String)
      → accept_exchange_proposal p offered requested provider recipient member ≡ ok q
      → IsAgreement q
  unfolding accept_exchange_proposal matches_inputs assert_matchable_listings
      assert_proposal_participants assert_proposal_creator
  accept-IsAgreement p q member h = record {
    status = ground arith;
    apart = ground arith;
    consent = ground arith;
    offer_owner = ground arith;
    request_owner = ground arith;
    offer_community = ground arith;
    request_community = ground arith;
    offer_published = ground arith;
    request_published = ground arith;
    amount = ground arith;
    within_offer = ground arith;
    within_request = ground arith;
  }

  abbrev opened : String → String → Number → ExchangeProposal
  opened id creator minutes = record {
    id = id;
    community_id = offered.community_id;
    offer_id = offered.id;
    request_id = requested.id;
    provider_member_id = provider.id;
    receiver_member_id = recipient.id;
    creator_member_id = creator;
    accepted_by_member_id = none;
    minutes = minutes;
    status = proposed;
  }

  -- The checks of a proposal, which acceptance repeats.
  checks_of_propose :
      (id creator : String) (minutes : Number) (p : ExchangeProposal)
      → propose_exchange id offered requested provider recipient creator minutes ≡ ok p
      → (assert_matchable_listings offered requested minutes ≡ ok tt)
        × (assert_proposal_participants offered requested provider recipient ≡ ok tt)
        × (assert_proposal_creator creator provider.id recipient.id ≡ ok tt)
        × (p ≡ opened id creator minutes)
  unfolding propose_exchange
  checks_of_propose id creator minutes p h = ground arith

  matches-opened :
      (id creator : String) (minutes : Number)
      → matches_inputs (opened id creator minutes) offered requested provider recipient ≡ true
  unfolding matches_inputs
  matches-opened id creator minutes = ground arith

  -- A proposal that `proposeExchange` returned is accepted, over the same listings and profiles, by
  -- the participant who did not create it, and by nobody else.
  pub accept-propose :
      (id creator member : String) (minutes : Number) (p : ExchangeProposal)
      → propose_exchange id offered requested provider recipient creator minutes ≡ ok p
      → accept_exchange_proposal p offered requested provider recipient member ≡ (
          if member == (if creator == provider.id then recipient.id else provider.id)
          then ok (record p { status = accepted; accepted_by_member_id = some member })
          else err (domain not_other_participant))
  unfolding accept_exchange_proposal
  accept-propose id creator member minutes p h =
      let (matchable, participants, by, same) = checks_of_propose id creator minutes p h in
      rw (same, matches-opened id creator minutes, matchable, participants, by) (ground arith)
