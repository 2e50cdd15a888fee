-- ===== src/Tests/Domain.antt =====
-- Listings and proposals of two members.
use peer_hours.Prelude.{
  ◌≡◌, refl, none, some, ok, err, domain, pos, not_other_participant, ◌==◌, text_equality,
  if◌then◌else◌, String-discrete, ℤ-discrete,
}
use peer_hours.Script.Text.{is_blank, utf16_length}
use peer_hours.Script.Number.{whole, is_bad_amount, less}
use peer_hours.Domain.Types.{
  MemberProfile, Listing, ListingKind, published, closed, ExchangeProposal, CreateListingInput,
  proposed, accepted,
}
use peer_hours.Domain.Listings.{create_listing, publish_listing, close_listing}
use peer_hours.Domain.Listings.Creation.{drafted}
use peer_hours.Domain.Listings.Lifecycle.{
  Run, stay, next, publish, close, steps, stage, SameTerms, Run_from_creation,
}
use peer_hours.Domain.Proposals.{
  propose_exchange, accept_exchange_proposal, matches_inputs, assert_matchable_listings,
  assert_proposal_participants, assert_proposal_creator,
}
use peer_hours.Domain.Proposals.Agreement.{IsAgreement, accept-IsAgreement, accept-propose}

opened : Unit {0}
unfolding create_listing publish_listing close_listing is_blank utf16_length is_bad_amount less
    propose_exchange accept_exchange_proposal matches_inputs assert_matchable_listings
    assert_proposal_participants assert_proposal_creator String-discrete
opened = tt

abbrev ann : MemberProfile
ann = record { id = "ann"; community_id = "c"; display_name = "Ann" }

abbrev bob : MemberProfile
bob = record { id = "bob"; community_id = "c"; display_name = "Bob" }

abbrev garden : CreateListingInput
garden = record {
  id = "o";
  community_id = "c";
  member_id = "ann";
  title = "Garden";
  description = "Weeding";
  minutes = whole (pos 90);
}

abbrev offered : Listing
offered = record (drafted ListingKind.offer garden) { status = published }

abbrev requested : Listing
requested = record offered { id = "r"; member_id = "bob"; kind = ListingKind.request }

abbrev over : Listing
over = record offered { status = closed }

created : create_listing ListingKind.offer garden ≡ ok (drafted ListingKind.offer garden)
unfolding opened
created = refl

published_by_ann : publish_listing (drafted ListingKind.offer garden) ann ≡ ok offered
unfolding opened
published_by_ann = refl

closed_by_ann : close_listing offered ann ≡ ok over
unfolding opened
closed_by_ann = refl

abbrev life : Run (drafted ListingKind.offer garden) over
life = next (next stay (publish ann published_by_ann)) (close ann closed_by_ann)

Run_from_creation_example :
    SameTerms (drafted ListingKind.offer garden) over × (stage over.status ≡ steps life)
Run_from_creation_example =
    Run_from_creation ListingKind.offer garden (drafted ListingKind.offer garden) over life created

abbrev swap : ExchangeProposal
swap = record {
  id = "p";
  community_id = "c";
  offer_id = "o";
  request_id = "r";
  provider_member_id = "ann";
  receiver_member_id = "bob";
  creator_member_id = "bob";
  accepted_by_member_id = none;
  minutes = whole (pos 60);
  status = proposed;
}

swap_proposed : propose_exchange "p" offered requested ann bob "bob" (whole (pos 60)) ≡ ok swap
unfolding opened
swap_proposed = refl

abbrev agreed : ExchangeProposal
agreed = record swap { accepted_by_member_id = some "ann"; status = accepted }

swap_accepted : accept_exchange_proposal swap offered requested ann bob "ann" ≡ ok agreed
unfolding opened
swap_accepted = refl

accept-IsAgreement_example : IsAgreement offered requested ann bob agreed
accept-IsAgreement_example =
    accept-IsAgreement offered requested ann bob swap agreed "ann" swap_accepted

accept-propose_example : accept_exchange_proposal swap offered requested ann bob "bob" ≡ (
    if "bob" == (if "bob" == ann.id then bob.id else ann.id)
    then ok (record swap { status = accepted; accepted_by_member_id = some "bob" })
    else err (domain not_other_participant))
accept-propose_example =
    accept-propose offered requested ann bob "p" "bob" "bob" (whole (pos 60)) swap swap_proposed
