-- ===== src/Domain/Listings.antt =====
-- Profiles and listings of packages/timebank-domain/src/index.ts.
pub mod Lifecycle
pub mod Creation
use peer_hours.Prelude.{
  Bool, true, ◌||◌, String, ltb, ◌!=◌, text_equality, Result, ok, throw_if, ◌>>=◌, ◌>>◌, DomainRule,
  domain, required, bad_minutes, bad_description, only_drafts, only_published, not_owner,
}
use peer_hours.Script.Text.{is_blank, utf16_length}
use peer_hours.Script.Number.{Number, is_bad_amount}
use peer_hours.Domain.Types.{
  MemberProfile, Listing, ListingKind, offer, request, draft, published, closed, CreateListingInput,
  ListingStatus-discrete,
}

unfoldable pub assert_present : String → String → Result (Unit {0})
assert_present value label = throw_if (is_blank value) (domain (DomainRule.required label))

unfoldable pub assert_positive_whole_minutes : Number → Result (Unit {0})
assert_positive_whole_minutes minutes =
    throw_if (is_bad_amount minutes) (domain DomainRule.bad_minutes)

unfoldable pub assert_listing_description : String → Result (Unit {0})
assert_listing_description value =
    throw_if (is_blank value || ltb 12000 (utf16_length value)) (domain bad_description)

unfoldable pub assert_listing_owner : Listing → MemberProfile → Result (Unit {0})
assert_listing_owner listing owner =
    throw_if (owner.id != listing.member_id || owner.community_id != listing.community_id)
      (domain not_owner)

unfoldable pub create_member_profile : MemberProfile → Result MemberProfile
unfolding assert_present
create_member_profile input = do
  assert_present input.id "Member id"
  assert_present input.community_id "Community id"
  assert_present input.display_name "Member display name"
  ok input

unfoldable pub create_listing : ListingKind → CreateListingInput → Result Listing
unfolding assert_present assert_listing_description assert_positive_whole_minutes
create_listing kind input = do
  assert_present input.id "Listing id"
  assert_present input.community_id "Community id"
  assert_present input.member_id "Member id"
  assert_present input.title "Listing title"
  assert_listing_description input.description
  assert_positive_whole_minutes input.minutes
  ok (record {
    id = input.id;
    community_id = input.community_id;
    member_id = input.member_id;
    kind = kind;
    title = input.title;
    description = input.description;
    minutes = input.minutes;
    status = draft;
  })

unfoldable pub create_offer : CreateListingInput → Result Listing
unfolding create_listing
create_offer input = create_listing offer input

unfoldable pub create_request : CreateListingInput → Result Listing
unfolding create_listing
create_request input = create_listing request input

unfoldable pub publish_listing : Listing → MemberProfile → Result Listing
unfolding assert_listing_owner ListingStatus-discrete
publish_listing listing owner = do
  throw_if (listing.status != draft) (domain only_drafts)
  assert_listing_owner listing owner
  ok (record listing { status = published })

unfoldable pub close_listing : Listing → MemberProfile → Result Listing
unfolding assert_listing_owner ListingStatus-discrete
close_listing listing owner = do
  throw_if (listing.status != published) (domain only_published)
  assert_listing_owner listing owner
  ok (record listing { status = closed })
