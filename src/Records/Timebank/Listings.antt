-- ===== src/Records/Timebank/Listings.antt =====
-- Records of published and of closed listings.
pub mod Lossless
use Prim.Native.String.{◌++◌}
use peer_hours.Prelude.{
  Bool, not, ◌||◌, String, none, some, List, ◌==◌, ◌!=◌, text_equality, String-discrete, Result, ok,
  throw_if, ◌>>=◌, ◌>>◌, mapping, not_listing_kind, not_published, not_closing_id, wrong_author,
  if◌then◌else◌, err,
}
use peer_hours.Script.Number.{Number-discrete}
use peer_hours.Script.Collation.{Collation}
use peer_hours.Domain.Types.{
  Listing, ListingKind, offer, request, ListingStatus, draft, published, closed,
  ListingKind-discrete, ListingStatus-discrete,
}
use peer_hours.Records.Json.{Json, text, number, Members, end, member, field}
use peer_hours.Records.Envelope.{RecordEnvelope}
use peer_hours.Records.Timebank.{
  CreateTimebankRecordMetadata, RecordForm, assert_text, assert_minutes, as_object, reads,
  timebank_record, to_record, decode_record, reduce_records,
}

pub record ClosedListing : Type 0 where
  pub id : String
  pub community_id : String
  pub listing_id : String
  pub member_id : String

instance unfoldable pub Listing-discrete : Discrete Listing
unfolding String-discrete Number-discrete ListingKind-discrete ListingStatus-discrete
Listing-discrete =
    hlevel (String-discrete, Number-discrete, ListingKind-discrete, ListingStatus-discrete)

instance unfoldable pub ClosedListing-discrete : Discrete ClosedListing
unfolding String-discrete
ClosedListing-discrete = hlevel String-discrete

abbrev pub published_listing_record_kind : String
published_listing_record_kind = "peer-hours/published-listing/v1"

abbrev pub closed_listing_record_kind : String
closed_listing_record_kind = "peer-hours/closed-listing/v1"

abbrev pub kind_text : ListingKind → String
kind_text offer = "offer"
kind_text request = "request"

abbrev pub status_text : ListingStatus → String
status_text draft = "draft"
status_text published = "published"
status_text closed = "closed"

unfoldable pub listing_view : Listing → Members
listing_view l = member "communityId" (text l.community_id) (
    member "description" (text l.description) (
      member "id" (text l.id) (
        member "kind" (text (kind_text l.kind)) (
          member "memberId" (text l.member_id) (
            member "minutes" (number l.minutes) (
              member "status" (text (status_text l.status))
                (member "title" (text l.title) end)))))))

unfoldable pub closure_view : ClosedListing → Members
closure_view l = member "communityId" (text l.community_id) (
    member "id" (text l.id)
      (member "listingId" (text l.listing_id) (member "memberId" (text l.member_id) end)))

unfoldable pub listing_kind : Members → Result ListingKind
listing_kind listing =
    if reads (field listing "kind") "offer"
    then ok offer
    else if reads (field listing "kind") "request"
    then ok request
    else err (mapping (not_listing_kind "published listing"))

unfoldable pub normalize_published_listing : Json → Result Listing
unfolding assert_text assert_minutes listing_kind
normalize_published_listing value = do
  listing ← as_object value "published listing"
  id ← assert_text (field listing "id") "Listing id"
  community ← assert_text (field listing "communityId") "Listing community id"
  owner ← assert_text (field listing "memberId") "Listing member id"
  title ← assert_text (field listing "title") "Listing title"
  description ← assert_text (field listing "description") "Listing description"
  minutes ← assert_minutes (field listing "minutes") "Listing minutes"
  kind ← listing_kind listing
  throw_if (not (reads (field listing "status") "published"))
      (mapping (not_published "published listing"))
  ok (record {
    id = id;
    community_id = community;
    member_id = owner;
    kind = kind;
    title = title;
    description = description;
    minutes = minutes;
    status = published;
  })

abbrev pub closed_listing_record_id : String → String
closed_listing_record_id listing = listing ++ "/closed"

unfoldable pub normalize_closed_listing : Json → Result ClosedListing
unfolding assert_text
normalize_closed_listing value = do
  closure ← as_object value "closed listing"
  id ← assert_text (field closure "id") "Closed listing id"
  community ← assert_text (field closure "communityId") "Closed listing community id"
  listing ← assert_text (field closure "listingId") "Closed listing target id"
  owner ← assert_text (field closure "memberId") "Closed listing member id"
  throw_if (id != closed_listing_record_id listing) (mapping (not_closing_id "closed listing"))
  ok (record { id = id; community_id = community; listing_id = listing; member_id = owner })

abbrev pub owns_listing : Listing → String → Bool
owns_listing l author = author == l.member_id

abbrev pub owns_closure : ClosedListing → String → Bool
owns_closure l author = author == l.member_id

abbrev pub published_listing_form : RecordForm Listing
published_listing_form = record {
  kind = published_listing_record_kind;
  label = "published listing";
  view = listing_view;
  normalize = normalize_published_listing;
  record_id = λ l. l.id;
  community_of = λ l. l.community_id;
  may_submit = owns_listing;
}

abbrev pub closed_listing_form : RecordForm ClosedListing
closed_listing_form = record {
  kind = closed_listing_record_kind;
  label = "closed listing";
  view = closure_view;
  normalize = normalize_closed_listing;
  record_id = λ l. l.id;
  community_of = λ l. l.community_id;
  may_submit = owns_closure;
}

-- The closure that a listing's owner publishes.
abbrev pub closure_of : Listing → ClosedListing
closure_of l = record {
  id = closed_listing_record_id l.id;
  community_id = l.community_id;
  listing_id = l.id;
  member_id = l.member_id;
}

module _ (is_canonical : String → Bool) where
  unfoldable pub to_published_listing_record :
      Listing → CreateTimebankRecordMetadata → Result RecordEnvelope
  to_published_listing_record = to_record is_canonical published_listing_form owns_listing

  unfoldable pub decode_published_listing_record : Json → Result Listing
  decode_published_listing_record = decode_record is_canonical published_listing_form

  unfoldable pub to_closed_listing_record :
      Listing → CreateTimebankRecordMetadata → Result RecordEnvelope
  unfolding timebank_record
  to_closed_listing_record listing metadata = do
    normalized ← normalize_published_listing (Json.object (listing_view listing))
    throw_if (metadata.author_id != normalized.member_id) (mapping (wrong_author "closed listing"))
    let closure = closure_of normalized
    timebank_record is_canonical closure.id closure.community_id closed_listing_record_kind
        (closure_view closure) metadata

  unfoldable pub decode_closed_listing_record : Json → Result ClosedListing
  decode_closed_listing_record = decode_record is_canonical closed_listing_form

  module _ (c : Collation) where
    unfoldable pub reduce_published_listing_records : List Json → String → Result (List Listing)
    reduce_published_listing_records =
        reduce_records is_canonical published_listing_form c (λ l. l.id)

    unfoldable pub reduce_closed_listing_records : List Json → String → Result (List ClosedListing)
    reduce_closed_listing_records = reduce_records is_canonical closed_listing_form c (λ l. l.id)
