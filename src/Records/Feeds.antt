-- ===== src/Records/Feeds.antt =====
-- The feeds that records come from: packages/timebank-records/src/feed-resolution.ts. The records
-- of a history are any JSON values.
pub mod Declared
pub mod Collected
pub mod Provenance
use peer_hours.Prelude.{
  Bool, false, true, not, ◌||◌, ◌&&◌, String, Option, none, some, List, [], ◌∷◌, ◌++◌, contains,
  ◌!=◌, text_equality, if◌then◌else◌, Result, ok, err, throw_if, ◌>>=◌, ◌>>◌, feed, FeedRule,
  shared_feed_key, undeclared_feed, not_envelope,
}
use peer_hours.Script.Map.{Map, get, set}
use peer_hours.Script.Hex.{is_hex_key, to_lower_case}
use peer_hours.Identity.Owned.{MemberFeedDeclaration}
use peer_hours.Records.Json.{Json, text, object, Members, field}
use peer_hours.Records.Timebank.{reads}
use peer_hours.Records.Timebank.Listings.{published_listing_record_kind}
use peer_hours.Records.Timebank.Proposals.{
  accepted_proposal_record_kind, proposed_proposal_record_kind,
}
use peer_hours.Records.Timebank.Transfers.{ledger_transfer_record_kind}
use peer_hours.Records.Timebank.Settlements.{
  settlement_acknowledgement_record_kind, settlement_attestation_record_kind,
}
use peer_hours.Records.Declarations.{member_feed_declaration_record_kind, declaration_from_record}
use peer_hours.Records.KeyLifecycles.{
  root_signed_key_activation_record_kind, root_signed_key_revocation_record_kind,
}
use peer_hours.Records.Resolve.{Runtime, ResolvedTimebankState, listed}
use peer_hours.Records.Resolve.State.{resolve_timebank_records}

pub record MemberFeedHistory : Type 0 where
  pub feed_public_key : String
  pub records : List Json

-- The interface lists the same fields again.
abbrev pub FeedResolvedTimebankState : Type 0
FeedResolvedTimebankState = ResolvedTimebankState

-- `keysByMember` and `membersByFeedKey`
pub record DeclaredFeeds : Type 0 where
  pub keys_by_member : Map (List String)
  pub members_by_feed_key : Map String

abbrev pub no_feeds : DeclaredFeeds
no_feeds = record { keys_by_member = []; members_by_feed_key = [] }

unfoldable pub is_member_authored_record : Members → Bool
is_member_authored_record r =
    reads (field r "kind") root_signed_key_activation_record_kind
    || reads (field r "kind") root_signed_key_revocation_record_kind
    || reads (field r "kind") published_listing_record_kind
    || reads (field r "kind") proposed_proposal_record_kind
    || reads (field r "kind") accepted_proposal_record_kind
    || reads (field r "kind") settlement_acknowledgement_record_kind
    || reads (field r "kind") settlement_attestation_record_kind
    || reads (field r "kind") ledger_transfer_record_kind

unfoldable pub assert_feed_public_key : String → Result (Unit {0})
assert_feed_public_key value = throw_if (not (is_hex_key value)) (feed FeedRule.bad_feed_key)

unfoldable pub assert_record_like : Json → Result Members
assert_record_like (object r) = ok r
assert_record_like _ = err (feed not_envelope)

-- A record's own community, as a declaration that it is to declare a feed with.
abbrev pub declares_feed : String → Members → Bool
declares_feed community r =
    reads (field r "communityId") community
    && reads (field r "kind") member_feed_declaration_record_kind

abbrev pub taken_by_other : DeclaredFeeds → String → String → Bool
taken_by_other feeds key member = elim (get feeds.members_by_feed_key key) [
  | none ↦ false
  | some declared ↦ declared != member
]

-- The feed key of a declaration, set for its member in both maps.
abbrev pub with_feed : DeclaredFeeds → MemberFeedDeclaration → DeclaredFeeds
with_feed feeds d =
    let key = to_lower_case d.feed_public_key in
    record {
      keys_by_member =
          set feeds.keys_by_member d.member_id (key ∷ listed feeds.keys_by_member d.member_id);
      members_by_feed_key = set feeds.members_by_feed_key key d.member_id;
    }

-- The body of the inner loop, from the declaration on.
unfoldable pub declare_feed : DeclaredFeeds → MemberFeedDeclaration → Result DeclaredFeeds
declare_feed feeds d = do
  throw_if (taken_by_other feeds (to_lower_case d.feed_public_key) d.member_id)
      (feed shared_feed_key)
  ok (with_feed feeds d)

-- `declaredKeys === undefined || !declaredKeys.has(sourceFeedPublicKey)`, of a record's author.
abbrev pub undeclared_author : DeclaredFeeds → String → Option Json → Bool
undeclared_author feeds source (some (text author)) =
    not (contains (listed feeds.keys_by_member author) source)
undeclared_author feeds source _ = true

abbrev pub arrives_undeclared : DeclaredFeeds → String → Members → Bool
arrives_undeclared feeds source r = undeclared_author feeds source (field r "authorId")

-- A record that has to come from a feed of its author's.
abbrev pub is_bound : String → Members → Bool
is_bound community r = reads (field r "communityId") community && is_member_authored_record r

-- The inner loop of `resolveTimebankMemberFeeds`.
unfoldable pub collect_records : DeclaredFeeds → String → String → List Json → Result (List Members)
collect_records feeds community source [] = ok []
collect_records feeds community source (j ∷ records) = do
  r ← assert_record_like j
  throw_if (is_bound community r && arrives_undeclared feeds source r) (feed undeclared_feed)
  rest ← collect_records feeds community source records
  ok (r ∷ rest)

unfoldable pub collect_histories :
    DeclaredFeeds → String → List MemberFeedHistory → Result (List Members)
unfolding assert_feed_public_key
collect_histories feeds community [] = ok []
collect_histories feeds community (h ∷ histories) = do
  assert_feed_public_key h.feed_public_key
  records ← collect_records feeds community (to_lower_case h.feed_public_key) h.records
  rest ← collect_histories feeds community histories
  ok (records ++ rest)

module _ (rt : Runtime) where
  abbrev pub read_declaration_record : Members → Result MemberFeedDeclaration
  read_declaration_record =
      declaration_from_record rt.fingerprint rt.is_canonical rt.hash rt.is_signature
        rt.verify_declaration

  -- The body of the inner loop of `declaredFeedKeysByMember`, and the loop.
  unfoldable pub declare_record : String → DeclaredFeeds → Members → Result DeclaredFeeds
  declare_record community feeds r =
      if declares_feed community r
      then (do d ← read_declaration_record r; declare_feed feeds d)
      else ok feeds

  unfoldable pub declare_records : String → DeclaredFeeds → List Json → Result DeclaredFeeds
  declare_records community feeds [] = ok feeds
  declare_records community feeds (j ∷ records) = do
    r ← assert_record_like j
    next ← declare_record community feeds r
    declare_records community next records

  unfoldable pub declared_feed_keys_by_member :
      String → DeclaredFeeds → List MemberFeedHistory → Result DeclaredFeeds
  unfolding assert_feed_public_key
  declared_feed_keys_by_member community feeds [] = ok feeds
  declared_feed_keys_by_member community feeds (h ∷ histories) = do
    assert_feed_public_key h.feed_public_key
    next ← declare_records community feeds h.records
    declared_feed_keys_by_member community next histories

  unfoldable pub resolve_timebank_member_feeds :
      String → List MemberFeedHistory → Result FeedResolvedTimebankState
  resolve_timebank_member_feeds community histories = do
    feeds ← declared_feed_keys_by_member community no_feeds histories
    records ← collect_histories feeds community histories
    resolve_timebank_records rt community records
