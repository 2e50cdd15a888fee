-- ===== src/Peers/Announcements.antt =====
-- The announcements of member feeds that a runtime caches and relays, in
-- packages/peer-runtime/src/index.ts. An operation returns what it broadcasts.
pub mod Pruned
pub mod Cached
pub mod Listed
use Prim.Native.String.{◌++◌}
use peer_hours.Prelude.{
  ℕ, leb, Bool, true, false, not, ◌&&◌, ◌||◌, String, String-discrete, Option, none, some, List, [],
  ◌∷◌, length, map, ◌==◌, ◌!=◌, text_equality, if◌then◌else◌, ℤ, ltb_ℤ, Result, ok, err, throw_if,
  ◌>>=◌, ◌>>◌, runtime, no_member_feed, foreign_feed, expired,
}
use peer_hours.Script.Map.{Map, get, set, values}
use peer_hours.Script.Sort.{sort}
use peer_hours.Script.Collation.{Collation, is_negative}
use peer_hours.Identity.Events.{key_for, or_else}
use peer_hours.Identity.Owned.{MemberFeedAnnouncement, AnnouncementTerms, create_announcement}
use peer_hours.Records.Resolve.{Runtime}
use peer_hours.Peers.State.{PeerRuntime}

abbrev pub max_discovered_member_feeds : ℕ
max_discovered_member_feeds = 1024

pub record DiscoveredMemberFeed : Type 0 where
  pub community_id : String
  pub member_id : String
  pub feed_public_key : String
  pub expires_at : String

-- The comparison of the JSON texts of two announcements.
instance unfoldable pub Announcement-discrete : Discrete MemberFeedAnnouncement
unfolding String-discrete
Announcement-discrete = hlevel String-discrete

abbrev pub announcement_key : MemberFeedAnnouncement → String
announcement_key a =
    key_for a.declaration.community_id a.declaration.member_id a.declaration.feed_public_key

abbrev pub is_same : Option MemberFeedAnnouncement → MemberFeedAnnouncement → Bool
is_same none a = false
is_same (some existing) a = existing == a

abbrev pub is_new : Option MemberFeedAnnouncement → Bool
is_new none = true
is_new (some _) = false

unfoldable pub remember_member_feed_announcement :
    PeerRuntime → MemberFeedAnnouncement → PeerRuntime × Bool
unfolding Announcement-discrete
remember_member_feed_announcement s a =
    let cache = s.discovered_member_feed_announcements in
    let existing = get cache (announcement_key a) in
    if is_same existing a || is_new existing && leb max_discovered_member_feeds (length cache)
    then (s, false)
    else (
      record s { discovered_member_feed_announcements = set cache (announcement_key a) a },
      true,
    )

abbrev pub feed_view : MemberFeedAnnouncement → DiscoveredMemberFeed
feed_view a = record {
  community_id = a.declaration.community_id;
  member_id = a.declaration.member_id;
  feed_public_key = a.declaration.feed_public_key;
  expires_at = a.expires_at;
}

abbrev pub feed_order : Collation → DiscoveredMemberFeed → DiscoveredMemberFeed → Bool
feed_order c left right = is_negative (
    or_else (c.locale_compare left.community_id right.community_id) (
      or_else (c.locale_compare left.member_id right.member_id)
        (c.locale_compare left.feed_public_key right.feed_public_key)))

-- The test of the announced feed against the runtime's own.
abbrev pub assert_own_feed : Option String → String → Result (Unit {0})
assert_own_feed none feed = err (runtime no_member_feed)
assert_own_feed (some own) feed = throw_if (feed != own) (runtime foreign_feed)

module _ (parse_date : String → ℤ) (rt : Runtime)
    (verify_announcement : AnnouncementTerms → String → String → Result Bool) where
  abbrev pub checked_announcement : MemberFeedAnnouncement → Result MemberFeedAnnouncement
  checked_announcement =
      create_announcement rt.fingerprint rt.is_canonical rt.hash rt.is_signature
        rt.verify_declaration parse_date verify_announcement

-- What the runtime's clock and `Date.parse` say.
module _ (parse_date : String → ℤ) (now : ℤ) where
  abbrev pub is_expired_member_feed_announcement : MemberFeedAnnouncement → Bool
  is_expired_member_feed_announcement a = not (ltb_ℤ now (parse_date a.expires_at))

  -- The loop that deletes what is expired.
  unfoldable pub prune : Map MemberFeedAnnouncement → Map MemberFeedAnnouncement
  prune [] = []
  prune ((key, a) ∷ cache) =
      let rest = prune cache in
      if is_expired_member_feed_announcement a then rest else (key, a) ∷ rest

  unfoldable pub prune_expired_member_feed_announcements : PeerRuntime → PeerRuntime
  prune_expired_member_feed_announcements s = record s {
    discovered_member_feed_announcements = prune s.discovered_member_feed_announcements;
  }

  unfoldable pub broadcast_member_feed_announcements :
      PeerRuntime → PeerRuntime × List MemberFeedAnnouncement
  unfolding prune_expired_member_feed_announcements
  broadcast_member_feed_announcements s =
      let t = prune_expired_member_feed_announcements s in
      (t, if t.is_registered then values t.discovered_member_feed_announcements else [])

  unfoldable pub known_member_feeds :
      Collation → PeerRuntime → PeerRuntime × List DiscoveredMemberFeed
  unfolding prune_expired_member_feed_announcements
  known_member_feeds c s =
      let t = prune_expired_member_feed_announcements s in
      (t, sort (feed_order c) (map feed_view (values t.discovered_member_feed_announcements)))

  module _ (rt : Runtime)
      (verify_announcement : AnnouncementTerms → String → String → Result Bool) where
    unfoldable pub publish_member_feed_announcement :
        PeerRuntime → MemberFeedAnnouncement → Result (PeerRuntime × List MemberFeedAnnouncement)
    unfolding remember_member_feed_announcement broadcast_member_feed_announcements
    publish_member_feed_announcement s announcement = do
      normalized ← checked_announcement parse_date rt verify_announcement announcement
      assert_own_feed s.member_record_feed normalized.declaration.feed_public_key
      throw_if (is_expired_member_feed_announcement normalized) (runtime expired)
      let remembered = remember_member_feed_announcement s normalized
      ok (broadcast_member_feed_announcements remembered.0)

    -- What follows the check of a message that is received.
    unfoldable pub receive_checked :
        PeerRuntime → Result MemberFeedAnnouncement → PeerRuntime × Bool
    receive_checked s (err _) = (s, false)
    receive_checked s (ok announcement) =
        if is_expired_member_feed_announcement announcement
        then (s, false)
        else remember_member_feed_announcement s announcement

    -- `receiveMemberFeedAnnouncement` up to its `await`: the state, and whether it goes on to open
    -- the feed. Where it does and the feed opens, `broadcastMemberFeedAnnouncements` follows.
    unfoldable pub receive_member_feed_announcement :
        PeerRuntime → MemberFeedAnnouncement → PeerRuntime × Bool
    receive_member_feed_announcement s value =
        receive_checked s (checked_announcement parse_date rt verify_announcement value)
