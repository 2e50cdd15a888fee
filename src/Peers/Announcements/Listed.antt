-- ===== src/Peers/Announcements/Listed.antt =====
-- The feeds that a runtime lists: knownMemberFeeds of packages/peer-runtime/src/index.ts.
use Prim.Native.String.{◌++◌}
use peer_hours.Prelude.{
  Bool, false, String, ◌≡◌, sym, ap, ◌↔◌, Occurs, List, map, ℤ, ◌<ℤ◌, Result, arith, All, ◌∷◌, [],
  here, there, Occurs-nil, Occurs-map, map-Occurs,
}
use mathlib.Core.Path.{subst}
use peer_hours.Script.Map.{Map, values}
use peer_hours.Script.Sort.Laws.{sort-Occurs, Occurs-sort}
use peer_hours.Script.Collation.{Collation}
use peer_hours.Identity.Owned.{MemberFeedAnnouncement, AnnouncementTerms}
use peer_hours.Records.Resolve.{Runtime}
use peer_hours.Peers.State.{PeerRuntime}
use peer_hours.Peers.Announcements.{
  DiscoveredMemberFeed, prune, prune_expired_member_feed_announcements, known_member_feeds,
  is_expired_member_feed_announcement, feed_view, feed_order,
}
use peer_hours.Peers.Announcements.Pruned.{Current, prune-Occurs, Occurs-prune}
use peer_hours.Peers.Announcements.Cached.{IsGenuine, HasCache, Announces, Announces-HasCache}

values-All :
    (P : MemberFeedAnnouncement → Type 0) (m : Map MemberFeedAnnouncement)
    (a : MemberFeedAnnouncement)
    → All (λ e. P e.1) m
    → Occurs a (values m)
    → P a
values-All P [] a h o = absurd (Occurs-nil o)
values-All P ((k, b) ∷ m) a (p, h) (here e) = subst P (sym e) p
values-All P ((k, b) ∷ m) a (p, h) (there o) = values-All P m a h o

same_feed :
    (f g : DiscoveredMemberFeed)
    → f.community_id ≡ g.community_id
    → f.member_id ≡ g.member_id
    → f.feed_public_key ≡ g.feed_public_key
    → f.expires_at ≡ g.expires_at
    → f ≡ g
same_feed f g community member feed expiry = λ i. record {
  community_id = community i;
  member_id = member i;
  feed_public_key = feed i;
  expires_at = expiry i;
}

abbrev feed_key : DiscoveredMemberFeed → String
feed_key f = f.community_id ++ ("\0" ++ (f.member_id ++ ("\0" ++ f.feed_public_key)))

module _ (parse_date : String → ℤ) (rt : Runtime)
    (verify_announcement : AnnouncementTerms → String → String → Result Bool) (now : ℤ)
    (c : Collation) where
  abbrev pub listing : PeerRuntime → List DiscoveredMemberFeed
  listing s = (known_member_feeds parse_date now c s).1

  -- A listed feed is that of a current announcement, and the other way about.
  listed_iff :
      (s : PeerRuntime) (f : DiscoveredMemberFeed)
      → Occurs f (listing s) ↔ (
          (a : MemberFeedAnnouncement) × Current parse_date now a
            s.discovered_member_feed_announcements
          × (f ≡ feed_view a))
  unfolding known_member_feeds prune_expired_member_feed_announcements
  listed_iff s f = (
    λ o.
        let m = s.discovered_member_feed_announcements in
        let (a, kept, e) =
          map-Occurs feed_view (values (prune parse_date now m))
            (sort-Occurs (feed_order c) (map feed_view (values (prune parse_date now m))) o) in
        (a, prune-Occurs parse_date now m a kept, e),
    λ (a, current, e). rw e (
        Occurs-sort (feed_order c) (
          Occurs-map feed_view
            (Occurs-prune parse_date now s.discovered_member_feed_announcements a current))),
  )

  -- The feed of an announcement that passed its check and expires later.
  abbrev pub Announced : DiscoveredMemberFeed → MemberFeedAnnouncement → Type 0
  Announced f a =
      IsGenuine parse_date rt verify_announcement a
      × (f.community_id ≡ a.declaration.community_id)
      × (f.member_id ≡ a.declaration.member_id)
      × (f.feed_public_key ≡ a.declaration.feed_public_key)
      × (f.expires_at ≡ a.expires_at)
      × (now <ℤ parse_date a.expires_at)

  current_later :
      (a : MemberFeedAnnouncement)
      → is_expired_member_feed_announcement parse_date now a ≡ false
      → now <ℤ parse_date a.expires_at
  current_later a h = ground arith

  later_current :
      (a : MemberFeedAnnouncement)
      → now <ℤ parse_date a.expires_at
      → is_expired_member_feed_announcement parse_date now a ≡ false
  later_current a h = ground arith

  -- After any sequence of announcements that are published, received, relayed and listed, from a
  -- cache of at most 1024 announcements that each passed their check, each under its own key and
  -- no key twice, a runtime lists just the feeds of the announcements in its cache that expire
  -- after the present time, with the ids and the time of expiry of each; and each of these
  -- announcements has passed its check.
  pub known_member_feeds_iff :
      {s t : PeerRuntime} (f : DiscoveredMemberFeed)
      → HasCache parse_date rt verify_announcement s
      → Announces parse_date rt verify_announcement s t
      → Occurs f (listing t) ↔ (
          (a : MemberFeedAnnouncement) × Occurs a (values t.discovered_member_feed_announcements)
          × Announced f a)
  known_member_feeds_iff {s} {t} f h run = (
    λ o.
        let (a, (kept, current), e) = (listed_iff t f).0 o in
        let cache = Announces-HasCache parse_date rt verify_announcement h run in
        (
          a,
          kept,
          (
            values-All (IsGenuine parse_date rt verify_announcement)
                t.discovered_member_feed_announcements a cache.genuine kept,
            ap (λ (g : DiscoveredMemberFeed). g.community_id) e,
            ap (λ (g : DiscoveredMemberFeed). g.member_id) e,
            ap (λ (g : DiscoveredMemberFeed). g.feed_public_key) e,
            ap (λ (g : DiscoveredMemberFeed). g.expires_at) e,
            current_later a current,
          ),
        ),
    λ (a, kept, (_, community, member, feed, expiry, current)). (listed_iff t f).1 (
      a,
      (kept, later_current a current),
      same_feed f (feed_view a) community member feed expiry,
    ),
  )
