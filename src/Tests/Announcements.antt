-- ===== src/Tests/Announcements.antt =====
-- A runtime that receives the announcement of a feed.
use Prim.Native.String.{count, ◌++◌}
use peer_hours.Identity.Owned.{
  create_announcement, canonical_announcement_payload, MemberFeedAnnouncement, announcement_schema,
}
use peer_hours.Peers.Announcements.{
  remember_member_feed_announcement, receive_checked, receive_member_feed_announcement,
  known_member_feeds, feed_view,
}
use peer_hours.Prelude.{String, true, [], ◌∷◌, ◌≡◌, refl, ap, ℤ, pos, Occurs, ◌↔◌, arith}
use peer_hours.Script.Collation.{length_collation}
use peer_hours.Peers.State.{PeerRuntime}
use peer_hours.Peers.Announcements.Listed.{Announced, known_member_feeds_iff}
use peer_hours.Script.Map.{values}
use peer_hours.Peers.Announcements.Cached.{
  Announces, HasCache, started, received, Announces-HasCache,
}
use peer_hours.Tests.Records.{declares, zeros, test_runtime, root_signs, declared}
use peer_hours.Tests.Peers.{idle}

abbrev moment : String → ℤ
moment s = pos (count s)

abbrev announced : MemberFeedAnnouncement
announced = record {
  schema = announcement_schema;
  terms = record { declaration = declares zeros; announced_at = "2026"; expires_at = "2026-02" };
  signature = "root";
}

abbrev cached : PeerRuntime
cached = record idle {
  discovered_member_feed_announcements = ("c\0phm_root\0" ++ zeros, announced) ∷ [];
}

informed_caches :
    receive_member_feed_announcement moment (pos 5) test_runtime root_signs idle announced
    ≡ (cached, true)
unfolding declared receive_member_feed_announcement canonical_announcement_payload
    create_announcement receive_checked remember_member_feed_announcement
informed_caches = refl

nothing_cached : HasCache moment test_runtime root_signs idle
nothing_cached = record { few = omega arith; keyed = tt; unique = tt; genuine = tt }

reaches_cached : Announces moment test_runtime root_signs idle cached
reaches_cached = received cached (pos 5) announced started (ap (λ q. q.0) informed_caches)

Announces-HasCache_example : HasCache moment test_runtime root_signs cached
Announces-HasCache_example =
    Announces-HasCache moment test_runtime root_signs {s = idle} {t = cached} nothing_cached
      reaches_cached

known_member_feeds_iff_example :
    Occurs (feed_view announced) (known_member_feeds moment (pos 5) length_collation cached).1 ↔ (
      (a : MemberFeedAnnouncement) × Occurs a (values cached.discovered_member_feed_announcements)
      × Announced moment test_runtime root_signs (pos 5) length_collation (feed_view announced) a)
known_member_feeds_iff_example =
    known_member_feeds_iff moment test_runtime root_signs (pos 5) length_collation {s = idle}
      {t = cached} (feed_view announced) nothing_cached reaches_cached
