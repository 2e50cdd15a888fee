-- ===== src/Peers/State.antt =====
-- The state of a `PeerRuntime` of packages/peer-runtime/src/index.ts that its bootstrap metadata
-- and its feed announcements are kept in. Endpoints, clocks and messages are arguments of the
-- operations.
use peer_hours.Prelude.{ℕ, Bool, String, Option, List, Error}
use peer_hours.Script.Map.{Map}
use peer_hours.Identity.Owned.{MemberFeedAnnouncement}
use peer_hours.Peers.Manifest.{CommunityManifest}
use peer_hours.Peers.Roster.{PeerStatus}

pub data BootstrapState : Type 0 where
  not_configured fetching fetched failed : BootstrapState

pub record PeerRuntime : Type 0 where
  pub bootstrap_key : Option String
  pub bootstrap_urls : List String
  pub active_bootstrap_url : Option String
  pub bootstrap_state : BootstrapState
  pub bootstrap_last_fetched_at : Option String
  pub bootstrap_consecutive_failures : ℕ
  -- The endpoints that failed, with their errors; the source joins their texts.
  pub bootstrap_last_error : Option (List (String × Error))
  pub community : Option CommunityManifest
  pub community_peers : List PeerStatus
  -- The public key of the local member feed, where there is one.
  pub member_record_feed : Option String
  pub discovered_member_feed_announcements : Map MemberFeedAnnouncement
  -- Whether the announcement extension is registered.
  pub is_registered : Bool
