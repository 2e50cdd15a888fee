-- ===== src/Peers/Roster.antt =====
-- The parser of the roster of a community node in packages/peer-runtime/src/index.ts.
use peer_hours.Prelude.{
  ℕ, ltb, Bool, not, String, Option, none, some, List, [], length, map, if◌then◌else◌, Result, ok,
  err, throw_if, ◌>>=◌, ◌>>◌, runtime, bad_field, duplicate,
}
use peer_hours.Script.Text.{utf16_length}
use peer_hours.Records.Json.{Json, text, field}
use peer_hours.Records.Timebank.{reads}
use peer_hours.Peers.Manifest.{
  as_json_record, required_nonblank_string, as_array, each, has_duplicates,
}

abbrev pub max_community_diagnostic_peers : ℕ
max_community_diagnostic_peers = 256

-- The roster of a community node.
pub data PeerLifecycleState : Type 0 where
  discovered connecting connected stale offline : PeerLifecycleState

pub data PeerSource : Type 0 where
  hyperswarm simulated : PeerSource

pub record PeerStatus : Type 0 where
  pub id : String
  pub connected_at : String
  pub last_seen_at : String
  pub lifecycle_state : PeerLifecycleState
  pub source : Option PeerSource

unfoldable pub read_lifecycle_state : Option Json → Result PeerLifecycleState
read_lifecycle_state value =
    if reads value "discovered"
    then ok discovered
    else if reads value "connecting"
    then ok connecting
    else if reads value "connected"
    then ok connected
    else if reads value "stale"
    then ok stale
    else if reads value "offline"
    then ok offline
    else err (runtime (bad_field "lifecycleState"))

unfoldable pub read_source : Option Json → Result (Option PeerSource)
read_source none = ok none
read_source value =
    if reads value "hyperswarm"
    then ok (some hyperswarm)
    else if reads value "simulated"
    then ok (some simulated)
    else err (runtime (bad_field "source"))

-- `is_canonical` says that a text is the ISO text of the date that the runtime parses from it.
module _ (is_canonical : String → Bool) where
  unfoldable pub canonical_timestamp : Option Json → String → Result String
  canonical_timestamp (some (text value)) name = do
    throw_if (not (is_canonical value)) (runtime (bad_field name))
    ok value
  canonical_timestamp _ name = err (runtime (bad_field name))

  unfoldable pub parse_community_peer : Json → Result PeerStatus
  parse_community_peer input = do
    value ← as_json_record input
    id ← required_nonblank_string value "id"
    throw_if (ltb 256 (utf16_length id)) (runtime (bad_field "id"))
    connected_at ← canonical_timestamp (field value "connectedAt") "connectedAt"
    last_seen_at ← canonical_timestamp (field value "lastSeenAt") "lastSeenAt"
    lifecycle_state ← read_lifecycle_state (field value "lifecycleState")
    source ← read_source (field value "source")
    ok (record {
      id = id;
      connected_at = connected_at;
      last_seen_at = last_seen_at;
      lifecycle_state = lifecycle_state;
      source = source;
    })

  -- The roster of an array.
  abbrev pub peers_of : Option Json → Result (List PeerStatus)
  peers_of value = do
    values ← as_array value "peers"
    throw_if (ltb max_community_diagnostic_peers (length values)) (runtime (bad_field "peers"))
    peers ← each parse_community_peer values
    throw_if (has_duplicates (map (λ p. p.id) peers)) (runtime (duplicate "peers"))
    ok peers

  unfoldable pub parse_community_peer_roster : Json → Result (List PeerStatus)
  parse_community_peer_roster input = do
    payload ← as_json_record input
    elim (field payload "peers") [ none ↦ ok [] | some value ↦ peers_of (some value) ]
