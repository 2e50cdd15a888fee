-- ===== src/Peers/Bootstrap.antt =====
-- How a runtime fetches its community's metadata from redundant endpoints, in
-- packages/peer-runtime/src/index.ts. `respond` is what each endpoint answers, and `now` the ISO
-- text of the time.
pub mod Order
pub mod Attempts
pub mod Answered
pub mod Selected
pub mod Distinct
use peer_hours.Prelude.{
  ◌+◌, Bool, false, not, ◌||◌, String, Option, none, some, List, [], ◌∷◌, ◌++◌, contains, ◌==◌,
  ◌!=◌, text_equality, if◌then◌else◌, Error, Result, ok, err, throw_if, ◌>>=◌, ◌>>◌, runtime,
  incompatible, duplicate,
}
use peer_hours.Records.Json.{Json, text}
use peer_hours.Peers.Receipts.{Platform}
use peer_hours.Peers.Manifest.{
  CommunityManifest, parse_community_manifest, each, valid_operational_url, has_duplicates,
}
use peer_hours.Peers.Roster.{PeerStatus, parse_community_peer_roster}
use peer_hours.Peers.State.{PeerRuntime, fetching, fetched, failed}

-- `given` is the constructor's `bootstrapUrl`: nothing, or one URL or several.
unfoldable pub normalize_bootstrap_urls : Platform → Option (List String) → Result (List String)
normalize_bootstrap_urls pf none = ok []
normalize_bootstrap_urls pf (some given) = do
  urls ← each (λ url. valid_operational_url pf (text url) "bootstrapUrl") given
  throw_if (has_duplicates urls) (runtime (duplicate "bootstrapUrl"))
  ok urls

abbrev pub differs_from_pinned : Option String → CommunityManifest → Bool
differs_from_pinned none candidate = false
differs_from_pinned (some pinned) candidate = candidate.core_key != pinned

abbrev pub differs_from_selected : Option CommunityManifest → CommunityManifest → Bool
differs_from_selected none candidate = false
differs_from_selected (some selected) candidate =
    candidate.community_id != selected.community_id || candidate.core_key != selected.core_key

unfoldable pub require_compatible_community_manifest :
    PeerRuntime → CommunityManifest → Result (Unit {0})
require_compatible_community_manifest s candidate = do
  throw_if (differs_from_pinned s.bootstrap_key candidate) (runtime incompatible)
  throw_if (differs_from_selected s.community candidate) (runtime incompatible)

-- The other endpoints than the active one.
unfoldable pub others : String → List String → List String
others active [] = []
others active (url ∷ urls) =
    let rest = others active urls in if url != active then url ∷ rest else rest

unfoldable pub bootstrap_endpoints_in_retry_order : PeerRuntime → List String
bootstrap_endpoints_in_retry_order s = elim s.active_bootstrap_url [
  | none ↦ s.bootstrap_urls
  | some active ↦ active ∷ others active s.bootstrap_urls
]

-- `if (!urls.includes(endpoint)) urls.push(endpoint)`, for each.
unfoldable pub remember_bootstrap_endpoints : List String → List String → List String
remember_bootstrap_endpoints urls [] = urls
remember_bootstrap_endpoints urls (endpoint ∷ endpoints) =
    remember_bootstrap_endpoints (if contains urls endpoint then urls else urls ++ (endpoint ∷ []))
      endpoints

-- The state once an endpoint has answered with a compatible manifest.
unfoldable pub adopt : PeerRuntime → String → String → CommunityManifest → PeerRuntime
adopt s now endpoint manifest = record s {
  bootstrap_urls = remember_bootstrap_endpoints s.bootstrap_urls manifest.bootstrap_nodes;
  community = some manifest;
  active_bootstrap_url = some endpoint;
  bootstrap_state = fetched;
  bootstrap_last_fetched_at = some now;
  bootstrap_consecutive_failures = 0;
  bootstrap_last_error = none;
}

unfoldable pub give_up : PeerRuntime → List (String × Error) → PeerRuntime
give_up s failures = record s {
  bootstrap_state = failed;
  bootstrap_consecutive_failures = s.bootstrap_consecutive_failures + 1;
  bootstrap_last_error = some failures;
}

module _ (pf : Platform) (respond : String → Result Json) where
  -- The `try` block for one endpoint, up to what it changes.
  unfoldable pub attempt : PeerRuntime → String → Result CommunityManifest
  attempt s endpoint = do
    payload ← respond endpoint
    manifest ← parse_community_manifest pf payload
    require_compatible_community_manifest s manifest
    ok manifest

  module _ (now : String) where
    -- The loop over the endpoints. Where they are the list of URLs itself, what `adopt` adds to
    -- that list comes too late to be tried, since the loop ends there.
    unfoldable pub try_endpoints :
        PeerRuntime → List (String × Error) → List String → PeerRuntime × Option String
    try_endpoints s failures [] = (give_up s failures, none)
    try_endpoints s failures (endpoint ∷ endpoints) = elim (attempt s endpoint) [
      | ok manifest ↦ (adopt s now endpoint manifest, some manifest.core_key)
      | err cause ↦ try_endpoints s (failures ++ ((endpoint, cause) ∷ [])) endpoints
    ]

    -- `if (this.bootstrapUrls.length === 0) return null;`, and what follows.
    unfoldable pub fetch_from : PeerRuntime → List String → PeerRuntime × Option String
    fetch_from s [] = (s, none)
    fetch_from s (_ ∷ _) =
        try_endpoints (record s { bootstrap_state = fetching }) []
          (bootstrap_endpoints_in_retry_order s)

    unfoldable pub fetch_bootstrap_key : PeerRuntime → PeerRuntime × Option String
    unfolding fetch_from
    fetch_bootstrap_key s = fetch_from s s.bootstrap_urls

-- `status_url` is the text of `new URL("status", url)`.
unfoldable pub refresh_community_peers :
    (String → String) → (String → Bool) → (String → Result Json) → PeerRuntime → PeerRuntime
refresh_community_peers status_url is_canonical respond s = elim s.community [
  | none ↦ s
  | some manifest ↦ elim manifest.community_node_url [
    | none ↦ s
    | some url ↦
        if url == ""
        then s
        else elim (do
          payload ← respond (status_url url)
          parse_community_peer_roster is_canonical payload) [
            | ok peers ↦ record s { community_peers = peers }
            | err _ ↦ record s { community_peers = [] }
          ]
  ]
]
