-- ===== src/Tests/Peers.antt =====
-- A community whose manifest and receipts are read from what endpoints answer.
use Prim.Native.String.{◌++◌}
use peer_hours.Peers.Manifest.{
  required_nonblank_string, optional_community_node_url, as_json_record, has_duplicates, each,
  as_array, valid_bootstrap_nodes, valid_operational_url, valid_receipt_nodes, valid_core_key,
  CommunityManifest, parse_community_manifest,
}
use peer_hours.Peers.Receipts.{
  valid_receipt_url, normalize_community_receipt_node, Platform, Url, CommunityReceiptNode,
  ReceiptTerms, SignedReplicationReceipt, Expected, replication_receipt_schema,
  verify_replication_receipt, normalize_receipt, as_record, required_text, normalize_public_key,
  decode_public_key, sha256_hex, replication_receipt_node_id, is_trusted, valid_timestamp,
}
use peer_hours.Prelude.{
  ◌⊎◌, List, String, String-discrete, true, none, some, [], ◌∷◌, ◌≡◌, refl, pos, Result, ok, err,
  ◌==◌, text_equality, if◌then◌else◌, runtime, not_object, Occurs, ℕ_discrete, ℤ-discrete,
}
use peer_hours.Script.Number.{whole, strictly_equal, Number-discrete, Bool-equality}
use peer_hours.Script.Text.{
  is_blank, is_surrounded, is_base64url, utf16_length, ends_spaced, is_like, is_space,
}
use peer_hours.Script.Hex.{is_hex_key, to_lower_case, is_hex}
use peer_hours.Records.Json.{Json, text, number, object, array, nil, item, member, end, field}
use peer_hours.Peers.Receipts.Pinned.{Meets, verify_replication_receipt-IsPinned}
use peer_hours.Peers.Manifest.Bounded.{IsBounded, parse_community_manifest-IsBounded, IsDistinct}
use peer_hours.Peers.Bootstrap.{
  normalize_bootstrap_urls, adopt, fetch_bootstrap_key, bootstrap_endpoints_in_retry_order,
}
use peer_hours.Peers.Bootstrap.Distinct.{Fetches-IsDistinct}
use peer_hours.Peers.Bootstrap.Answered.{Taken, Failed, fetch_bootstrap_key-decides}
use peer_hours.Peers.State.{PeerRuntime, not_configured}
use peer_hours.Peers.Bootstrap.Selected.{unfetched, again, Fetches-scope}
use peer_hours.Tests.Records.{zeros}

abbrev forty : String
forty = "0123456789012345678901234567890123456789"

abbrev plain_url : String → Url
plain_url s = record {
  protocol = "https:";
  username = "";
  password = "";
  hash = "";
  pathname = s;
  href = s;
}

abbrev pub test_platform : Platform
test_platform = record {
  decoded_key = λ s. some s;
  key_hash = λ s. zeros;
  json_hash = λ v. zeros;
  is_date = λ s. true;
  parse_url = λ s. some (plain_url s);
  ends_with = λ s t. true;
  sign = λ r k. k;
  verify = λ r k s. ok (s == k ++ k);
}

abbrev node : CommunityReceiptNode
node = record { node_id = zeros; public_key = forty; receipt_url = "https://node/receipts/" }

abbrev node_json : Json
node_json = object (
    member "nodeId" (text zeros)
      (member "publicKey" (text forty) (member "receiptUrl" (text "https://node/receipts/") end)))

abbrev retained : ReceiptTerms
retained = record {
  community_id = "c";
  transfer_id = "t";
  transfer_digest = zeros;
  retained_at = "2026-01-01T00:00:00.000Z";
  node_id = zeros;
  public_key = forty;
}

abbrev receipt_json : Json
receipt_json = object (
    member "schema" (text replication_receipt_schema) (
      member "version" (number (whole (pos 1))) (
        member "publicKey" (text forty) (
          member "nodeId" (text zeros) (
            member "signature" (text (forty ++ forty)) (
              member "communityId" (text "c") (
                member "transferId" (text "t") (
                  member "transferDigest" (text zeros)
                    (member "retainedAt" (text "2026-01-01T00:00:00.000Z") end)))))))))

abbrev of_transfer : Expected
of_transfer = record { community_id = some "c"; transfer_id = some "t"; transfer_digest = none }

-- What reading a receipt unfolds.
unfoldable pub reading : Unit {0}
unfolding String-discrete field strictly_equal Number-discrete required_text is_blank is_surrounded
    normalize_public_key decode_public_key is_base64url utf16_length sha256_hex is_hex_key
    replication_receipt_node_id to_lower_case ℕ_discrete valid_timestamp ℤ-discrete is_hex
    Bool-equality ends_spaced is_like is_space as_record
reading = tt

receipt_verifies :
    verify_replication_receipt test_platform (some receipt_json) (node ∷ []) of_transfer ≡ true
unfolding reading verify_replication_receipt normalize_receipt is_trusted
receipt_verifies = refl

verify_replication_receipt-IsPinned_example :
    (r : SignedReplicationReceipt) × (normalize_receipt test_platform (some receipt_json) ≡ ok r)
    × Meets (some "c") r.community_id
    × Meets (some "t") r.transfer_id
    × Meets none r.transfer_digest
    × ((n : CommunityReceiptNode) × Occurs n (node ∷ [])
        × (n.node_id ≡ r.node_id)
        × (n.public_key ≡ r.public_key))
    × (test_platform.verify r.terms r.public_key r.signature ≡ ok true)
verify_replication_receipt-IsPinned_example =
    verify_replication_receipt-IsPinned test_platform (some receipt_json) (node ∷ []) of_transfer
      receipt_verifies

abbrev manifest_json : Json
manifest_json = object (
    member "communityId" (text "c") (
      member "displayName" (text "C") (
        member "protocolVersion" (number (whole (pos 1))) (
          member "role" (text "bootstrap") (
            member "capabilities" (array (item (text "discovery-metadata") nil)) (
              member "coreKey" (text zeros) (
                member "bootstrapNodes" (array (item (text "https://a") nil))
                  (member "receiptNodes" (array (item node_json nil)) end))))))))

abbrev manifest : CommunityManifest
manifest = record {
  community_id = "c";
  display_name = "C";
  core_key = zeros;
  bootstrap_nodes = "https://a" ∷ [];
  community_node_url = none;
  receipt_nodes = node ∷ [];
}

manifest_parses : parse_community_manifest test_platform manifest_json ≡ ok manifest
unfolding reading parse_community_manifest as_array as_json_record each has_duplicates
    normalize_community_receipt_node optional_community_node_url required_nonblank_string
    valid_bootstrap_nodes valid_core_key valid_operational_url valid_receipt_nodes valid_receipt_url
manifest_parses = refl

parse_community_manifest-IsBounded_example :
    IsBounded ("https://a" ∷ [])
    × IsBounded (zeros ∷ [])
    × IsBounded ("https://node/receipts/" ∷ [])
parse_community_manifest-IsBounded_example =
    parse_community_manifest-IsBounded test_platform manifest_json manifest manifest_parses

abbrev pub idle : PeerRuntime
idle = record {
  bootstrap_key = none;
  bootstrap_urls = "https://down" ∷ "https://up" ∷ [];
  active_bootstrap_url = none;
  bootstrap_state = not_configured;
  bootstrap_last_fetched_at = none;
  bootstrap_consecutive_failures = 0;
  bootstrap_last_error = none;
  community = none;
  community_peers = [];
  member_record_feed = none;
  discovered_member_feed_announcements = [];
  is_registered = true;
}

abbrev second_answers : String → Result Json
second_answers url = if url == "https://up" then ok manifest_json else err (runtime not_object)

fetch_bootstrap_key-decides_example :
    Taken test_platform second_answers "2026" idle
      (fetch_bootstrap_key test_platform second_answers "2026" idle)
    ⊎ Failed test_platform second_answers "2026" idle
        (fetch_bootstrap_key test_platform second_answers "2026" idle)
fetch_bootstrap_key-decides_example =
    fetch_bootstrap_key-decides test_platform second_answers "2026" idle "https://down"
      ("https://up" ∷ []) refl

abbrev joined : PeerRuntime
joined = adopt idle "2026" "https://up" manifest

abbrev refetched : PeerRuntime
refetched = (fetch_bootstrap_key test_platform second_answers "2027" joined).0

joined_community : joined.community ≡ some manifest
unfolding adopt
joined_community = refl

Fetches-scope_example :
    (m : CommunityManifest) × (refetched.community ≡ some m)
    × (m.community_id ≡ "c")
    × (m.core_key ≡ zeros)
Fetches-scope_example =
    Fetches-scope test_platform {s = joined} {t = refetched} manifest joined_community
      (again refetched second_answers "2027" unfetched refl)

abbrev two_urls : List String
two_urls = "https://down" ∷ "https://up" ∷ []

two_urls_given : normalize_bootstrap_urls test_platform (some two_urls) ≡ ok two_urls
unfolding reading normalize_bootstrap_urls each valid_operational_url has_duplicates
two_urls_given = refl

Fetches-IsDistinct_example : IsDistinct (
    bootstrap_endpoints_in_retry_order
      (fetch_bootstrap_key test_platform second_answers "2026" idle).0)
Fetches-IsDistinct_example =
    Fetches-IsDistinct test_platform {s = idle}
      {t = (fetch_bootstrap_key test_platform second_answers "2026" idle).0} (some two_urls)
      two_urls_given
      (again (fetch_bootstrap_key test_platform second_answers "2026" idle).0 second_answers "2026"
        unfetched refl)
