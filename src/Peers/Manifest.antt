-- ===== src/Peers/Manifest.antt =====
-- The parsers of untrusted metadata in packages/peer-runtime/src/index.ts: the manifest of a
-- bootstrap endpoint. Peers/Roster has the roster of a community node.
pub mod Bounded
use peer_hours.Prelude.{
  ℕ, suc, ltb, Bool, true, false, not, ◌||◌, String, Option, none, some, List, [], ◌∷◌, length,
  contains, map, ◌==◌, text_equality, count_equality, if◌then◌else◌, pos, Result, ok, err, throw_if,
  ◌>>=◌, ◌>>◌, runtime, bad_field, duplicate, not_object, Error,
}
use peer_hours.Script.Text.{is_blank, utf16_length}
use peer_hours.Script.Number.{whole, strictly_equal}
use peer_hours.Script.Hex.{is_hex_key, to_lower_case}
use peer_hours.Records.Json.{
  Json, null, text, number, object, array, Items, nil, item, Members, field,
}
use peer_hours.Records.Timebank.{reads}
use peer_hours.Peers.Receipts.{
  CommunityReceiptNode, Platform, Url, is_unsafe, is_one, normalize_community_receipt_node,
}

-- The protocol version, the role and the capabilities are constants of every manifest.
pub record CommunityManifest : Type 0 where
  pub community_id : String
  pub display_name : String
  pub core_key : String
  pub bootstrap_nodes : List String
  pub community_node_url : Option String
  pub receipt_nodes : List CommunityReceiptNode

abbrev pub max_bootstrap_nodes : ℕ
max_bootstrap_nodes = 16

abbrev pub max_endpoint_url_length : ℕ
max_endpoint_url_length = 2048

unfoldable pub as_json_record : Json → Result Members
as_json_record (object members) = ok members
as_json_record _ = err (runtime not_object)

unfoldable pub required_nonblank_string : Members → String → Result String
required_nonblank_string payload name = elim (field payload name) [
  | some (text value) ↦ do throw_if (is_blank value) (runtime (bad_field name)); ok value
  | _ ↦ err (runtime (bad_field name))
]

unfoldable pub valid_core_key : String → String → Result String
valid_core_key value name = do
  throw_if (not (is_hex_key value)) (runtime (bad_field name))
  ok (to_lower_case value)

-- `value.length !== 1 || value[0] !== "discovery-metadata"`, of an array.
abbrev pub is_discovery_only : Option Json → Bool
is_discovery_only (some (array (item (text capability) nil))) = capability == "discovery-metadata"
is_discovery_only _ = false

abbrev pub items : Items → List Json
items nil = []
items (item value rest) = value ∷ items rest

-- `new Set(values).size !== values.length`
unfoldable pub has_duplicates : List String → Bool
has_duplicates [] = false
has_duplicates (x ∷ xs) = contains xs x || has_duplicates xs

-- `array.map(f)` with a function that may throw.
unfoldable pub each {ℓ κ} : {A : Type ℓ} {B : Type κ} → (A → Result B) → List A → Result (List B)
each f [] = ok []
each f (x ∷ xs) = do y ← f x; ys ← each f xs; ok (y ∷ ys)

unfoldable pub as_array : Option Json → String → Result (List Json)
as_array (some (array values)) name = ok (items values)
as_array _ name = err (runtime (bad_field name))

module _ (pf : Platform) where
  unfoldable pub valid_operational_url : Json → String → Result String
  valid_operational_url (text value) name = do
    throw_if (utf16_length value == 0 || ltb max_endpoint_url_length (utf16_length value))
        (runtime (bad_field name))
    elim (pf.parse_url value) [
      | none ↦ err (runtime (bad_field name))
      | some url ↦ do throw_if (is_unsafe url) (runtime (bad_field name)); ok url.href
    ]
  valid_operational_url _ name = err (runtime (bad_field name))

  unfoldable pub valid_bootstrap_nodes : Option Json → Result (List String)
  valid_bootstrap_nodes value = do
    values ← as_array value "bootstrapNodes"
    throw_if (ltb max_bootstrap_nodes (length values)) (runtime (bad_field "bootstrapNodes"))
    nodes ← each (λ node. valid_operational_url node "bootstrapNodes") values
    throw_if (has_duplicates nodes) (runtime (duplicate "bootstrapNodes"))
    ok nodes

  unfoldable pub optional_community_node_url : Option Json → Result (Option String)
  optional_community_node_url none = ok none
  optional_community_node_url (some null) = ok none
  optional_community_node_url (some value) = do
    url ← valid_operational_url value "communityNodeUrl"
    ok (some url)

  -- The nodes of an array.
  abbrev pub receipt_nodes_of : Option Json → Result (List CommunityReceiptNode)
  receipt_nodes_of value = do
    values ← as_array value "receiptNodes"
    throw_if (ltb max_bootstrap_nodes (length values)) (runtime (bad_field "receiptNodes"))
    nodes ← each (λ node. normalize_community_receipt_node pf node "receiptNodes") values
    throw_if (has_duplicates (map (λ n. n.node_id) nodes)) (runtime (duplicate "receiptNodes"))
    throw_if (has_duplicates (map (λ n. n.receipt_url) nodes)) (runtime (duplicate "receiptNodes"))
    ok nodes

  unfoldable pub valid_receipt_nodes : Option Json → Result (List CommunityReceiptNode)
  valid_receipt_nodes none = ok []
  valid_receipt_nodes (some null) = ok []
  valid_receipt_nodes (some value) = receipt_nodes_of (some value)

  unfoldable pub parse_community_manifest : Json → Result CommunityManifest
  parse_community_manifest value = do
    payload ← as_json_record value
    community_id ← required_nonblank_string payload "communityId"
    display_name ← required_nonblank_string payload "displayName"
    throw_if (not (is_one (field payload "protocolVersion")))
        (runtime (bad_field "protocolVersion"))
    throw_if (not (reads (field payload "role") "bootstrap")) (runtime (bad_field "role"))
    throw_if (not (is_discovery_only (field payload "capabilities")))
        (runtime (bad_field "capabilities"))
    given_key ← required_nonblank_string payload "coreKey"
    core_key ← valid_core_key given_key "coreKey"
    bootstrap_nodes ← valid_bootstrap_nodes (field payload "bootstrapNodes")
    community_node_url ← optional_community_node_url (field payload "communityNodeUrl")
    receipt_nodes ← valid_receipt_nodes (field payload "receiptNodes")
    ok (record {
      community_id = community_id;
      display_name = display_name;
      core_key = core_key;
      bootstrap_nodes = bootstrap_nodes;
      community_node_url = community_node_url;
      receipt_nodes = receipt_nodes;
    })
