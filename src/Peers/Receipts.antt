-- ===== src/Peers/Receipts.antt =====
-- Receipts by which a community node says that it retains a transfer:
-- packages/peer-runtime/src/replication-receipt.ts. What is signed is a function of the fields, so
-- the terms stand for the bytes; so does a sorted JSON value for its digest.
mod Canonical
pub mod Pinned
unfoldable pub use Canonical.{joined_members, canonical_json, canonical_items, canonical_members}
use peer_hours.Prelude.{
  Bool, true, false, not, ◌||◌, ◌&&◌, ltb, String, Option, none, some, List, [], ◌∷◌, ◌==◌, ◌!=◌,
  text_equality, pos, if◌then◌else◌, Result, ok, err, throw_if, ◌>>=◌, ◌>>◌, ReceiptRule, receipt,
  required, bad_digest, bad_url, bad_number, not_json, bad_key, bad_time, unsupported, mismatched,
  bad_signature,
}
use peer_hours.Script.Text.{is_blank, is_surrounded, is_base64url, is_like, utf16_length}
use peer_hours.Script.Number.{is_finite, whole, strictly_equal}
use peer_hours.Script.Hex.{is_hex_key, to_lower_case}
use peer_hours.Script.Sort.{sort}
use peer_hours.Identity.Verifier.{or_false}
use peer_hours.Records.Json.{
  Json, null, boolean, number, text, array, object, Items, nil, item, Members, end, member, field,
  by_key,
}
use peer_hours.Records.Timebank.{reads}

pub record CommunityReceiptNode : Type 0 where
  pub node_id : String
  pub public_key : String
  pub receipt_url : String

-- The fields that are signed; the schema and the version are constants.
pub record ReceiptTerms : Type 0 where
  pub community_id : String
  pub transfer_id : String
  pub transfer_digest : String
  pub retained_at : String
  pub node_id : String
  pub public_key : String

-- What a receipt is created from, besides the private key.
pub record ReplicationReceiptInput : Type 0 where
  pub community_id : String
  pub transfer_id : String
  pub transfer_digest : String
  pub retained_at : String
  pub public_key : String

pub record SignedReplicationReceipt : Type 0 where
  pub terms : ReceiptTerms
  pub open terms use *
  pub signature : String

abbrev pub replication_receipt_schema : String
replication_receipt_schema = "peer-hours/replication-receipt/v1"

-- A parsed URL, as far as the code reads it; `href` is its text.
pub record Url : Type 0 where
  pub protocol : String
  pub username : String
  pub password : String
  pub hash : String
  pub pathname : String
  pub href : String

-- `(protocol is not http: or https:) || url.username || url.password || url.hash`
abbrev pub is_unsafe : Url → Bool
is_unsafe url =
    url.protocol != "http:" && url.protocol != "https:"
    || url.username != ""
    || url.password != ""
    || url.hash != ""

-- What the runtime provides: the base64url text of an Ed25519 key's bytes, the hexadecimal SHA-256
-- of such a key and of a JSON text, the parsers of dates and URLs, whether a path ends in a text,
-- and signatures.
pub record Platform : Type 0 where
  pub decoded_key : String → Option String
  pub key_hash : String → String
  pub json_hash : Json → String
  pub is_date : String → Bool
  pub parse_url : String → Option Url
  pub ends_with : String → String → Bool
  pub sign : ReceiptTerms → String → String
  pub verify : ReceiptTerms → String → String → Result Bool

unfoldable pub required_text : Option Json → String → Result String
required_text (some (text value)) name = do
  throw_if (is_blank value || is_surrounded value) (receipt (ReceiptRule.required name))
  ok value
required_text _ name = err (receipt (ReceiptRule.required name))

unfoldable pub sha256_hex : String → String → Result String
sha256_hex value name = do
  throw_if (not (is_hex_key value)) (receipt (bad_digest name))
  ok (to_lower_case value)

unfoldable pub as_record : Option Json → ReceiptRule → Result Members
as_record (some (object members)) rule = ok members
as_record _ rule = err (receipt rule)

abbrev pub is_expected : Option String → String → Bool
is_expected none actual = true
is_expected (some expected) actual = actual == expected

-- `trustedNodes.find(...)`, as a test.
unfoldable pub is_trusted : List CommunityReceiptNode → ReceiptTerms → Bool
is_trusted [] r = false
is_trusted (n ∷ nodes) r =
    n.node_id == r.node_id && n.public_key == r.public_key || is_trusted nodes r

-- `value.version === 1`
abbrev pub is_one : Option Json → Bool
is_one (some (number n)) = strictly_equal n (whole (pos 1))
is_one _ = false

-- What a receipt is verified against.
pub record Expected : Type 0 where
  pub community_id : Option String
  pub transfer_id : Option String
  pub transfer_digest : Option String

abbrev pub lowered : Option String → Option String
lowered none = none
lowered (some digest) = some (to_lower_case digest)

module _ (pf : Platform) where
  -- `decodePublicKey`, as the base64url text of the bytes that it returns.
  unfoldable pub decode_public_key : String → Result String
  decode_public_key value = do
    throw_if
        (not (is_base64url value) || ltb (utf16_length value) 40 || ltb 256 (utf16_length value))
        (receipt bad_key)
    elim (pf.decoded_key value) [ none ↦ err (receipt bad_key) | some key ↦ ok key ]

  unfoldable pub normalize_public_key : String → Result String
  normalize_public_key value = decode_public_key value

  unfoldable pub replication_receipt_node_id : String → Result String
  replication_receipt_node_id value = do key ← decode_public_key value; ok (pf.key_hash key)

  unfoldable pub replication_receipt_transfer_digest : Json → Result String
  replication_receipt_transfer_digest transfer = do
    canonical ← canonical_json transfer
    ok (pf.json_hash canonical)

  unfoldable pub valid_timestamp : String → Result String
  valid_timestamp value = do
    throw_if (not (is_like "0000-00-00T00:00:00.000Z" value) || not (pf.is_date value))
        (receipt bad_time)
    ok value

  unfoldable pub valid_receipt_url : String → String → Result String
  valid_receipt_url value name = elim (pf.parse_url value) [
    | none ↦ err (receipt (bad_url name))
    | some url ↦ do
      throw_if (is_unsafe url || not (pf.ends_with url.pathname "/receipts/"))
          (receipt (bad_url name))
      ok url.href
  ]

  -- `private_key` is the key's own text.
  unfoldable pub create_replication_receipt :
      ReplicationReceiptInput → String → Result SignedReplicationReceipt
  create_replication_receipt input private_key = do
    community_id ← required_text (some (text input.community_id)) "communityId"
    transfer_id ← required_text (some (text input.transfer_id)) "transferId"
    transfer_digest ← sha256_hex input.transfer_digest "transferDigest"
    retained_at ← valid_timestamp input.retained_at
    public_key ← normalize_public_key input.public_key
    node_id ← replication_receipt_node_id public_key
    let unsigned : ReceiptTerms = record {
      community_id = community_id;
      transfer_id = transfer_id;
      transfer_digest = transfer_digest;
      retained_at = retained_at;
      node_id = node_id;
      public_key = public_key;
    }
    ok (record { terms = unsigned; signature = pf.sign unsigned private_key })

  -- The node id that two of the parsers read and compare with the public key's.
  abbrev pub matching_node_id : Members → String → String → Result String
  matching_node_id value public_key name = do
    given ← required_text (field value "nodeId") name
    node_id ← sha256_hex given name
    derived ← replication_receipt_node_id public_key
    throw_if (node_id != derived) (receipt mismatched)
    ok node_id

  unfoldable pub normalize_receipt : Option Json → Result SignedReplicationReceipt
  normalize_receipt input = do
    value ← as_record input unsupported
    throw_if
        (not (reads (field value "schema") replication_receipt_schema)
          || not (is_one (field value "version")))
        (receipt unsupported)
    given_key ← required_text (field value "publicKey") "receipt.publicKey"
    public_key ← normalize_public_key given_key
    node_id ← matching_node_id value public_key "receipt.nodeId"
    signature ← required_text (field value "signature") "receipt.signature"
    throw_if
        (not (is_base64url signature)
          || ltb (utf16_length signature) 80
          || ltb 200 (utf16_length signature))
        (receipt bad_signature)
    community_id ← required_text (field value "communityId") "receipt.communityId"
    transfer_id ← required_text (field value "transferId") "receipt.transferId"
    given_digest ← required_text (field value "transferDigest") "receipt.transferDigest"
    transfer_digest ← sha256_hex given_digest "receipt.transferDigest"
    given_time ← required_text (field value "retainedAt") "receipt.retainedAt"
    retained_at ← valid_timestamp given_time
    ok (record {
      terms = record {
        community_id = community_id;
        transfer_id = transfer_id;
        transfer_digest = transfer_digest;
        retained_at = retained_at;
        node_id = node_id;
        public_key = public_key;
      };
      signature = signature;
    })

  -- The answer for a receipt that was read.
  abbrev pub verify_normalized :
      SignedReplicationReceipt → List CommunityReceiptNode → Expected → Result Bool
  verify_normalized r nodes expected =
      if is_expected expected.community_id r.community_id
        && is_expected expected.transfer_id r.transfer_id
        && is_expected (lowered expected.transfer_digest) r.transfer_digest
        && is_trusted nodes r.terms
      then pf.verify r.terms r.public_key r.signature
      else ok false

  unfoldable pub verify_replication_receipt :
      Option Json → List CommunityReceiptNode → Expected → Bool
  verify_replication_receipt value nodes expected =
      or_false (do r ← normalize_receipt value; verify_normalized r nodes expected)

  unfoldable pub normalize_community_receipt_node : Json → String → Result CommunityReceiptNode
  normalize_community_receipt_node input name = do
    value ← as_record (some input) (ReceiptRule.required name)
    given_key ← required_text (field value "publicKey") name
    public_key ← normalize_public_key given_key
    node_id ← matching_node_id value public_key name
    given_url ← required_text (field value "receiptUrl") name
    receipt_url ← valid_receipt_url given_url name
    ok (record { node_id = node_id; public_key = public_key; receipt_url = receipt_url })
