-- ===== src/Records/Envelope.antt =====
-- The record envelopes of packages/timebank-records/src/envelope.ts. What a runtime receives is any
-- JSON object, so the constructor of envelopes reads its fields by name and tests their types.
pub mod Reduced
use peer_hours.Prelude.{
  ℕ, Bool, not, ◌||◌, String, String-discrete, Option, none, some, List, [], pos, Ordering, Result,
  ok, err, throw_if, ◌>>=◌, ◌>>◌, EnvelopeRule, envelope, required, bad_version, bad_timestamp,
  not_json, conflicting,
}
use peer_hours.Script.Text.{is_blank}
use peer_hours.Script.Number.{Number, Number-discrete, whole, is_integer, less}
use peer_hours.Script.Map.{Map, values}
use peer_hours.Script.Sort.{sort}
use peer_hours.Script.Collation.{Collation, is_negative}
use peer_hours.Script.Collect.{collect}
use peer_hours.Identity.Events.{or_else}
use peer_hours.Records.Json.{
  Json, text, number, Members, end, member, Json-discrete, field, normalize_json,
}

pub record RecordEnvelope : Type 0 where
  pub id : String
  pub schema : String
  pub version : Number
  pub kind : String
  pub community_id : String
  pub occurred_at : String
  pub author_id : String
  pub payload : Json

-- The comparison of `canonicalRecordEnvelope` texts: the JSON text of a fixed order of fields. The
-- payloads that it meets are normal, so normalizing them again changes nothing.
instance unfoldable pub Envelope-discrete : Discrete RecordEnvelope
unfolding String-discrete Number-discrete Json-discrete
Envelope-discrete = hlevel (String-discrete, Number-discrete, Json-discrete)

-- An envelope as the object that it is.
unfoldable pub envelope_members : RecordEnvelope → Members
envelope_members r = member "id" (text r.id) (
    member "schema" (text r.schema) (
      member "version" (number r.version) (
        member "kind" (text r.kind) (
          member "communityId" (text r.community_id) (
            member "occurredAt" (text r.occurred_at)
              (member "authorId" (text r.author_id) (member "payload" r.payload end)))))))

unfoldable pub assert_text : Option Json → String → Result String
assert_text (some (text s)) label = do
  throw_if (is_blank s) (envelope (EnvelopeRule.required label))
  ok s
assert_text _ label = err (envelope (EnvelopeRule.required label))

unfoldable pub assert_positive_integer : Option Json → Result Number
assert_positive_integer (some (number n)) = do
  throw_if (not (is_integer n) || less n (whole (pos 1))) (envelope bad_version)
  ok n
assert_positive_integer _ = err (envelope bad_version)

unfoldable pub normalize_payload : Option Json → Result Json
normalize_payload none = err (envelope not_json)
normalize_payload (some payload) = normalize_json payload

abbrev pub record_id_of : RecordEnvelope → String
record_id_of r = r.id

-- `is_canonical` says that a text is the ISO text of the date that the runtime parses from it.
module _ (is_canonical : String → Bool) where
  unfoldable pub assert_canonical_timestamp : Option Json → Result String
  unfolding assert_text
  assert_canonical_timestamp value = do
    timestamp ← assert_text value "Record occurredAt timestamp"
    throw_if (not (is_canonical timestamp)) (envelope bad_timestamp)
    ok timestamp

  unfoldable pub create_record_envelope : Members → Result RecordEnvelope
  unfolding assert_text assert_positive_integer assert_canonical_timestamp normalize_payload
  create_record_envelope input = do
    id ← assert_text (field input "id") "Record id"
    schema ← assert_text (field input "schema") "Record schema"
    version ← assert_positive_integer (field input "version")
    kind ← assert_text (field input "kind") "Record kind"
    community ← assert_text (field input "communityId") "Community id"
    occurred ← assert_canonical_timestamp (field input "occurredAt")
    author ← assert_text (field input "authorId") "Author id"
    payload ← normalize_payload (field input "payload")
    ok (record {
      id = id;
      schema = schema;
      version = version;
      kind = kind;
      community_id = community;
      occurred_at = occurred;
      author_id = author;
      payload = payload;
    })

  -- The loop of `reduceRecordEnvelopes`.
  unfoldable pub records_by_id : List Members → Result (Map RecordEnvelope)
  unfolding Envelope-discrete
  records_by_id records =
      collect create_record_envelope record_id_of (envelope EnvelopeRule.conflicting) [] records

  module _ (c : Collation) where
    abbrev pub record_order : RecordEnvelope → RecordEnvelope → Bool
    record_order left right = is_negative (
        or_else (c.locale_compare left.occurred_at right.occurred_at)
          (c.locale_compare left.id right.id))

    unfoldable pub reduce_record_envelopes : List Members → Result (List RecordEnvelope)
    reduce_record_envelopes records = do
      by_id ← records_by_id records
      ok (sort record_order (values by_id))
