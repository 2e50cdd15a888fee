-- ===== src/Records/Timebank.antt =====
-- What the record adapters of packages/timebank-records/src/timebank-records.ts share: one form of
-- record for each kind of fact, its encoder and decoder, and the reduction of a kind's records.
-- Decoders take any JSON value. An encoder's value is the object that `view` writes, its keys in
-- their sorted order.
pub mod Listings
pub mod Proposals
pub mod Transfers
pub mod Settlements
pub mod Fields
pub mod Decoded
pub mod Reduced
use peer_hours.Prelude.{
  Bool, not, ◌||◌, String, Option, none, some, List, [], ◌==◌, ◌!=◌, text_equality, pos, Error,
  Result, ok, err, throw_if, ◌>>=◌, ◌>>◌, MappingRule, mapping, required, bad_minutes, not_object,
  wrong_author, wrong_schema, wrong_kind, wrong_id, wrong_community, bad_envelope, foreign_record,
  conflicting,
}
use peer_hours.Script.Text.{is_blank}
use peer_hours.Script.Number.{Number, whole, strictly_equal, is_bad_amount}
use peer_hours.Script.Map.{values}
use peer_hours.Script.Sort.{sort}
use peer_hours.Script.Collation.{Collation, before}
use peer_hours.Script.Collect.{collect}
use peer_hours.Records.Json.{Json, text, number, object, Members}
use peer_hours.Records.Envelope.{RecordEnvelope, envelope_members, create_record_envelope}

abbrev pub timebank_record_schema : String
timebank_record_schema = "peer-hours/timebank-record/v1"

abbrev pub timebank_record_version : Number
timebank_record_version = whole (pos 1)

pub record CreateTimebankRecordMetadata : Type 0 where
  pub occurred_at : String
  pub author_id : String

-- One kind of record: its payload as an object and back, the id and the community that its envelope
-- repeats, and the authors that its decoder takes.
pub record RecordForm (T : Type 0) : Type 0 where
  pub kind : String
  pub label : String
  pub view : T → Members
  pub normalize : Json → Result T
  pub record_id : T → String
  pub community_of : T → String
  pub may_submit : T → String → Bool

unfoldable pub assert_text : Option Json → String → Result String
assert_text (some (text s)) label = do
  throw_if (is_blank s) (mapping (MappingRule.required label))
  ok s
assert_text _ label = err (mapping (MappingRule.required label))

unfoldable pub assert_minutes : Option Json → String → Result Number
assert_minutes (some (number n)) label = do
  throw_if (is_bad_amount n) (mapping (MappingRule.bad_minutes label))
  ok n
assert_minutes _ label = err (mapping (MappingRule.bad_minutes label))

-- `isRecord`, with the error of its callers.
abbrev pub as_object : Json → String → Result Members
as_object (object members) label = ok members
as_object _ label = err (mapping (not_object label))

-- `value === expected` for a text `expected`.
abbrev pub reads : Option Json → String → Bool
reads (some (text s)) expected = s == expected
reads _ expected = Bool.false

-- `try { ... } catch { throw error; }`
abbrev pub rethrown_as {ℓ} : {A : Type ℓ} → Error → Result A → Result A
rethrown_as error (ok value) = ok value
rethrown_as error (err _) = err error

unfoldable pub assert_timebank_envelope : RecordEnvelope → Result (Unit {0})
unfolding strictly_equal
assert_timebank_envelope r =
    throw_if
      (r.schema != timebank_record_schema || not (strictly_equal r.version timebank_record_version))
      (mapping wrong_schema)

unfoldable pub assert_record_kind : RecordEnvelope → String → String → Result (Unit {0})
assert_record_kind r kind label = throw_if (r.kind != kind) (mapping (wrong_kind label))

unfoldable pub assert_envelope_matches_payload :
    RecordEnvelope → String → String → String → Result (Unit {0})
assert_envelope_matches_payload r id community label = do
  throw_if (r.id != id) (mapping (MappingRule.wrong_id label))
  throw_if (r.community_id != community) (mapping (MappingRule.wrong_community label))

module _ (is_canonical : String → Bool) where
  unfoldable pub normalize_record : Json → Result RecordEnvelope
  normalize_record value = do
    members ← as_object value "timebank record envelope"
    rethrown_as (mapping bad_envelope) (create_record_envelope is_canonical members)

  -- The envelope that every encoder creates.
  unfoldable pub timebank_record :
      String → String → String → Members → CreateTimebankRecordMetadata → Result RecordEnvelope
  timebank_record id community kind payload metadata = create_record_envelope is_canonical (
      envelope_members (record {
        id = id;
        schema = timebank_record_schema;
        version = timebank_record_version;
        kind = kind;
        community_id = community;
        occurred_at = metadata.occurred_at;
        author_id = metadata.author_id;
        payload = object payload;
      }))

  module _ {T : Type 0} (form : RecordForm T) where
    -- `may_write` is the encoder's own test of the author.
    unfoldable pub to_record :
        (T → String → Bool) → T → CreateTimebankRecordMetadata → Result RecordEnvelope
    unfolding timebank_record
    to_record may_write value metadata = do
      normalized ← form.normalize (object (form.view value))
      throw_if (not (may_write normalized metadata.author_id)) (mapping (wrong_author form.label))
      timebank_record (form.record_id normalized) (form.community_of normalized) form.kind
          (form.view normalized) metadata

    unfoldable pub decode_record : Json → Result T
    unfolding assert_timebank_envelope assert_record_kind assert_envelope_matches_payload
    decode_record value = do
      r ← normalize_record value
      assert_timebank_envelope r
      assert_record_kind r form.kind form.label
      decoded ← form.normalize r.payload
      assert_envelope_matches_payload r (form.record_id decoded) (form.community_of decoded)
          form.label
      throw_if (not (form.may_submit decoded r.author_id)) (mapping (wrong_author form.label))
      ok decoded

    -- `value.communityId !== communityId` after the decoder.
    unfoldable pub decode_own : String → Json → Result T
    unfolding decode_record
    decode_own community value = do
      decoded ← decode_record value
      throw_if (form.community_of decoded != community) (mapping (foreign_record form.label))
      ok decoded

    -- `reduceRecords`, with the test of its callers; `id_of` is `value.id`.
    module _ (c : Collation) (id_of : T → String) where
      abbrev pub by_id : T → T → Bool
      by_id left right = before c (id_of left) (id_of right)

      unfoldable pub reduce_records : ⦃d : Discrete T⦄ → List Json → String → Result (List T)
      reduce_records records community = do
        throw_if (is_blank community) (mapping (MappingRule.required "Community id"))
        values_by_id ←
            collect (decode_own community) id_of (mapping (MappingRule.conflicting form.label)) []
              records
        ok (sort by_id (values values_by_id))
