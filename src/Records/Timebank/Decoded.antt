-- ===== src/Records/Timebank/Decoded.antt =====
-- Encoding and decoding, for any form of record whose payload keeps its value.
use peer_hours.Prelude.{
  Bool, not, true, String, ◌≡◌, refl, sym, arith, text_equality, ℕ_discrete, ℤ-discrete, ==_refl,
  ok, throw_if, ◌>>◌, >>=-eq-ok, mapping, MappingRule,
}
use mathlib.Core.Path.{subst}
use peer_hours.Script.Number.{strictly_equal, Number-discrete}
use peer_hours.Records.Json.{Json, object, normalize_json}
use peer_hours.Records.Envelope.{RecordEnvelope, envelope_members}
use peer_hours.Records.Envelope.Reduced.{
  IsEnvelope, create-IsEnvelope, create-envelope_members, create-envelope_members_same,
}
use peer_hours.Records.Timebank.{
  timebank_record_schema, timebank_record_version, CreateTimebankRecordMetadata, RecordForm,
  normalize_record, assert_timebank_envelope, assert_record_kind, assert_envelope_matches_payload,
  timebank_record, to_record, decode_record,
}

-- A value that a decoder gives is read back from its own payload, which is in normal form.
pub record IsLossless {T : Type 0} (form : RecordForm T) : Type 0 where
  pub again :
      (j : Json) (t : T) → form.normalize j ≡ ok t → form.normalize (object (form.view t)) ≡ ok t
  pub normal :
      (j : Json) (t : T)
      → form.normalize j ≡ ok t
      → normalize_json (object (form.view t)) ≡ ok (object (form.view t))

module _ (is_canonical : String → Bool) {T : Type 0} (form : RecordForm T) where
  -- The envelope of a value.
  abbrev pub drafted : T → CreateTimebankRecordMetadata → RecordEnvelope
  drafted t metadata = record {
    id = form.record_id t;
    schema = timebank_record_schema;
    version = timebank_record_version;
    kind = form.kind;
    community_id = form.community_of t;
    occurred_at = metadata.occurred_at;
    author_id = metadata.author_id;
    payload = object (form.view t);
  }

  -- An envelope in the form of a value's is decoded to the value.
  pub decode_record-drafted :
      (t : T) (metadata : CreateTimebankRecordMetadata)
      → IsEnvelope is_canonical (drafted t metadata)
      → form.normalize (object (form.view t)) ≡ ok t
      → form.may_submit t metadata.author_id ≡ true
      → decode_record is_canonical form (object (envelope_members (drafted t metadata))) ≡ ok t
  unfolding decode_record normalize_record assert_timebank_envelope assert_record_kind
      assert_envelope_matches_payload strictly_equal Number-discrete ℤ-discrete ℕ_discrete
  decode_record-drafted t metadata w read may =
      rw
        (
          create-envelope_members is_canonical (drafted t metadata) w,
          ==_refl timebank_record_schema,
          read,
          ==_refl form.kind,
          ==_refl (form.record_id t),
          ==_refl (form.community_of t),
          may,
        )
        refl

  -- What an encoder does with the value that it has read.
  abbrev pub WritesAs :
      (T → String → Bool) → T → CreateTimebankRecordMetadata → RecordEnvelope → Type 0
  WritesAs may_write t metadata r =
      (do
        throw_if (not (may_write t metadata.author_id))
            (mapping (MappingRule.wrong_author form.label))
        timebank_record is_canonical (form.record_id t) (form.community_of t) form.kind
            (form.view t) metadata)
      ≡ ok r

  pub writes_drafted :
      (may_write : T → String → Bool) (t : T) (metadata : CreateTimebankRecordMetadata)
      (r : RecordEnvelope)
      → normalize_json (object (form.view t)) ≡ ok (object (form.view t))
      → form.normalize (object (form.view t)) ≡ ok t
      → WritesAs may_write t metadata r
      → (form.normalize (object (form.view t)) ≡ ok t)
        × (may_write t metadata.author_id ≡ true)
        × (r ≡ drafted t metadata)
        × IsEnvelope is_canonical (drafted t metadata)
  unfolding timebank_record
  writes_drafted may_write t metadata r normal read h =
      let (_, may, made) =
        >>=-eq-ok
          (throw_if (not (may_write t metadata.author_id))
            (mapping (MappingRule.wrong_author form.label)))
          _ h in
      let same = create-envelope_members_same is_canonical (drafted t metadata) r normal made in
      let may' : may_write t metadata.author_id ≡ true = ground arith in
      (
        read,
        may',
        same,
        subst (IsEnvelope is_canonical) same
            (create-IsEnvelope is_canonical (envelope_members (drafted t metadata)) r made),
      )

  module _ (lossless : IsLossless form) where
    -- An encoder reads its value once more, and what it writes is the envelope of what it has read;
    -- the decoder gives that value, if it takes the author.
    pub decode_record-to_record :
        (may_write : T → String → Bool) (t : T) (metadata : CreateTimebankRecordMetadata)
        (r : RecordEnvelope)
        → to_record is_canonical form may_write t metadata ≡ ok r
        → (u : T) × (form.normalize (object (form.view t)) ≡ ok u)
          × (may_write u metadata.author_id ≡ true)
          × (form.may_submit u metadata.author_id ≡ true
              → decode_record is_canonical form (object (envelope_members r)) ≡ ok u)
    unfolding to_record
    decode_record-to_record may_write t metadata r h =
        let (u, e, h₁) = >>=-eq-ok (form.normalize (object (form.view t))) _ h in
        let again = lossless.again (object (form.view t)) u e in
        let (_, may, same, w) =
          writes_drafted may_write u metadata r (lossless.normal (object (form.view t)) u e) again
            h₁ in
        let decoded = λ (takes : form.may_submit u metadata.author_id ≡ true).
          subst (λ s. decode_record is_canonical form (object (envelope_members s)) ≡ ok u)
            (sym same) (decode_record-drafted u metadata w again takes) in
        (u, e, may, decoded)

    -- Where reading a value gives that value, and the decoder takes the authors that the encoder
    -- takes, the decoder gives the value that was written.
    pub decode_record-to_record_same :
        (may_write : T → String → Bool)
        → ((t u : T) → form.normalize (object (form.view t)) ≡ ok u → u ≡ t)
        → ((t : T) (author : String) → may_write t author ≡ true → form.may_submit t author ≡ true)
        → (t : T) (metadata : CreateTimebankRecordMetadata) (r : RecordEnvelope)
        → to_record is_canonical form may_write t metadata ≡ ok r
        → decode_record is_canonical form (object (envelope_members r)) ≡ ok t
    decode_record-to_record_same may_write same takes t metadata r h =
        let (u, e, may, decoded) = decode_record-to_record may_write t metadata r h in
        subst (λ v. decode_record is_canonical form (object (envelope_members r)) ≡ ok v)
          (same t u e) (decoded (takes u metadata.author_id may))
