-- ===== src/Records/Envelope/Reduced.antt =====
-- Envelopes are normal, and their reduction sees them as a set.
use peer_hours.Prelude.{
  Bool, not, ◌||◌, pos, String, String-discrete, Option, some, none, ◌≡◌, ◌≢◌, refl, true, false,
  List, arith, Ordering, Occurs, SameSet, ok, text_equality, >>=-eq-ok, envelope, conflicting,
}
use mathlib.Core.Path.{subst}
use peer_hours.Script.Text.{is_blank}
use peer_hours.Script.Number.{Number, whole, is_integer, less}
use peer_hours.Script.Map.{Map, values}
use peer_hours.Script.Collation.{Collation}
use peer_hours.Script.Collect.{collect_same, Occurs-values_iff}
use peer_hours.Script.Collect.Order.{Separates, sort-values_same}
use peer_hours.Records.Json.{Json, Members, field, normalize_json}
use peer_hours.Records.Json.Normal.{normalize_json_again}
use peer_hours.Records.Envelope.{
  RecordEnvelope, Envelope-discrete, envelope_members, assert_text, assert_positive_integer,
  normalize_payload, assert_canonical_timestamp, create_record_envelope, record_id_of,
  records_by_id, record_order, reduce_record_envelopes,
}

-- A text that the constructor takes is no blank.
assert_text-ok :
    (o : Option Json) (label : String) {s : String}
    → assert_text o label ≡ ok s
    → is_blank s ≡ false
unfolding assert_text
assert_text-ok o label h = ground arith

assert_positive_integer-ok :
    (o : Option Json) {n : Number}
    → assert_positive_integer o ≡ ok n
    → (not (is_integer n) || less n (whole (pos 1))) ≡ false
unfolding assert_positive_integer
assert_positive_integer-ok o h = ground arith

normalize_payload-ok :
    (o : Option Json) {j : Json} → normalize_payload o ≡ ok j → normalize_json j ≡ ok j
unfolding normalize_payload
normalize_payload-ok none h = ground arith
normalize_payload-ok (some given) {j} h = normalize_json_again given j h

module _ (is_canonical : String → Bool) where
  pub record IsEnvelope (r : RecordEnvelope) : Type 0 where
    pub id : is_blank r.id ≡ false
    pub schema : is_blank r.schema ≡ false
    pub version : (not (is_integer r.version) || less r.version (whole (pos 1))) ≡ false
    pub kind : is_blank r.kind ≡ false
    pub community : is_blank r.community_id ≡ false
    pub stamp : is_blank r.occurred_at ≡ false
    pub canonical : is_canonical r.occurred_at ≡ true
    pub author : is_blank r.author_id ≡ false
    pub payload : normalize_json r.payload ≡ ok r.payload

  assert_canonical_timestamp-ok :
      (o : Option Json) {s : String}
      → assert_canonical_timestamp is_canonical o ≡ ok s
      → (is_blank s ≡ false) × (is_canonical s ≡ true)
  unfolding assert_canonical_timestamp
  assert_canonical_timestamp-ok o h =
      let (s, e, f) = >>=-eq-ok (assert_text o "Record occurredAt timestamp") _ h in
      let told = assert_text-ok o "Record occurredAt timestamp" e in ground arith

  pub create-IsEnvelope :
      (m : Members) (r : RecordEnvelope)
      → create_record_envelope is_canonical m ≡ ok r
      → IsEnvelope r
  unfolding create_record_envelope
  create-IsEnvelope m r h =
      let (id, e₁, h₁) = >>=-eq-ok (assert_text (field m "id") "Record id") _ h in
      let (schema, e₂, h₂) = >>=-eq-ok (assert_text (field m "schema") "Record schema") _ h₁ in
      let (version, e₃, h₃) = >>=-eq-ok (assert_positive_integer (field m "version")) _ h₂ in
      let (kind, e₄, h₄) = >>=-eq-ok (assert_text (field m "kind") "Record kind") _ h₃ in
      let (community, e₅, h₅) =
        >>=-eq-ok (assert_text (field m "communityId") "Community id") _ h₄ in
      let (occurred, e₆, h₆) =
        >>=-eq-ok (assert_canonical_timestamp is_canonical (field m "occurredAt")) _ h₅ in
      let (author, e₇, h₇) = >>=-eq-ok (assert_text (field m "authorId") "Author id") _ h₆ in
      let (payload, e₈, h₈) = >>=-eq-ok (normalize_payload (field m "payload")) _ h₇ in
      let stamp = assert_canonical_timestamp-ok (field m "occurredAt") e₆ in
      let made : IsEnvelope (record {
        id = id;
        schema = schema;
        version = version;
        kind = kind;
        community_id = community;
        occurred_at = occurred;
        author_id = author;
        payload = payload;
      }) =
        record {
          id = assert_text-ok (field m "id") "Record id" e₁;
          schema = assert_text-ok (field m "schema") "Record schema" e₂;
          version = assert_positive_integer-ok (field m "version") e₃;
          kind = assert_text-ok (field m "kind") "Record kind" e₄;
          community = assert_text-ok (field m "communityId") "Community id" e₅;
          stamp = stamp.0;
          canonical = stamp.1;
          author = assert_text-ok (field m "authorId") "Author id" e₇;
          payload = normalize_payload-ok (field m "payload") e₈;
        } in
      let same : record {
        id = id;
        schema = schema;
        version = version;
        kind = kind;
        community_id = community;
        occurred_at = occurred;
        author_id = author;
        payload = payload;
      }
          ≡ r =
        ground arith in
      subst IsEnvelope same made

  pub create-envelope_members :
      (r : RecordEnvelope)
      → IsEnvelope r
      → create_record_envelope is_canonical (envelope_members r) ≡ ok r
  unfolding create_record_envelope assert_text assert_positive_integer assert_canonical_timestamp
      normalize_payload field envelope_members String-discrete
  create-envelope_members r w =
      rw (w.id, w.schema, w.version, w.kind, w.community, w.stamp, w.canonical, w.author, w.payload)
        refl

  -- What the constructor makes of an envelope with a normal payload is that envelope.
  pub create-envelope_members_same :
      (d r : RecordEnvelope)
      → normalize_json d.payload ≡ ok d.payload
      → create_record_envelope is_canonical (envelope_members d) ≡ ok r
      → r ≡ d
  unfolding create_record_envelope assert_text assert_positive_integer assert_canonical_timestamp
      normalize_payload field envelope_members String-discrete
  create-envelope_members_same d r normal h = ground (arith, normal)

  -- An envelope is its own normal form: reading the fields of an envelope that was created from any
  -- object creates the same envelope.
  pub create_record_envelope_again :
      (m : Members) (r : RecordEnvelope)
      → create_record_envelope is_canonical m ≡ ok r
      → create_record_envelope is_canonical (envelope_members r) ≡ ok r
  create_record_envelope_again m r h = create-envelope_members r (create-IsEnvelope m r h)

  module _ (c : Collation) where
    -- The collation tells the different ids of the records apart.
    abbrev pub TellsRecordsApart : List Members → Type 0
    TellsRecordsApart ms =
        (d e : Members) (x y : RecordEnvelope)
        → Occurs d ms
        → Occurs e ms
        → create_record_envelope is_canonical d ≡ ok x
        → create_record_envelope is_canonical e ≡ ok y
        → x.id ≢ y.id
        → c.locale_compare x.id y.id ≢ Ordering.eq

    abbrev earlier : RecordEnvelope → RecordEnvelope → Bool
    earlier = record_order is_canonical c

    earlier_irrefl : (r : RecordEnvelope) → earlier r r ≡ true → ⊥
    earlier_irrefl r h = ground (arith, c.swapped r.occurred_at r.occurred_at, c.swapped r.id r.id)

    earlier_trans :
        (r s t : RecordEnvelope) → earlier r s ≡ true → earlier s t ≡ true → earlier r t ≡ true
    earlier_trans r s t h k = ground (
      arith,
      c.lt_trans r.occurred_at s.occurred_at t.occurred_at,
      c.eq_lt_trans r.occurred_at s.occurred_at t.occurred_at,
      c.lt_eq_trans r.occurred_at s.occurred_at t.occurred_at,
      c.eq_trans r.occurred_at s.occurred_at t.occurred_at,
      c.lt_trans r.id s.id t.id,
    )

    records-Separates :
        (ms : List Members) (m : Map RecordEnvelope)
        → records_by_id is_canonical ms ≡ ok m
        → TellsRecordsApart ms
        → Separates record_id_of earlier (values m)
    unfolding records_by_id
    records-Separates ms m h apart a b o p n =
        let source = λ (x : RecordEnvelope).
          (Occurs-values_iff (create_record_envelope is_canonical) record_id_of
            (envelope conflicting) ms m x h).0 in
        let (d, at, e) = source a o in
        let (d', at', e') = source b p in
        let told = apart d d' a b at at' e e' n in
        ground (arith, c.swapped a.occurred_at b.occurred_at, c.swapped a.id b.id)

    -- If records reduce, the same records in any other order, and however often each is repeated,
    -- reduce too, and to the same envelopes in the same order. The collation is to tell the
    -- different ids of the records apart.
    pub reduce_record_envelopes_same :
        (ms ns : List Members) (r : List RecordEnvelope)
        → SameSet ms ns
        → TellsRecordsApart ms
        → reduce_record_envelopes is_canonical c ms ≡ ok r
        → reduce_record_envelopes is_canonical c ns ≡ ok r
    unfolding reduce_record_envelopes records_by_id
    reduce_record_envelopes_same ms ns r same apart h =
        let check = create_record_envelope is_canonical in
        let conflict = envelope conflicting in
        let (m, e, h₁) = >>=-eq-ok (records_by_id is_canonical ms) _ h in
        let (n, g, _) = collect_same check record_id_of conflict ms ns m same e in
        let sorted =
          sort-values_same record_id_of earlier earlier_irrefl earlier_trans check conflict ms ns m
            n same e g (records-Separates ms m e apart) in
        rw (g, ← sorted) h₁
