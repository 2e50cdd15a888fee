-- ===== src/Tests/Records.antt =====
-- The records of a listing and of a settled exchange.
use peer_hours.Prelude.{
  String-discrete, Option, some, false, ==_refl, Result, ◌==◌, text_equality, ◌≡◌, ◌≢◌, ◌↔◌, ◌⊎◌,
  inl, inr, refl, ap, sym, Bool, true, String, List, [], ◌∷◌, ok, pos, Occurs, Occurs-nil, here,
  there, SameSet, SameSet-turned, ℤ-discrete, Ordering, ◌∙◌, eq_of_ok,
}
use peer_hours.Script.Number.{whole}
use peer_hours.Script.Order.{units_before}
use peer_hours.Script.Collation.{length_collation}
use peer_hours.Domain.Types.{Listing, offer, published}
use peer_hours.Ledger.Types.{Transfer}
use peer_hours.Settlement.Transfers.Deterministic.{settlement_terms, IsConfirmed}
use peer_hours.Records.Json.{
  Json, null, number, text, array, object, nil, item, Members, end, member, field, collect_members,
  normalize_json, normalize_items,
}
use peer_hours.Records.Envelope.{
  RecordEnvelope, envelope_members, assert_text, assert_positive_integer,
  assert_canonical_timestamp, normalize_payload, create_record_envelope, records_by_id,
  reduce_record_envelopes, Envelope-discrete,
}
use peer_hours.Records.Envelope.Reduced.{create_record_envelope_again, reduce_record_envelopes_same}
use peer_hours.Records.Timebank.{
  CreateTimebankRecordMetadata, timebank_record_schema, to_record, timebank_record,
  normalize_record, assert_timebank_envelope, assert_record_kind, assert_envelope_matches_payload,
  decode_record, decode_own, reduce_records,
}
use peer_hours.Records.Timebank.Reduced.{reduce_records_iff, reduce_records_same}
use peer_hours.Records.Timebank.Listings.{
  closure_view, published_listing_form, listing_view, closure_of, to_published_listing_record,
  to_closed_listing_record, decode_published_listing_record, Listing-discrete,
  normalize_published_listing,
}
use peer_hours.Records.Timebank.Listings.Lossless.{decode_published-to_published}
use peer_hours.Records.Timebank.Proposals.{
  proposal_view, to_accepted_proposal_record, decode_accepted_proposal_record,
  normalize_accepted_proposal,
}
use peer_hours.Records.Timebank.Proposals.Lossless.{decode_accepted-to_accepted}
use peer_hours.Records.Timebank.Transfers.{
  transfer_view, attestations_view, attestation_view, takes_part, to_confirmed_transfer_record,
  to_ledger_transfer_record, decode_ledger_transfer_record, normalize_transfer, read_transfer,
  read_each, read_attestation,
}
use peer_hours.Records.Timebank.Transfers.Confirmed.{decode_transfer-to_confirmed}
use peer_hours.Records.Resolve.{Runtime}
use mathlib.Core.Path.{subst}
use peer_hours.Script.Text.{utf16_length}
use peer_hours.Identity.Events
use peer_hours.Identity.Events.{MemberSigningKeyAuthorization, create_authorization, assert_present}
use peer_hours.Identity.Verifier.{
  empty_index, index_key, index_authorized_keys, verify_member_signature,
}
use peer_hours.Identity.Owned.{
  MemberFeedDeclaration, declaration_schema, is_lower_hex, is_hypercore_key,
  assert_canonical_hypercore_key, create_self_owned_identity, assert_root_signature,
  canonical_declaration_payload, create_declaration,
}
use peer_hours.Records.Signed
use peer_hours.Records.Signed.{
  is_member_signed_record, create_member_signed_record, verify_member_signed_record,
}
use peer_hours.Records.Declarations
use peer_hours.Records.Declarations.{
  Declaration-discrete, declaration_view, declaration_record_id,
  member_feed_declaration_record_schema, member_feed_declaration_record_kind, read_declaration,
  differs, declaration_from_record, declarations_by_feed, declarations_to_authorizations,
  root_authorization,
}
use peer_hours.Records.Declarations.Shared.{two_feeds-unindexed}
use peer_hours.Tests.Settlement.{opened, agreed, from_ann, from_bobby, signed, settlement}

-- Stands for the runtime's parser of dates.
abbrev pub any_stamp : String → Bool
any_stamp value = true

abbrev by_author : String → CreateTimebankRecordMetadata
by_author author = record { occurred_at = "2026"; author_id = author }

abbrev pub envelope_of : String → String → String → Members → RecordEnvelope
envelope_of id kind author payload = record {
  id = id;
  schema = timebank_record_schema;
  version = whole (pos 1);
  kind = kind;
  community_id = "c";
  occurred_at = "2026";
  author_id = author;
  payload = object payload;
}

abbrev pub digging : Listing
digging = record {
  id = "l";
  community_id = "c";
  member_id = "ann";
  kind = offer;
  title = "Digging";
  description = "An hour of digging";
  minutes = whole (pos 60);
  status = published;
}

unfoldable pub encoding : Unit {0}
unfolding opened units_before field collect_members normalize_json envelope_members assert_text
    assert_positive_integer assert_canonical_timestamp normalize_payload create_record_envelope
    to_record timebank_record normalize_published_listing listing_view
encoding = tt

abbrev digging_record : RecordEnvelope
digging_record = envelope_of "l" "peer-hours/published-listing/v1" "ann" (listing_view digging)

writes_listing : to_published_listing_record any_stamp digging (by_author "ann") ≡ ok digging_record
unfolding encoding to_published_listing_record
writes_listing = refl

abbrev digging_json : Json
digging_json = object (envelope_members digging_record)

reads_listing : decode_published_listing_record any_stamp digging_json ≡ ok digging
unfolding encoding decode_published_listing_record
reads_listing =
    decode_published-to_published any_stamp digging (by_author "ann") digging_record writes_listing

abbrev closing_record : RecordEnvelope
closing_record =
    envelope_of "l/closed" "peer-hours/closed-listing/v1" "ann" (closure_view (closure_of digging))

writes_closing : to_closed_listing_record any_stamp digging (by_author "ann") ≡ ok closing_record
unfolding encoding closure_view to_closed_listing_record
writes_closing = refl

abbrev agreed_record : RecordEnvelope
agreed_record =
    envelope_of "p/accepted" "peer-hours/accepted-exchange-proposal/v1" "bobby"
      (proposal_view agreed)

writes_proposal :
    to_accepted_proposal_record any_stamp agreed (by_author "bobby") ≡ ok agreed_record
unfolding encoding proposal_view normalize_accepted_proposal to_accepted_proposal_record
writes_proposal = refl

decode_accepted-to_accepted_example :
    decode_accepted_proposal_record any_stamp (object (envelope_members agreed_record)) ≡ ok agreed
decode_accepted-to_accepted_example =
    decode_accepted-to_accepted any_stamp agreed (by_author "bobby") agreed_record writes_proposal

abbrev settling_record : RecordEnvelope
settling_record =
    envelope_of "p/settlement" "peer-hours/ledger-transfer/v1" "ann" (transfer_view settlement)

writes_settlement :
    to_confirmed_transfer_record any_stamp length_collation agreed
      (from_bobby ∷ from_ann ∷ [])
      (signed "bobby" ∷ signed "ann" ∷ [])
      (by_author "ann")
    ≡ ok settling_record
unfolding encoding transfer_view attestations_view attestation_view normalize_items
    normalize_transfer read_transfer read_each read_attestation to_ledger_transfer_record
    to_confirmed_transfer_record
writes_settlement = refl

decode_transfer-to_confirmed_example :
    IsConfirmed length_collation agreed (from_bobby ∷ from_ann ∷ [])
    × ((u : Transfer) × (u.terms ≡ settlement_terms agreed)
        × SameSet u.attestations (signed "bobby" ∷ signed "ann" ∷ [])
        × (takes_part u "ann" ≡ true)
        × (decode_ledger_transfer_record any_stamp (object (envelope_members settling_record))
            ≡ ok u))
decode_transfer-to_confirmed_example =
    decode_transfer-to_confirmed any_stamp length_collation agreed (from_bobby ∷ from_ann ∷ [])
      (signed "bobby" ∷ signed "ann" ∷ []) (by_author "ann") settling_record writes_settlement

-- An envelope as it may arrive: its keys and those of its payload stand in no order.
abbrev note : String → Members
note id =
    member "payload" (object (member "b" (array (item null nil)) (member "a" (text "x") end))) (
      member "authorId" (text "ann") (
        member "occurredAt" (text "2026") (
          member "communityId" (text "c") (
            member "kind" (text "k") (
              member "version" (number (whole (pos 1)))
                (member "schema" (text "s") (member "id" (text id) end)))))))

abbrev noted : String → RecordEnvelope
noted id = record {
  id = id;
  schema = "s";
  version = whole (pos 1);
  kind = "k";
  community_id = "c";
  occurred_at = "2026";
  author_id = "ann";
  payload = object (member "a" (text "x") (member "b" (array (item null nil)) end));
}

creates_first : create_record_envelope any_stamp (note "1") ≡ ok (noted "1")
unfolding encoding normalize_items
creates_first = refl

creates_second : create_record_envelope any_stamp (note "02") ≡ ok (noted "02")
unfolding encoding normalize_items
creates_second = refl

create_record_envelope_again_example :
    create_record_envelope any_stamp (envelope_members (noted "1")) ≡ ok (noted "1")
create_record_envelope_again_example =
    create_record_envelope_again any_stamp (note "1") (noted "1") creates_first

abbrev notes : List Members
notes = note "1" ∷ note "02" ∷ []

reduces_notes :
    reduce_record_envelopes any_stamp length_collation notes ≡ ok (noted "1" ∷ noted "02" ∷ [])
unfolding encoding normalize_items records_by_id reduce_record_envelopes Envelope-discrete
reduces_notes = refl

-- Of two texts of different lengths, different ones are told apart.
pair_apart :
    (a b s t : String)
    → length_collation.locale_compare a b ≢ Ordering.eq
    → length_collation.locale_compare b a ≢ Ordering.eq
    → (s ≡ a) ⊎ (s ≡ b)
    → (t ≡ a) ⊎ (t ≡ b)
    → s ≢ t
    → length_collation.locale_compare s t ≢ Ordering.eq
pair_apart a b s t u v (inl p) (inl q) n = absurd (n (p ∙ sym q))
pair_apart a b s t u v (inl p) (inr q) n = rw (p, q) u
pair_apart a b s t u v (inr p) (inl q) n = rw (p, q) v
pair_apart a b s t u v (inr p) (inr q) n = absurd (n (p ∙ sym q))

noted_id :
    (d : Members) (x : RecordEnvelope)
    → Occurs d notes
    → create_record_envelope any_stamp d ≡ ok x
    → (x.id ≡ "1") ⊎ (x.id ≡ "02")
noted_id d x (here e) h =
    inl (ap (λ (r : RecordEnvelope). r.id) (eq_of_ok x (noted "1") (sym h ∙ rw e creates_first)))
noted_id d x (there (here e)) h =
    inr (ap (λ (r : RecordEnvelope). r.id) (eq_of_ok x (noted "02") (sym h ∙ rw e creates_second)))
noted_id d x (there (there o)) h = absurd (Occurs-nil o)

notes_apart :
    (d e : Members) (x y : RecordEnvelope)
    → Occurs d notes
    → Occurs e notes
    → create_record_envelope any_stamp d ≡ ok x
    → create_record_envelope any_stamp e ≡ ok y
    → x.id ≢ y.id
    → length_collation.locale_compare x.id y.id ≢ Ordering.eq
notes_apart d e x y o p h k n =
    pair_apart "1" "02" x.id y.id (λ q. cc) (λ q. cc) (noted_id d x o h) (noted_id e y p k) n

reduce_record_envelopes_same_example :
    reduce_record_envelopes any_stamp length_collation (note "02" ∷ note "1" ∷ note "02" ∷ [])
    ≡ ok (noted "1" ∷ noted "02" ∷ [])
reduce_record_envelopes_same_example =
    reduce_record_envelopes_same any_stamp length_collation notes
      (note "02" ∷ note "1" ∷ note "02" ∷ []) (noted "1" ∷ noted "02" ∷ [])
      (SameSet-turned (note "1") (note "02")) notes_apart reduces_notes

abbrev weeding : Listing
weeding = record digging { id = "other" }

abbrev weeding_record : RecordEnvelope
weeding_record = envelope_of "other" "peer-hours/published-listing/v1" "ann" (listing_view weeding)

writes_weeding : to_published_listing_record any_stamp weeding (by_author "ann") ≡ ok weeding_record
unfolding encoding to_published_listing_record
writes_weeding = refl

reads_weeding :
    decode_published_listing_record any_stamp (object (envelope_members weeding_record))
    ≡ ok weeding
reads_weeding =
    decode_published-to_published any_stamp weeding (by_author "ann") weeding_record writes_weeding

abbrev offers : List Json
offers = object (envelope_members weeding_record) ∷ digging_json ∷ []

abbrev listing_id : Listing → String
listing_id l = l.id

reduces_offers :
    reduce_records any_stamp published_listing_form length_collation listing_id offers "c"
    ≡ ok (digging ∷ weeding ∷ [])
unfolding encoding normalize_record assert_timebank_envelope assert_record_kind
    assert_envelope_matches_payload decode_record decode_own reduce_records Listing-discrete
reduces_offers = refl

offered_id :
    (j : Json) (l : Listing)
    → Occurs j offers
    → decode_record any_stamp published_listing_form j ≡ ok l
    → (l.id ≡ "other") ⊎ (l.id ≡ "l")
unfolding decode_published_listing_record
offered_id j l (here e) h = inl (ap listing_id (eq_of_ok l weeding (sym h ∙ rw e reads_weeding)))
offered_id j l (there (here e)) h =
    inr (ap listing_id (eq_of_ok l digging (sym h ∙ rw e reads_listing)))
offered_id j l (there (there o)) h = absurd (Occurs-nil o)

offers_apart :
    (i j : Json) (l m : Listing)
    → Occurs i offers
    → Occurs j offers
    → decode_record any_stamp published_listing_form i ≡ ok l
    → decode_record any_stamp published_listing_form j ≡ ok m
    → l.id ≢ m.id
    → length_collation.locale_compare l.id m.id ≢ Ordering.eq
offers_apart i j l m o p h k n =
    pair_apart "other" "l" l.id m.id (λ q. cc) (λ q. cc) (offered_id i l o h) (offered_id j m p k) n

reduce_records_same_example :
    reduce_records any_stamp published_listing_form length_collation listing_id
      (digging_json ∷ object (envelope_members weeding_record) ∷ digging_json ∷ [])
      "c"
    ≡ ok (digging ∷ weeding ∷ [])
reduce_records_same_example =
    reduce_records_same any_stamp published_listing_form length_collation listing_id "c" offers
      (digging_json ∷ object (envelope_members weeding_record) ∷ digging_json ∷ [])
      (digging ∷ weeding ∷ [])
      (SameSet-turned (object (envelope_members weeding_record)) digging_json) offers_apart
      reduces_offers

reduce_records_iff_example : Occurs weeding (digging ∷ weeding ∷ []) ↔ (
    (j : Json) × Occurs j offers
    × (decode_record any_stamp published_listing_form j ≡ ok weeding)
    × (weeding.community_id ≡ "c"))
reduce_records_iff_example =
    reduce_records_iff any_stamp published_listing_form length_collation listing_id "c" offers
      (digging ∷ weeding ∷ []) weeding reduces_offers

-- Stand-ins for the runtime's parsers and for the verification.
abbrev pub any_key : String → Option String
any_key pem = some pem

abbrev pub same_text : String → String
same_text s = s

abbrev pub root_signs : {P : Type 0} → P → String → String → Result Bool
root_signs payload pem signature = ok (pem == signature)

abbrev signed_digging : Members
signed_digging =
    member "signingKeyId" (text "k")
      (member "signature" (text "pem") (envelope_members digging_record))

abbrev ann_key : MemberSigningKeyAuthorization
ann_key = record {
  community_id = "c";
  member_id = "ann";
  key_id = "k";
  public_key_pem = "pem";
  active = true;
}

verifies :
    verify_member_signed_record any_stamp any_key any_stamp root_signs signed_digging (ann_key ∷ [])
    ≡ ok true
unfolding encoding create_authorization index_key index_authorized_keys verify_member_signature
    Signed.assert_text create_member_signed_record verify_member_signed_record
verifies = refl

abbrev pub test_runtime : Runtime
test_runtime = record {
  collation = length_collation;
  is_canonical = any_stamp;
  fingerprint = any_key;
  hash = same_text;
  digest = λ t. t.id;
  is_signature = any_stamp;
  verify_terms = root_signs;
  verify_record = root_signs;
  verify_declaration = root_signs;
  verify_lifecycle = root_signs;
}

abbrev pub zeros : String
zeros = "0000000000000000000000000000000000000000000000000000000000000000"

abbrev ones : String
ones = "1111111111111111111111111111111111111111111111111111111111111111"

zeros_apart : zeros ≢ ones
unfolding String-discrete
zeros_apart e =
    let same : (zeros == ones) ≡ true =
      subst (λ s. (s == ones) ≡ true) (sym e) (==_refl {A = String} ones) in
    let other : (zeros == ones) ≡ false = refl in cc

abbrev pub declares : String → MemberFeedDeclaration
declares feed = record {
  schema = declaration_schema;
  terms = record {
    member_id = "phm_root";
    community_id = "c";
    feed_public_key = feed;
    occurred_at = "2026";
    root_public_key_pem = "root";
  };
  signature = "root";
}

abbrev pub declaring : String → Members
declaring feed = envelope_members (record {
  id = declaration_record_id (declares feed);
  schema = member_feed_declaration_record_schema;
  version = whole (pos 1);
  kind = member_feed_declaration_record_kind;
  community_id = "c";
  occurred_at = "2026";
  author_id = "phm_root";
  payload = object (declaration_view (declares feed));
})

unfoldable pub declared : Unit {0}
unfolding encoding is_lower_hex is_hypercore_key assert_canonical_hypercore_key
    create_self_owned_identity assert_root_signature canonical_declaration_payload
    create_declaration declaration_view Declarations.read_text read_declaration differs
    declaration_from_record utf16_length assert_present Events.assert_canonical_timestamp
declared = tt

pub declares-zeros :
    declaration_from_record any_key any_stamp same_text any_stamp root_signs (declaring zeros)
    ≡ ok (declares zeros)
unfolding declared
declares-zeros = refl

declares-ones :
    declaration_from_record any_key any_stamp same_text any_stamp root_signs (declaring ones)
    ≡ ok (declares ones)
unfolding declared
declares-ones = refl

abbrev root_twice : List MemberSigningKeyAuthorization
root_twice = root_authorization (declares zeros) ∷ root_authorization (declares ones) ∷ []

authorizes_twice :
    declarations_to_authorizations any_key any_stamp same_text any_stamp root_signs length_collation
      (declaring zeros ∷ declaring ones ∷ [])
    ≡ ok root_twice
unfolding declared Declaration-discrete declarations_by_feed declarations_to_authorizations
authorizes_twice = refl

two_feeds-unindexed_example :
    index_authorized_keys any_key any_stamp empty_index root_twice ≢ ok empty_index
two_feeds-unindexed_example =
    two_feeds-unindexed any_key any_stamp same_text any_stamp root_signs length_collation
      (declaring zeros ∷ declaring ones ∷ []) (declaring zeros) (declaring ones) (declares zeros)
      (declares ones) root_twice empty_index authorizes_twice (here refl) (there (here refl))
      declares-zeros declares-ones refl refl zeros_apart
