-- ===== src/Records/Declarations.antt =====
-- Records of feed declarations: packages/timebank-records/src/self-owned-identity-records.ts. A
-- declaration is read from JSON field by field; where a value has another type, its constructor
-- throws, and so does the adapter. The one exception is refused here too: a feed key that is a list
-- of one key passes the source's regular expression, which reads it as a text. Further fields of a
-- declaration, which it keeps, are left out.
pub mod Shared
use Prim.Native.String.{◌++◌}
use peer_hours.Prelude.{
  Bool, true, not, ◌||◌, String, String-discrete, Option, none, some, List, [], ◌∷◌, map, ◌==◌,
  ◌!=◌, text_equality, pos, Ordering, Result, ok, err, throw_if, ◌>>=◌, ◌>>◌, DeclarationRecordRule,
  declaration_record, bad_declaration, mismatched,
}
use peer_hours.Script.Number.{Number, whole, strictly_equal}
use peer_hours.Script.Map.{Map, values}
use peer_hours.Script.Sort.{sort}
use peer_hours.Script.Collation.{Collation, is_negative}
use peer_hours.Script.Collect.{collect}
use peer_hours.Identity.Events.{MemberSigningKeyAuthorization, or_else, key_for}
use peer_hours.Identity.Owned.{DeclarationTerms, MemberFeedDeclaration, create_declaration}
use peer_hours.Records.Json.{Json, text, object, Members, end, member, field}
use peer_hours.Records.Envelope.{RecordEnvelope, envelope_members, create_record_envelope}

abbrev pub member_feed_declaration_record_kind : String
member_feed_declaration_record_kind = "identity.member-feed.declare"

abbrev pub member_feed_declaration_record_schema : String
member_feed_declaration_record_schema = "peer-hours/timebank-record"

abbrev pub member_feed_declaration_record_version : Number
member_feed_declaration_record_version = whole (pos 1)

-- The comparison of the JSON texts of two declarations.
instance unfoldable pub Declaration-discrete : Discrete MemberFeedDeclaration
unfolding String-discrete
Declaration-discrete = hlevel String-discrete

unfoldable pub declaration_view : MemberFeedDeclaration → Members
declaration_view d = member "communityId" (text d.community_id) (
    member "feedPublicKey" (text d.feed_public_key) (
      member "memberId" (text d.member_id) (
        member "occurredAt" (text d.occurred_at) (
          member "rootPublicKeyPem" (text d.root_public_key_pem)
            (member "schema" (text d.schema) (member "signature" (text d.signature) end))))))

unfoldable pub read_text : Option Json → Result String
read_text (some (text s)) = ok s
read_text _ = err (declaration_record bad_declaration)

-- `normalizedRecord.payload as unknown as MemberFeedDeclaration`
unfoldable pub read_declaration : Json → Result MemberFeedDeclaration
unfolding read_text
read_declaration (object d) = do
  schema ← read_text (field d "schema")
  owner ← read_text (field d "memberId")
  community ← read_text (field d "communityId")
  feed ← read_text (field d "feedPublicKey")
  occurred ← read_text (field d "occurredAt")
  root ← read_text (field d "rootPublicKeyPem")
  signature ← read_text (field d "signature")
  ok (record {
    schema = schema;
    terms = record {
      member_id = owner;
      community_id = community;
      feed_public_key = feed;
      occurred_at = occurred;
      root_public_key_pem = root;
    };
    signature = signature;
  })
read_declaration _ = err (declaration_record bad_declaration)

abbrev pub declaration_record_id : MemberFeedDeclaration → String
declaration_record_id d =
    "member-feed:" ++ (d.member_id ++ (":" ++ (d.community_id ++ (":" ++ d.feed_public_key))))

-- The envelope does not repeat the terms of the declaration.
unfoldable pub differs : RecordEnvelope → MemberFeedDeclaration → Bool
differs r d =
    r.schema != member_feed_declaration_record_schema
    || not (strictly_equal r.version member_feed_declaration_record_version)
    || r.kind != member_feed_declaration_record_kind
    || r.author_id != d.member_id
    || r.community_id != d.community_id
    || r.occurred_at != d.occurred_at
    || r.id != declaration_record_id d

abbrev pub declared_key : MemberFeedDeclaration → String
declared_key d = key_for d.community_id d.member_id d.feed_public_key

abbrev pub root_key_id_for_member : String → String
root_key_id_for_member id = "root:" ++ id

abbrev pub root_authorization : MemberFeedDeclaration → MemberSigningKeyAuthorization
root_authorization d = record {
  community_id = d.community_id;
  member_id = d.member_id;
  key_id = root_key_id_for_member d.member_id;
  public_key_pem = d.root_public_key_pem;
  active = true;
}

-- `try { ... } catch { throw ... }`
abbrev pub declared_or : {A : Type 0} → Result A → Result A
declared_or (ok value) = ok value
declared_or (err _) = err (declaration_record bad_declaration)

module _ (fingerprint : String → Option String) (is_canonical : String → Bool)
    (hash : String → String) (is_signature : String → Bool)
    (verify_declaration : DeclarationTerms → String → String → Result Bool) where
  abbrev pub checked_declaration : MemberFeedDeclaration → Result MemberFeedDeclaration
  checked_declaration =
      create_declaration fingerprint is_canonical hash is_signature verify_declaration

  unfoldable pub declaration_to_record : MemberFeedDeclaration → Result RecordEnvelope
  declaration_to_record declaration = do
    normalized ← checked_declaration declaration
    create_record_envelope is_canonical (
        envelope_members (record {
          id = declaration_record_id normalized;
          schema = member_feed_declaration_record_schema;
          version = member_feed_declaration_record_version;
          kind = member_feed_declaration_record_kind;
          community_id = normalized.community_id;
          occurred_at = normalized.occurred_at;
          author_id = normalized.member_id;
          payload = object (declaration_view normalized);
        }))

  unfoldable pub declaration_from_record : Members → Result MemberFeedDeclaration
  unfolding differs
  declaration_from_record input = do
    r ← create_record_envelope is_canonical input
    declaration ← declared_or (do given ← read_declaration r.payload; checked_declaration given)
    throw_if (differs r declaration) (declaration_record mismatched)
    ok declaration

  -- The loop of `memberFeedDeclarationsToAuthorizations`.
  unfoldable pub declarations_by_feed : List Members → Result (Map MemberFeedDeclaration)
  unfolding Declaration-discrete
  declarations_by_feed records =
      collect declaration_from_record declared_key
        (declaration_record DeclarationRecordRule.conflicting) [] records

  module _ (c : Collation) where
    abbrev pub declaration_order : MemberFeedDeclaration → MemberFeedDeclaration → Bool
    declaration_order left right = is_negative (
        or_else (c.locale_compare left.member_id right.member_id)
          (c.locale_compare left.feed_public_key right.feed_public_key))

    unfoldable pub declarations_to_authorizations :
        List Members → Result (List MemberSigningKeyAuthorization)
    declarations_to_authorizations records = do
      by_feed ← declarations_by_feed records
      ok (map root_authorization (sort declaration_order (values by_feed)))
