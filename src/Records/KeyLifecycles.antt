-- ===== src/Records/KeyLifecycles.antt =====
-- Records of root-signed key lifecycles, in
-- packages/timebank-records/src/root-signed-key-lifecycle-records.ts.
use peer_hours.Prelude.{
  Bool, not, ◌||◌, String, Option, List, [], ◌∷◌, contains, ◌==◌, ◌!=◌, text_equality, pos,
  if◌then◌else◌, Result, ok, err, throw_if, ◌>>=◌, ◌>>◌, lifecycle_record, bad_statement,
  mismatched, unproven,
}
use peer_hours.Script.Number.{whole, strictly_equal}
use peer_hours.Script.Collation.{Collation}
use peer_hours.Identity.Events.{
  MemberSigningKeyAuthorization, AuthorizationAction, activate, revoke, key_for,
}
use peer_hours.Identity.Owned.{
  DeclarationTerms, LifecycleTerms, RootSignedLifecycle, create_lifecycle,
}
use peer_hours.Identity.Lifecycles.{reduce_lifecycles}
use peer_hours.Records.Json.{Json, text, object, Members, end, member, field}
use peer_hours.Records.Envelope.{RecordEnvelope, envelope_members, create_record_envelope}
use peer_hours.Records.Timebank.{reads}
use peer_hours.Records.Declarations.{declaration_from_record, member_feed_declaration_record_kind}
use peer_hours.Records.KeyEvents.{read_text, read_event, action_text, key_members}

abbrev pub root_signed_key_activation_record_kind : String
root_signed_key_activation_record_kind = "identity.root-signed-member-key.activate"

abbrev pub root_signed_key_revocation_record_kind : String
root_signed_key_revocation_record_kind = "identity.root-signed-member-key.revoke"

abbrev pub lifecycle_kind_for : AuthorizationAction → String
lifecycle_kind_for (activate pem) = root_signed_key_activation_record_kind
lifecycle_kind_for revoke = root_signed_key_revocation_record_kind

unfoldable pub lifecycle_view : RootSignedLifecycle → Members
lifecycle_view s = member "action" (text (action_text s.event.action)) (
    member "communityId" (text s.event.community_id) (
      member "eventId" (text s.event.event_id) (
        member "keyId" (text s.event.key_id) (
          member "memberId" (text s.event.member_id) (
            member "occurredAt" (text s.event.occurred_at) (
              key_members s.event.action (
                member "rootPublicKeyPem" (text s.root_public_key_pem) (
                  member "schema" (text s.schema)
                    (member "signature" (text s.signature) end)))))))))

-- `normalizedRecord.payload as unknown as RootSignedMemberSigningKeyLifecycle`
unfoldable pub read_lifecycle : Json → Result RootSignedLifecycle
unfolding read_text read_event
read_lifecycle (object s) = do
  schema ← read_text (field s "schema")
  event ← read_event s
  root ← read_text (field s "rootPublicKeyPem")
  signature ← read_text (field s "signature")
  ok (record {
    schema = schema;
    terms = record { event = event; root_public_key_pem = root };
    signature = signature;
  })
read_lifecycle _ = err (lifecycle_record bad_statement)

abbrev pub statement_or : {A : Type 0} → Result A → Result A
statement_or (ok value) = ok value
statement_or (err _) = err (lifecycle_record bad_statement)

unfoldable pub lifecycle_differs : RecordEnvelope → RootSignedLifecycle → Bool
lifecycle_differs r s =
    r.schema != "peer-hours/timebank-record"
    || not (strictly_equal r.version (whole (pos 1)))
    || r.kind != lifecycle_kind_for s.event.action
    || r.id != s.event.event_id
    || r.community_id != s.event.community_id
    || r.author_id != s.event.member_id
    || r.occurred_at != s.event.occurred_at

abbrev pub root_key : String → String → String → String
root_key community owner root = key_for community owner root

unfoldable pub is_lifecycle_record : RecordEnvelope → Bool
is_lifecycle_record r =
    r.kind == root_signed_key_activation_record_kind
    || r.kind == root_signed_key_revocation_record_kind

module _ (fingerprint : String → Option String) (is_canonical : String → Bool)
    (hash : String → String) (is_signature : String → Bool)
    (verify_lifecycle : LifecycleTerms → String → String → Result Bool) where
  unfoldable pub lifecycle_to_record : RootSignedLifecycle → Result RecordEnvelope
  lifecycle_to_record statement = do
    s ← create_lifecycle fingerprint is_canonical hash is_signature verify_lifecycle statement
    create_record_envelope is_canonical (
        envelope_members (record {
          id = s.event.event_id;
          schema = "peer-hours/timebank-record";
          version = whole (pos 1);
          kind = lifecycle_kind_for s.event.action;
          community_id = s.event.community_id;
          occurred_at = s.event.occurred_at;
          author_id = s.event.member_id;
          payload = object (lifecycle_view s);
        }))

  unfoldable pub lifecycle_from_record : Members → Result RootSignedLifecycle
  unfolding lifecycle_differs
  lifecycle_from_record input = do
    r ← create_record_envelope is_canonical input
    statement ← statement_or (do
      given ← read_lifecycle r.payload
      create_lifecycle fingerprint is_canonical hash is_signature verify_lifecycle given)
    throw_if (lifecycle_differs r statement) (lifecycle_record mismatched)
    ok statement

  -- `lifecycleRecords.map(rootSignedMemberSigningKeyLifecycleFromRecord)`
  unfoldable pub lifecycles_from_records : List Members → Result (List RootSignedLifecycle)
  lifecycles_from_records [] = ok []
  lifecycles_from_records (r ∷ records) = do
    statement ← lifecycle_from_record r
    statements ← lifecycles_from_records records
    ok (statement ∷ statements)

  unfoldable pub assert_proven : List String → List RootSignedLifecycle → Result (Unit {0})
  assert_proven roots [] = ok tt
  assert_proven roots (s ∷ statements) = do
    throw_if
        (not
          (contains roots (root_key s.event.community_id s.event.member_id s.root_public_key_pem)))
        (lifecycle_record unproven)
    assert_proven roots statements

  module _ (verify_declaration : DeclarationTerms → String → String → Result Bool) where
    -- The loop that fills `declaredRoots`.
    unfoldable pub declared_roots : List Members → Result (List String)
    declared_roots [] = ok []
    declared_roots (r ∷ records) =
        let rest = declared_roots records in
        if not (reads (field r "kind") member_feed_declaration_record_kind) then rest else do
          d ←
              declaration_from_record fingerprint is_canonical hash is_signature verify_declaration
                r
          roots ← rest
          ok (root_key d.community_id d.member_id d.root_public_key_pem ∷ roots)

    unfoldable pub reduce_proven_lifecycles :
        Collation → List Members → List Members → Result (List MemberSigningKeyAuthorization)
    reduce_proven_lifecycles c lifecycle_records declaration_records = do
      roots ← declared_roots declaration_records
      statements ← lifecycles_from_records lifecycle_records
      assert_proven roots statements
      reduce_lifecycles fingerprint is_canonical hash is_signature verify_lifecycle c statements
