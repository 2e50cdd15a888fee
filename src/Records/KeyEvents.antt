-- ===== src/Records/KeyEvents.antt =====
-- Records of signing key events: packages/timebank-records/src/identity-records.ts.
use peer_hours.Prelude.{
  Bool, not, ◌||◌, String, Option, some, List, [], ◌∷◌, ◌!=◌, text_equality, pos, if◌then◌else◌,
  Result, ok, err, throw_if, ◌>>=◌, ◌>>◌, IdentityRecordRule, identity_record, not_event, bad_event,
  wrong_timestamp,
}
use peer_hours.Script.Number.{Number, whole, strictly_equal}
use peer_hours.Script.Collation.{Collation}
use peer_hours.Identity.Events.{
  MemberSigningKeyAuthorization, MemberSigningKeyAuthorizationEvent, AuthorizationAction, activate,
  revoke, create_event, reduce_events,
}
use peer_hours.Records.Json.{Json, text, object, Members, end, member, field}
use peer_hours.Records.Envelope.{RecordEnvelope, envelope_members, create_record_envelope}
use peer_hours.Records.Timebank.{reads}

abbrev pub identity_key_activation_record_kind : String
identity_key_activation_record_kind = "identity.member-signing-key.activate"

abbrev pub identity_key_revocation_record_kind : String
identity_key_revocation_record_kind = "identity.member-signing-key.revoke"

abbrev pub identity_record_schema : String
identity_record_schema = "peer-hours/timebank-record"

abbrev pub identity_record_version : Number
identity_record_version = whole (pos 1)

abbrev pub record_kind_for : AuthorizationAction → String
record_kind_for (activate pem) = identity_key_activation_record_kind
record_kind_for revoke = identity_key_revocation_record_kind

-- What stands of the action in the object, before the fields that all events have.
abbrev pub key_members : AuthorizationAction → Members → Members
key_members (activate pem) rest = member "publicKeyPem" (text pem) rest
key_members revoke rest = rest

abbrev pub action_text : AuthorizationAction → String
action_text (activate pem) = "activate"
action_text revoke = "revoke"

unfoldable pub event_view : MemberSigningKeyAuthorizationEvent → Members
event_view e = member "action" (text (action_text e.action)) (
    member "communityId" (text e.community_id) (
      member "eventId" (text e.event_id) (
        member "keyId" (text e.key_id) (
          member "memberId" (text e.member_id)
            (member "occurredAt" (text e.occurred_at) (key_members e.action end))))))

-- Every value of another type is refused by the constructor of events, whose error is not kept.
unfoldable pub read_text : Option Json → Result String
read_text (some (text s)) = ok s
read_text _ = err (identity_record bad_event)

unfoldable pub read_action : Members → Result AuthorizationAction
unfolding read_text
read_action e =
    if reads (field e "action") "activate"
    then (do pem ← read_text (field e "publicKeyPem"); ok (activate pem))
    else if reads (field e "action") "revoke"
    then ok revoke
    else err (identity_record bad_event)

unfoldable pub read_event : Members → Result MemberSigningKeyAuthorizationEvent
unfolding read_text read_action
read_event e = do
  id ← read_text (field e "eventId")
  community ← read_text (field e "communityId")
  owner ← read_text (field e "memberId")
  key ← read_text (field e "keyId")
  occurred ← read_text (field e "occurredAt")
  action ← read_action e
  ok (record {
    event_id = id;
    community_id = community;
    member_id = owner;
    key_id = key;
    occurred_at = occurred;
    action = action;
  })

-- `isAuthorizationEvent`, with the error of its caller.
unfoldable pub as_event : Json → Result Members
as_event (object e) = do
  throw_if (not (reads (field e "action") "activate" || reads (field e "action") "revoke"))
      (identity_record not_event)
  ok e
as_event _ = err (identity_record not_event)

abbrev pub event_or : {A : Type 0} → Result A → Result A
event_or (ok value) = ok value
event_or (err _) = err (identity_record bad_event)

unfoldable pub assert_event_matches :
    RecordEnvelope → MemberSigningKeyAuthorizationEvent → Result (Unit {0})
assert_event_matches r e = do
  throw_if
      (r.schema != identity_record_schema
        || not (strictly_equal r.version identity_record_version)
        || r.kind != record_kind_for e.action)
      (identity_record IdentityRecordRule.wrong_kind)
  throw_if (r.id != e.event_id) (identity_record IdentityRecordRule.wrong_id)
  throw_if (r.author_id != e.member_id) (identity_record IdentityRecordRule.wrong_author)
  throw_if (r.community_id != e.community_id) (identity_record IdentityRecordRule.wrong_community)
  throw_if (r.occurred_at != e.occurred_at) (identity_record wrong_timestamp)

module _ (fingerprint : String → Option String) (is_canonical : String → Bool) where
  unfoldable pub event_to_record : MemberSigningKeyAuthorizationEvent → Result RecordEnvelope
  event_to_record event = do
    e ← create_event fingerprint is_canonical event
    create_record_envelope is_canonical (
        envelope_members (record {
          id = e.event_id;
          schema = identity_record_schema;
          version = identity_record_version;
          kind = record_kind_for e.action;
          community_id = e.community_id;
          occurred_at = e.occurred_at;
          author_id = e.member_id;
          payload = object (event_view e);
        }))

  unfoldable pub event_from_record : Members → Result MemberSigningKeyAuthorizationEvent
  unfolding as_event assert_event_matches
  event_from_record input = do
    r ← create_record_envelope is_canonical input
    payload ← as_event r.payload
    event ← event_or (do given ← read_event payload; create_event fingerprint is_canonical given)
    assert_event_matches r event
    ok event

  -- `records.map(memberSigningKeyAuthorizationEventFromRecord)`
  unfoldable pub events_from_records :
      List Members → Result (List MemberSigningKeyAuthorizationEvent)
  events_from_records [] = ok []
  events_from_records (r ∷ records) = do
    event ← event_from_record r
    events ← events_from_records records
    ok (event ∷ events)

  unfoldable pub reduce_event_records :
      Collation → List Members → Result (List MemberSigningKeyAuthorization)
  reduce_event_records c records = do
    events ← events_from_records records
    reduce_events fingerprint is_canonical c events
