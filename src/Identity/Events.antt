-- ===== src/Identity/Events.antt =====
-- Signing key events and their reduction, in packages/timebank-identity/src/index.ts.
pub mod Reduced
use Prim.Native.String.{◌++◌}
use peer_hours.Prelude.{
  Bool, true, false, not, String, Option, none, some, List, [], ◌∷◌, map, text_equality,
  String-discrete, Ordering, Result, ok, err, throw_if, ◌>>=◌, ◌>>◌, IdentityRule, identity,
  required, bad_key, bad_timestamp, conflicting_events, reassigned_key,
}
use peer_hours.Script.Text.{is_blank}
use peer_hours.Script.Map.{Map, get, set, values}
use peer_hours.Script.Sort.{sort}
use peer_hours.Script.Collation.{Collation, is_negative}
use peer_hours.Script.Collect.{collect}

pub record MemberSigningKeyAuthorization : Type 0 where
  pub community_id : String
  pub member_id : String
  pub key_id : String
  pub public_key_pem : String
  pub active : Bool

-- The action of an event; an activation carries its public key.
pub data AuthorizationAction : Type 0 where
  activate : String → AuthorizationAction
  revoke : AuthorizationAction

pub record MemberSigningKeyAuthorizationEvent : Type 0 where
  pub event_id : String
  pub community_id : String
  pub member_id : String
  pub key_id : String
  pub occurred_at : String
  pub action : AuthorizationAction

pub record ReducedAuthorization : Type 0 where
  pub authorization : MemberSigningKeyAuthorization
  pub occurred_at : String
  pub event_id : String

instance unfoldable pub Event-discrete : Discrete MemberSigningKeyAuthorizationEvent
unfolding String-discrete
Event-discrete = hlevel String-discrete

-- A key of one member, with the fingerprint of its public key.
pub record ActivationTerms : Type 0 where
  pub key : String
  pub fingerprint : String

instance unfoldable pub ActivationTerms-discrete : Discrete ActivationTerms
unfolding String-discrete
ActivationTerms-discrete = hlevel String-discrete

unfoldable pub assert_present : String → String → Result (Unit {0})
assert_present value label = throw_if (is_blank value) (identity (IdentityRule.required label))

abbrev pub key_for : String → String → String → String
key_for community member key = community ++ ("\0" ++ (member ++ ("\0" ++ key)))

abbrev pub event_key : MemberSigningKeyAuthorizationEvent → String
event_key e = key_for e.community_id e.member_id e.key_id

abbrev pub event_id_of : MemberSigningKeyAuthorizationEvent → String
event_id_of e = e.event_id

abbrev pub terms_key : ActivationTerms → String
terms_key t = t.key

-- `a || b` of two comparisons.
abbrev pub or_else : Ordering → Ordering → Ordering
or_else Ordering.eq next = next
or_else first next = first

-- The runtime parses public keys and dates: `fingerprint` is the base64url text of the parsed key,
-- if it is an Ed25519 one, and `is_canonical` says that a text is the ISO text of its own date.
module _ (fingerprint : String → Option String) (is_canonical : String → Bool) where
  abbrev pub parse_key : String → Result String
  parse_key pem = elim (fingerprint pem) [ none ↦ err (identity bad_key) | some f ↦ ok f ]

  unfoldable pub assert_canonical_timestamp : String → Result (Unit {0})
  unfolding assert_present
  assert_canonical_timestamp value = do
    assert_present value "Authorization event timestamp"
    throw_if (not (is_canonical value)) (identity bad_timestamp)

  unfoldable pub create_authorization :
      MemberSigningKeyAuthorization → Result MemberSigningKeyAuthorization
  unfolding assert_present
  create_authorization input = do
    assert_present input.community_id "Community id"
    assert_present input.member_id "Member id"
    assert_present input.key_id "Signing key id"
    assert_present input.public_key_pem "Ed25519 public key"
    _ ← parse_key input.public_key_pem
    ok input

  abbrev pub assert_action : AuthorizationAction → Result (Unit {0})
  assert_action (activate pem) = do
    assert_present pem "Ed25519 public key"
    _ ← parse_key pem
    ok tt
  assert_action revoke = ok tt

  unfoldable pub create_event :
      MemberSigningKeyAuthorizationEvent → Result MemberSigningKeyAuthorizationEvent
  unfolding assert_present assert_canonical_timestamp
  create_event input = do
    assert_present input.event_id "Authorization event id"
    assert_present input.community_id "Community id"
    assert_present input.member_id "Member id"
    assert_present input.key_id "Signing key id"
    assert_canonical_timestamp input.occurred_at
    assert_action input.action
    ok input

  unfoldable pub events_by_id :
      List MemberSigningKeyAuthorizationEvent → Result (Map MemberSigningKeyAuthorizationEvent)
  unfolding Event-discrete
  events_by_id events = collect create_event event_id_of (identity conflicting_events) [] events

  -- The events that pass `event.action !== "activate"`.
  unfoldable pub activations : List MemberSigningKeyAuthorizationEvent → List (String × String)
  activations [] = []
  activations (e ∷ events) = elim e.action [
    | activate pem ↦ (event_key e, pem) ∷ activations events
    | revoke ↦ activations events
  ]

  abbrev pub activation_terms : String × String → Result ActivationTerms
  activation_terms (key, pem) = do f ← parse_key pem; ok (record { key = key; fingerprint = f })

  -- The loop over `activationTermsByKeyId`.
  unfoldable pub assert_not_reassigned :
      List MemberSigningKeyAuthorizationEvent → Result (Map ActivationTerms)
  unfolding activations ActivationTerms-discrete
  assert_not_reassigned events =
      collect activation_terms terms_key (identity reassigned_key) [] (activations events)

  -- One round of the last loop of `reduceMemberSigningKeyAuthorizationEvents`.
  unfoldable pub apply_event :
      Map ReducedAuthorization
      → MemberSigningKeyAuthorizationEvent
      → Result (Map ReducedAuthorization)
  apply_event current e = elim e.action [
    | activate pem ↦ do
      authorization ← create_authorization (record {
        community_id = e.community_id;
        member_id = e.member_id;
        key_id = e.key_id;
        public_key_pem = pem;
        active = true;
      })
      ok (
          set current (event_key e) (record {
            authorization = authorization;
            occurred_at = e.occurred_at;
            event_id = e.event_id;
          }))
    | revoke ↦ elim (get current (event_key e)) [
      | none ↦ ok current
      | some known ↦ do
        authorization ← create_authorization (record known.authorization { active = false })
        ok (
            set current (event_key e) (record {
              authorization = authorization;
              occurred_at = e.occurred_at;
              event_id = e.event_id;
            }))
    ]
  ]

  unfoldable pub apply_events :
      Map ReducedAuthorization
      → List MemberSigningKeyAuthorizationEvent
      → Result (Map ReducedAuthorization)
  apply_events current [] = ok current
  apply_events current (e ∷ events) = do
    current' ← apply_event current e
    apply_events current' events

  abbrev pub authorization_of : ReducedAuthorization → MemberSigningKeyAuthorization
  authorization_of r = r.authorization

  module _ (c : Collation) where
    abbrev pub event_order :
        MemberSigningKeyAuthorizationEvent → MemberSigningKeyAuthorizationEvent → Bool
    event_order left right = is_negative (
        or_else (c.locale_compare left.occurred_at right.occurred_at)
          (c.locale_compare left.event_id right.event_id))

    abbrev pub reduced_order : ReducedAuthorization → ReducedAuthorization → Bool
    reduced_order left right = is_negative (
        or_else (c.locale_compare left.occurred_at right.occurred_at) (
          or_else (c.locale_compare left.event_id right.event_id) (
            or_else
              (c.locale_compare left.authorization.community_id right.authorization.community_id)
              (or_else (c.locale_compare left.authorization.member_id right.authorization.member_id)
                (c.locale_compare left.authorization.key_id right.authorization.key_id)))))

    unfoldable pub reduce_events :
        List MemberSigningKeyAuthorizationEvent → Result (List MemberSigningKeyAuthorization)
    reduce_events events = do
      by_id ← events_by_id events
      _ ← assert_not_reassigned (values by_id)
      current ← apply_events [] (sort event_order (values by_id))
      ok (map authorization_of (sort reduced_order (values current)))
