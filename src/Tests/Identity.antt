-- ===== src/Tests/Identity.antt =====
-- A key of ann, activated and then revoked.
use peer_hours.Prelude.{
  eq_of_ok, ==_refl, none, pos, All, Result, ◌==◌, text_equality, ℤ-discrete, String, Option, ◌≡◌,
  ◌≢◌, refl, some, Bool, true, false, List, [], ◌∷◌, ok, Occurs, here, there, Occurs-nil,
  SameSet-turned, String-discrete, ℕ_discrete, Ordering,
}
use peer_hours.Script.Text.{is_blank}
use peer_hours.Script.Map.{get, set}
use peer_hours.Script.Sort.{sort}
use peer_hours.Script.Collation.{length_collation}
use peer_hours.Script.Collect.{collect}
use peer_hours.Script.Number.{whole, is_bad_amount, is_finite, is_integer, less, Number-discrete}
use peer_hours.Ledger.Types.{TransferAttestation, TransferTerms, Transfer}
use peer_hours.Ledger.Transfers.{
  create_transfer, create_transfer_terms, assert_attestation, normalize_attestations,
}
use peer_hours.Identity.Verifier.{
  KeyIndex, index_key, index_authorized_keys, verify_member_signature, verify_attestation,
  assert_each_authorized, assert_authorized_attestations,
}
use peer_hours.Script.Text.Separated.{nuls}
use peer_hours.Identity.Verifier.Indexed.{IsSeparable}
use peer_hours.Identity.Verifier.Admitted.{IsAuthorized, admitted-IsAuthorized}
use peer_hours.Identity.Events.{
  key_for, MemberSigningKeyAuthorization, MemberSigningKeyAuthorizationEvent, AuthorizationAction,
  activate, revoke, Event-discrete, ActivationTerms-discrete, create_authorization, create_event,
  events_by_id, activations, assert_not_reassigned, apply_event, apply_events, reduce_events,
}
use peer_hours.Identity.Owned.{
  RootSignedLifecycle, lifecycle_schema, create_self_owned_identity, assert_root_signature,
  canonical_lifecycle_payload, create_lifecycle,
}
use peer_hours.Identity.Lifecycles.{
  Lifecycle-discrete, assert_not_retired, lifecycles_by_id, reduce_lifecycles,
}
use peer_hours.Identity.Lifecycles.Reduced.{reduce_lifecycles-revoked, reduce_lifecycles_same}
use peer_hours.Identity.Attesting.{create_participant_attestation}
use peer_hours.Identity.Attesting.Verified.{verify_attestation-create}

-- Stand-ins for the runtime's parsers.
abbrev any_key : String → Option String
any_key pem = some pem

abbrev any_date : String → Bool
any_date value = true

abbrev event : String → String → AuthorizationAction → MemberSigningKeyAuthorizationEvent
event id at action = record {
  event_id = id;
  community_id = "c";
  member_id = "ann";
  key_id = "k";
  occurred_at = at;
  action = action;
}

abbrev activation : MemberSigningKeyAuthorizationEvent
activation = event "e" "1" (activate "pem")

abbrev revocation : MemberSigningKeyAuthorizationEvent
revocation = event "later" "2" revoke

abbrev revoked : List MemberSigningKeyAuthorization
revoked =
    record {
      community_id = "c";
      member_id = "ann";
      key_id = "k";
      public_key_pem = "pem";
      active = false;
    }
    ∷ []

reduces :
    reduce_events any_key any_date length_collation (revocation ∷ activation ∷ []) ≡ ok revoked
unfolding is_blank get set sort collect create_authorization create_event events_by_id activations
    assert_not_reassigned apply_event apply_events reduce_events String-discrete Event-discrete
    ActivationTerms-discrete ℕ_discrete
reduces = refl

events_apart :
    (d e : MemberSigningKeyAuthorizationEvent)
    → Occurs d (revocation ∷ activation ∷ [])
    → Occurs e (revocation ∷ activation ∷ [])
    → d.event_id ≢ e.event_id
    → length_collation.locale_compare d.event_id e.event_id ≢ Ordering.eq
events_apart d e (here p) (here q) n = absurd (n (rw (p, q) refl))
events_apart d e (here p) (there (here q)) n = rw (p, q) (λ x. cc)
events_apart d e (there (here p)) (here q) n = rw (p, q) (λ x. cc)
events_apart d e (there (here p)) (there (here q)) n = absurd (n (rw (p, q) refl))
events_apart d e (there (there o)) q n = absurd (Occurs-nil o)
events_apart d e (here p) (there (there o)) n = absurd (Occurs-nil o)
events_apart d e (there (here p)) (there (there o)) n = absurd (Occurs-nil o)

abbrev key_of_member : String → String → MemberSigningKeyAuthorization
key_of_member member pem = record {
  community_id = "c";
  member_id = member;
  key_id = member;
  public_key_pem = pem;
  active = true;
}

abbrev keys : List MemberSigningKeyAuthorization
keys = key_of_member "ann" "pem of ann" ∷ key_of_member "bob" "pem of bob" ∷ []

abbrev id_digest : TransferTerms → String
id_digest t = t.id

abbrev any_signature : String → Bool
any_signature s = true

abbrev signs_with_pem : TransferTerms → String → String → Result Bool
signs_with_pem t pem signature = ok (pem == signature)

abbrev help : Transfer
help = record {
  terms = record {
    id = "t";
    community_id = "c";
    source_proposal_id = some "p";
    provider_member_id = "ann";
    recipient_member_id = "bob";
    minutes = whole (pos 60);
    reverses_transfer_id = none;
  };
  attestations =
      record { member_id = "ann"; key_id = "ann"; payload_digest = "t"; signature = "pem of ann" }
      ∷ record { member_id = "bob"; key_id = "bob"; payload_digest = "t"; signature = "pem of bob" }
      ∷ [];
}

admits :
    assert_authorized_attestations any_key any_date id_digest any_signature signs_with_pem help keys
    ≡ ok help
unfolding is_blank get set is_bad_amount is_finite is_integer less create_transfer
    create_transfer_terms assert_attestation normalize_attestations create_authorization index_key
    index_authorized_keys verify_member_signature verify_attestation assert_each_authorized
    assert_authorized_attestations String-discrete ℕ_discrete ℤ-discrete Number-discrete
admits = refl

keys-IsSeparable : All IsSeparable keys
unfolding nuls ℕ_discrete
keys-IsSeparable = (
  record { community = refl; member = refl; key = refl },
  (record { community = refl; member = refl; key = refl }, tt),
)

admitted-IsAuthorized_example :
    (create_transfer help ≡ ok help)
    × All
        (IsAuthorized any_key any_date id_digest any_signature signs_with_pem keys help)
        help.attestations
admitted-IsAuthorized_example =
    admitted-IsAuthorized any_key any_date id_digest any_signature signs_with_pem help help keys
      keys-IsSeparable admits

-- A root key signs that the member's key is activated, and later that it is revoked.
abbrev same_text : String → String
same_text s = s

abbrev root_signs : {P : Type 0} → P → String → String → Result Bool
root_signs payload pem signature = ok (pem == signature)

abbrev statement : MemberSigningKeyAuthorizationEvent → RootSignedLifecycle
statement e = record {
  schema = lifecycle_schema;
  terms = record { event = record e { member_id = "phm_root" }; root_public_key_pem = "root" };
  signature = "root";
}

abbrev key_off : MemberSigningKeyAuthorization
key_off = record {
  community_id = "c";
  member_id = "phm_root";
  key_id = "k";
  public_key_pem = "pem";
  active = false;
}

abbrev owned_off : List MemberSigningKeyAuthorization
owned_off = key_off ∷ []

abbrev statements : List RootSignedLifecycle
statements = statement revocation ∷ statement activation ∷ []

reduces_statements :
    reduce_lifecycles any_key any_date same_text any_signature root_signs length_collation
      statements
    ≡ ok owned_off
unfolding is_blank get set sort collect create_authorization create_event events_by_id activations
    assert_not_reassigned apply_event apply_events reduce_events String-discrete Event-discrete
    ActivationTerms-discrete ℕ_discrete create_self_owned_identity assert_root_signature
    canonical_lifecycle_payload create_lifecycle Lifecycle-discrete assert_not_retired
    lifecycles_by_id reduce_lifecycles
reduces_statements = refl

reduce_lifecycles-revoked_example : key_off.active ≡ false
reduce_lifecycles-revoked_example =
    reduce_lifecycles-revoked any_key any_date same_text any_signature root_signs length_collation
      statements owned_off (statement revocation) key_off reduces_statements (here refl) refl
      (here refl) refl

statements_apart :
    (s t : RootSignedLifecycle)
    → Occurs s statements
    → Occurs t statements
    → s.event.event_id ≢ t.event.event_id
    → length_collation.locale_compare s.event.event_id t.event.event_id ≢ Ordering.eq
statements_apart s t (here p) (here q) n = absurd (n (rw (p, q) refl))
statements_apart s t (here p) (there (here q)) n = rw (p, q) (λ x. cc)
statements_apart s t (there (here p)) (here q) n = rw (p, q) (λ x. cc)
statements_apart s t (there (here p)) (there (here q)) n = absurd (n (rw (p, q) refl))
statements_apart s t (there (there o)) q n = absurd (Occurs-nil o)
statements_apart s t (here p) (there (there o)) n = absurd (Occurs-nil o)
statements_apart s t (there (here p)) (there (there o)) n = absurd (Occurs-nil o)

reduce_lifecycles_same_example :
    reduce_lifecycles any_key any_date same_text any_signature root_signs length_collation
      (statement activation ∷ statement revocation ∷ statement activation ∷ [])
    ≡ ok owned_off
reduce_lifecycles_same_example =
    reduce_lifecycles_same any_key any_date same_text any_signature root_signs length_collation
      statements (statement activation ∷ statement revocation ∷ statement activation ∷ []) owned_off
      (SameSet-turned (statement revocation) (statement activation)) statements_apart
      reduces_statements

abbrev custodian : TransferTerms → Result String
custodian t = ok "pem of ann"

abbrev by_ann : TransferAttestation
by_ann = record {
  member_id = "ann";
  key_id = "ann";
  payload_digest = "t";
  signature = "pem of ann";
}

attests :
    create_participant_attestation id_digest any_signature custodian help.terms "ann" "ann"
    ≡ ok by_ann
unfolding is_blank is_bad_amount is_finite is_integer less create_transfer_terms
    create_participant_attestation String-discrete ℕ_discrete ℤ-discrete Number-discrete
attests = refl

creates_help : create_transfer help ≡ ok help
unfolding is_blank get set is_bad_amount is_finite is_integer less create_transfer
    create_transfer_terms assert_attestation normalize_attestations String-discrete ℕ_discrete
    ℤ-discrete Number-discrete
creates_help = refl

abbrev ann_index : KeyIndex
ann_index = record {
  keys = (key_for "c" "ann" "ann", "pem of ann") ∷ [];
  authorization_ids = [];
  key_owners = [];
}

knows_ann : get ann_index.keys (key_for help.community_id "ann" "ann") ≡ some "pem of ann"
unfolding get String-discrete
knows_ann = refl

genuine :
    (signature : String)
    → custodian help.terms ≡ ok signature
    → signs_with_pem help.terms "pem of ann" signature ≡ ok true
genuine signature h =
    rw (← eq_of_ok "pem of ann" signature h, ==_refl {A = String} "pem of ann") refl

verify_attestation-create_example :
    verify_attestation any_key any_date id_digest any_signature signs_with_pem ann_index help by_ann
    ≡ ok true
verify_attestation-create_example =
    verify_attestation-create any_key any_date id_digest any_signature signs_with_pem custodian
      ann_index help help "ann" "ann" "pem of ann" by_ann attests creates_help knows_ann genuine
