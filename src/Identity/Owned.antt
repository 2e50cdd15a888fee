-- ===== src/Identity/Owned.antt =====
-- Identities that own themselves, in packages/timebank-identity/src/index.ts: the member id comes
-- from the root key, which signs where the member's feed is and which keys the member signs with.
-- What is signed is a function of the fields, so a record of these stands for the bytes.
pub mod Declared
use Prim.Native.Char.{code}
use Prim.Native.String.{◌++◌}
use peer_hours.Prelude.{
  ℕ, Bool, true, not, ◌&&◌, ◌||◌, String, String-discrete, Option, List, leb, ltb_ℤ, ℤ, ◌==◌, ◌!=◌,
  text_equality, count_equality, if◌then◌else◌, Result, ok, throw_if, ◌>>=◌, ◌>>◌, IdentityRule,
  identity, bad_schema, wrong_owner, bad_signature, bad_feed_key, expires_early,
}
use peer_hours.Script.Text.{utf16_length}
use peer_hours.Identity.Events.{
  MemberSigningKeyAuthorizationEvent, assert_present, parse_key, assert_canonical_timestamp,
  create_event,
}

pub record SelfOwnedMemberIdentity : Type 0 where
  pub member_id : String
  pub root_public_key_pem : String

-- What a root key signs to declare a feed; the schema in the bytes is a constant.
pub record DeclarationTerms : Type 0 where
  pub member_id : String
  pub community_id : String
  pub feed_public_key : String
  pub occurred_at : String
  pub root_public_key_pem : String

pub record MemberFeedDeclaration : Type 0 where
  pub schema : String
  pub terms : DeclarationTerms
  pub open terms use *
  pub signature : String

pub record AnnouncementTerms : Type 0 where
  pub declaration : MemberFeedDeclaration
  pub announced_at : String
  pub expires_at : String

pub record MemberFeedAnnouncement : Type 0 where
  pub schema : String
  pub terms : AnnouncementTerms
  pub open terms use *
  pub signature : String

-- What a root key signs to activate or to revoke a key.
pub record LifecycleTerms : Type 0 where
  pub event : MemberSigningKeyAuthorizationEvent
  pub root_public_key_pem : String

pub record RootSignedLifecycle : Type 0 where
  pub schema : String
  pub terms : LifecycleTerms
  pub open terms use *
  pub signature : String

abbrev pub declaration_schema : String
declaration_schema = "peer-hours/member-feed-declaration/v1"

abbrev pub announcement_schema : String
announcement_schema = "peer-hours/member-feed-announcement/v1"

abbrev pub lifecycle_schema : String
lifecycle_schema = "peer-hours/root-signed-member-key-lifecycle/v1"

-- `[a-f0-9]*`
unfoldable pub is_lower_hex : String → Bool
is_lower_hex String.[] = true
is_lower_hex (String.◌∷◌ c s) =
    (leb 97 (code c) && leb (code c) 102 || leb 48 (code c) && leb (code c) 57) && is_lower_hex s

-- `/^[a-f0-9]{64}$/`
unfoldable pub is_hypercore_key : String → Bool
is_hypercore_key value = is_lower_hex value && utf16_length value == 64

unfoldable pub assert_canonical_hypercore_key : String → Result (Unit {0})
assert_canonical_hypercore_key value =
    throw_if (not (is_hypercore_key value)) (identity bad_feed_key)

-- `hash` is the base64url text of the SHA-256 of a parsed key; `parse_date` is `Date.parse` of an
-- ISO text.
module _ (fingerprint : String → Option String) (is_canonical : String → Bool)
    (hash : String → String) (is_signature : String → Bool) where
  unfoldable pub create_self_owned_identity : String → Result SelfOwnedMemberIdentity
  unfolding assert_present
  create_self_owned_identity root = do
    assert_present root "Root public key"
    key ← parse_key fingerprint is_canonical root
    ok (record { member_id = "phm_" ++ hash key; root_public_key_pem = root })

  -- `signature === undefined || !verify(...)`; the verification itself may throw.
  unfoldable pub assert_root_signature :
      {P : Type 0} → (P → String → String → Result Bool) → P → String → String → Result (Unit {0})
  assert_root_signature verify payload root signature = do
    throw_if (not (is_signature signature)) (identity bad_signature)
    _ ← parse_key fingerprint is_canonical root
    valid ← verify payload root signature
    throw_if (not valid) (identity bad_signature)

  unfoldable pub canonical_declaration_payload : DeclarationTerms → Result DeclarationTerms
  unfolding create_self_owned_identity assert_canonical_hypercore_key assert_present
  canonical_declaration_payload declaration = do
    owner ← create_self_owned_identity declaration.root_public_key_pem
    assert_present declaration.community_id "Community id"
    assert_canonical_hypercore_key declaration.feed_public_key
    assert_canonical_timestamp fingerprint is_canonical declaration.occurred_at
    throw_if (declaration.member_id != owner.member_id) (identity wrong_owner)
    ok declaration

  module _ (verify_declaration : DeclarationTerms → String → String → Result Bool) where
    unfoldable pub create_declaration : MemberFeedDeclaration → Result MemberFeedDeclaration
    unfolding canonical_declaration_payload assert_root_signature
    create_declaration input = do
      throw_if (input.schema != declaration_schema) (identity bad_schema)
      payload ← canonical_declaration_payload input.terms
      assert_root_signature verify_declaration payload input.root_public_key_pem input.signature
      ok input

    module _ (parse_date : String → ℤ)
        (verify_announcement : AnnouncementTerms → String → String → Result Bool) where
      unfoldable pub canonical_announcement_payload : AnnouncementTerms → Result AnnouncementTerms
      canonical_announcement_payload announcement = do
        declaration ← create_declaration announcement.declaration
        assert_canonical_timestamp fingerprint is_canonical announcement.announced_at
        assert_canonical_timestamp fingerprint is_canonical announcement.expires_at
        throw_if
            (not
              (ltb_ℤ (parse_date announcement.announced_at) (parse_date announcement.expires_at)))
            (identity expires_early)
        ok (record announcement { declaration = declaration })

      unfoldable pub create_announcement : MemberFeedAnnouncement → Result MemberFeedAnnouncement
      create_announcement input = do
        throw_if (input.schema != announcement_schema) (identity bad_schema)
        declaration ← create_declaration input.declaration
        payload ← canonical_announcement_payload (record input.terms { declaration = declaration })
        assert_root_signature verify_announcement payload declaration.root_public_key_pem
            input.signature
        ok (record {
          schema = input.schema;
          terms = record input.terms { declaration = declaration };
          signature = input.signature;
        })

  unfoldable pub canonical_lifecycle_payload : RootSignedLifecycle → Result LifecycleTerms
  unfolding create_self_owned_identity
  canonical_lifecycle_payload statement = do
    throw_if (statement.schema != lifecycle_schema) (identity bad_schema)
    event ← create_event fingerprint is_canonical statement.event
    owner ← create_self_owned_identity statement.root_public_key_pem
    throw_if (event.member_id != owner.member_id) (identity wrong_owner)
    ok (record { event = event; root_public_key_pem = statement.root_public_key_pem })

  module _ (verify_lifecycle : LifecycleTerms → String → String → Result Bool) where
    unfoldable pub create_lifecycle : RootSignedLifecycle → Result RootSignedLifecycle
    unfolding canonical_lifecycle_payload assert_root_signature
    create_lifecycle input = do
      payload ← canonical_lifecycle_payload input
      assert_root_signature verify_lifecycle payload input.root_public_key_pem input.signature
      event ← create_event fingerprint is_canonical input.event
      ok (record {
        schema = lifecycle_schema;
        terms = record { event = event; root_public_key_pem = input.root_public_key_pem };
        signature = input.signature;
      })
