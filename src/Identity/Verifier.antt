-- ===== src/Identity/Verifier.antt =====
-- Verification of transfer attestations, in packages/timebank-identity/src/index.ts.
pub mod Indexed
pub mod Distinct
pub mod Admitted
use Prim.Native.String.{◌++◌}
use peer_hours.Prelude.{
  Bool, false, not, String, Option, none, some, List, [], ◌∷◌, contains, ◌≡◌, ◌!=◌, text_equality,
  All, if◌then◌else◌, Result, ok, err, throw_if, ◌>>=◌, ◌>>◌, >>=-eq-ok, Result-cases, ◌⊎◌, inl,
  inr, arith, identity, duplicate_key, shared_key, unauthorized,
}
use peer_hours.Script.Map.{Map, get, set}
use peer_hours.Ledger.Types.{TransferAttestation, TransferTerms, Transfer}
use peer_hours.Ledger.Transfers.{create_transfer}
use peer_hours.Identity.Events.{
  MemberSigningKeyAuthorization, key_for, parse_key, create_authorization,
}

-- The map and the two sets that `indexAuthorizedKeys` fills; a parsed key is its PEM text.
pub record KeyIndex : Type 0 where
  pub keys : Map String
  pub authorization_ids : List String
  pub key_owners : Map String

abbrev pub empty_index : KeyIndex
empty_index = record { keys = []; authorization_ids = []; key_owners = [] }

-- `existingOwner !== undefined && existingOwner !== keyOwner`
abbrev pub is_other_owner : Option String → String → Bool
is_other_owner none owner = false
is_other_owner (some existing) owner = existing != owner

abbrev pub joined : String → String → String
joined a b = a ++ ("\0" ++ b)

-- `try { … } catch { … false }`
abbrev pub or_false : Result Bool → Bool
or_false (ok b) = b
or_false (err _) = false

module _ (fingerprint : String → Option String) (is_canonical : String → Bool) where
  unfoldable pub index_key : KeyIndex → MemberSigningKeyAuthorization → Result KeyIndex
  index_key index authorization = do
    normalized ← create_authorization fingerprint is_canonical authorization
    let id = joined normalized.community_id normalized.key_id
    throw_if (contains index.authorization_ids id) (identity duplicate_key)
    f ← parse_key fingerprint is_canonical normalized.public_key_pem
    let owner = joined normalized.community_id normalized.member_id
    throw_if (is_other_owner (get index.key_owners f) owner) (identity shared_key)
    ok (record {
      keys =
          if normalized.active
          then set index.keys
              (key_for normalized.community_id normalized.member_id normalized.key_id)
              normalized.public_key_pem
          else index.keys;
      authorization_ids = id ∷ index.authorization_ids;
      key_owners = set index.key_owners f owner;
    })

  unfoldable pub index_authorized_keys :
      KeyIndex → List MemberSigningKeyAuthorization → Result KeyIndex
  index_authorized_keys index [] = ok index
  index_authorized_keys index (a ∷ authorizations) = do
    index' ← index_key index a
    index_authorized_keys index' authorizations

-- `is_signature` says that a text is the canonical base64url text of 64 bytes, and `verify_bytes`
-- is the Ed25519 verification of the bytes that stand for a payload, which may throw.
module _ {P : Type 0} (is_signature : String → Bool)
    (verify_bytes : P → String → String → Result Bool) where
  -- The function that `createEd25519MemberSignatureVerifier` returns, at one payload.
  unfoldable pub verify_member_signature : KeyIndex → P → String → String → String → String → Bool
  verify_member_signature index payload community member key_id signature =
      elim (get index.keys (key_for community member key_id)) [
        | none ↦ false
        | some pem ↦
            if is_signature signature then or_false (verify_bytes payload pem signature) else false
      ]

module _ (fingerprint : String → Option String) (is_canonical : String → Bool)
    (digest : TransferTerms → String) (is_signature : String → Bool)
    (verify_bytes : TransferTerms → String → String → Result Bool) where
  -- The function that `createEd25519SignatureVerifier` returns.
  unfoldable pub verify_attestation : KeyIndex → Transfer → TransferAttestation → Result Bool
  verify_attestation index transfer attestation = do
    normalized ← create_transfer transfer
    if attestation.payload_digest != digest normalized.terms
        then ok false
        else ok (
            verify_member_signature is_signature verify_bytes index normalized.terms
              transfer.community_id attestation.member_id attestation.key_id attestation.signature)

  unfoldable pub assert_each_authorized :
      KeyIndex → Transfer → List TransferAttestation → Result (Unit {0})
  assert_each_authorized index transfer [] = ok tt
  assert_each_authorized index transfer (a ∷ attestations) = do
    throw_if (not (or_false (verify_attestation index transfer a))) (identity unauthorized)
    assert_each_authorized index transfer attestations

  unfoldable pub assert_authorized_attestations :
      Transfer → List MemberSigningKeyAuthorization → Result Transfer
  assert_authorized_attestations transfer authorizations = do
    normalized ← create_transfer transfer
    index ← index_authorized_keys fingerprint is_canonical empty_index authorizations
    assert_each_authorized index normalized normalized.attestations
    ok normalized
