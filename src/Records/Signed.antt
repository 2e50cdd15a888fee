-- ===== src/Records/Signed.antt =====
-- Records that their authors sign: packages/timebank-records/src/member-signed-record.ts. The bytes
-- that are signed are a function of the envelope, so they stand for it.
use peer_hours.Prelude.{
  All, Bool, true, false, ◌&&◌, String, Option, none, some, List, ◌≡◌, inl, inr, arith, Result, ok,
  err, throw_if, ◌>>=◌, ◌>>◌, >>=-eq-ok, Result-cases, eq_of_ok, SignedRecordRule, signed_record,
}
use peer_hours.Script.Text.{is_blank}
use peer_hours.Identity.Events.{MemberSigningKeyAuthorization}
use peer_hours.Identity.Verifier.{
  KeyIndex, empty_index, index_authorized_keys, verify_member_signature,
}
use peer_hours.Identity.Verifier.Indexed.{IsSeparable, IsSigned, verify_member_signature-IsSigned}
use peer_hours.Records.Json.{Json, text, Members, field}
use peer_hours.Records.Envelope.{RecordEnvelope, create_record_envelope}

pub record MemberSignedRecord : Type 0 where
  pub envelope : RecordEnvelope
  pub open envelope use *
  pub signing_key_id : String
  pub signature : String

unfoldable pub assert_text : Option Json → String → Result String
assert_text (some (text s)) label = do
  throw_if (is_blank s) (signed_record (SignedRecordRule.required label))
  ok s
assert_text _ label = err (signed_record (SignedRecordRule.required label))

abbrev has_field : Option Json → Bool
has_field none = false
has_field (some _) = true

-- `"signingKeyId" in value && "signature" in value`
unfoldable pub is_member_signed_record : Members → Bool
is_member_signed_record value =
    has_field (field value "signingKeyId") && has_field (field value "signature")

module _ (is_canonical : String → Bool) where
  unfoldable pub create_member_signed_record : Members → Result MemberSignedRecord
  create_member_signed_record input = do
    envelope ← create_record_envelope is_canonical input
    key_id ← assert_text (field input "signingKeyId") "Member signing key id"
    signature ← assert_text (field input "signature") "Member record signature"
    ok (record { envelope = envelope; signing_key_id = key_id; signature = signature })

  module _ (fingerprint : String → Option String) (is_signature : String → Bool)
      (verify_record : RecordEnvelope → String → String → Result Bool) where
    -- What the verifier answers for a record that was created.
    abbrev pub verify_created : KeyIndex → MemberSignedRecord → Bool
    verify_created index r =
        verify_member_signature is_signature verify_record index r.envelope r.community_id
          r.author_id r.signing_key_id r.signature

    -- `try { createMemberSignedRecord } catch { return false }`; the index of the keys may throw.
    unfoldable pub verify_member_signed_record :
        Members → List MemberSigningKeyAuthorization → Result Bool
    verify_member_signed_record input authorizations = elim (create_member_signed_record input) [
      | err _ ↦ ok false
      | ok r ↦ do
        index ← index_authorized_keys fingerprint is_canonical empty_index authorizations
        ok (verify_created index r)
    ]

    -- If the ids of the authorizations hold no NUL character, a record that verifies is a complete
    -- envelope with a key id and a signature, and the signature verifies for the whole envelope
    -- under the key of an active authorization that was given, with the community and the author of
    -- the envelope as its community and member.
    pub verify_member_signed_record-IsSigned :
        (input : Members) (authorizations : List MemberSigningKeyAuthorization)
        → All IsSeparable authorizations
        → verify_member_signed_record input authorizations ≡ ok true
        → (r : MemberSignedRecord) × (create_member_signed_record input ≡ ok r)
          × IsSigned fingerprint is_canonical is_signature verify_record authorizations r.envelope
              r.community_id r.author_id r.signing_key_id r.signature
    unfolding verify_member_signed_record
    verify_member_signed_record-IsSigned input authorizations separable h =
        elim (Result-cases (create_member_signed_record input)) [
          | inr (x, e) ↦ absurd (ground arith)
          | inl (r, e) ↦
              let (index, f, g) =
                >>=-eq-ok
                  (index_authorized_keys fingerprint is_canonical empty_index authorizations)
                  (λ i. ok (verify_created i r)) (rw (e, verify_member_signed_record) at h) in
              let verified : verify_created index r ≡ true =
                eq_of_ok (verify_created index r) true g in
              (
                r,
                e,
                verify_member_signature-IsSigned fingerprint is_canonical is_signature verify_record
                    authorizations index r.envelope r.community_id r.author_id r.signing_key_id
                    r.signature separable f verified,
              )
        ]
