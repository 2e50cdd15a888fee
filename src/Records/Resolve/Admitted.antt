-- ===== src/Records/Resolve/Admitted.antt =====
-- What `assertMemberSignedDomainRecords` of packages/timebank-records/src/resolve.ts has checked.
use peer_hours.Prelude.{
  All, true, not, ◌||◌, String, List, [], ◌∷◌, ◌≡◌, inl, inr, Occurs, here, there, Bool-cases, ok,
  throw_if-ok, >>=-eq-ok, arith,
}
use peer_hours.Identity.Events.{MemberSigningKeyAuthorization}
use peer_hours.Identity.Verifier.Indexed.{IsSeparable, IsSigned}
use peer_hours.Records.Json.{Members, field}
use peer_hours.Records.Timebank.{reads}
use peer_hours.Records.Signed.{
  MemberSignedRecord, is_member_signed_record, create_member_signed_record,
  verify_member_signed_record, verify_member_signed_record-IsSigned,
}
use peer_hours.Records.Resolve.{Runtime, is_member_authored_kind}
use peer_hours.Records.Resolve.Admission.{
  assert_admitted, assert_record_author_participates, assert_member_signed_domain_records,
}

module _ (rt : Runtime) (community : String)
    (authorizations : List MemberSigningKeyAuthorization) where
  -- A record that its author signed and takes part in.
  abbrev pub IsAdmitted : Members → Type 0
  IsAdmitted r =
      (s : MemberSignedRecord) × (create_member_signed_record rt.is_canonical r ≡ ok s)
      × IsSigned rt.fingerprint rt.is_canonical rt.is_signature rt.verify_record authorizations
          s.envelope s.community_id s.author_id s.signing_key_id s.signature
      × (assert_record_author_participates rt r ≡ ok tt)

  assert_admitted-IsAdmitted :
      (r : Members)
      → assert_admitted rt r authorizations ≡ ok tt
      → All IsSeparable authorizations
      → IsAdmitted r
  assert_admitted-IsAdmitted r h separable =
      let (_, h₁) = throw_if-ok (not (is_member_signed_record r)) _ _ h in
      let (verified, e, h₂) =
        >>=-eq-ok
          (verify_member_signed_record rt.is_canonical rt.fingerprint rt.is_signature
            rt.verify_record r authorizations)
          _ h₁ in
      let (f, h₃) = throw_if-ok (not verified) _ _ h₂ in
      let signs : verified ≡ true = ground arith in
      let (s, made, signed) =
        verify_member_signed_record-IsSigned rt.is_canonical rt.fingerprint rt.is_signature
          rt.verify_record r authorizations separable (rw signs at e) in
      (s, made, signed, h₃)

  tail-passes :
      (r : Members) (records : List Members)
      → assert_member_signed_domain_records rt (r ∷ records) community authorizations ≡ ok tt
      → assert_member_signed_domain_records rt records community authorizations ≡ ok tt
  unfolding assert_member_signed_domain_records
  tail-passes r records h =
      elim (Bool-cases (
        not (reads (field r "communityId") community)
        || not (is_member_authored_kind (field r "kind")))) [
          | inl e ↦ rw e at h
          | inr e ↦
              let (_, _, h₁) = >>=-eq-ok (assert_admitted rt r authorizations) _ (rw e at h) in h₁
        ]

  head-IsAdmitted :
      (r : Members) (records : List Members)
      → assert_member_signed_domain_records rt (r ∷ records) community authorizations ≡ ok tt
      → reads (field r "communityId") community ≡ true
      → is_member_authored_kind (field r "kind") ≡ true
      → All IsSeparable authorizations
      → IsAdmitted r
  unfolding assert_member_signed_domain_records
  head-IsAdmitted r records h same authored separable =
      let (done, e, _) =
        >>=-eq-ok (assert_admitted rt r authorizations) _ (rw (same, authored) at h) in
      assert_admitted-IsAdmitted r e separable

  -- Where the admission of a history passes and the ids of the authorizations hold no NUL
  -- character, each of its records that names the community and a kind that members author is a
  -- complete signed record; its signature verifies for the whole envelope under the key of an
  -- active authorization that was given, with the community and the author of the envelope as its
  -- community and member; and the check that the author takes part in what the record states
  -- passes.
  pub assert_member_signed_domain_records-IsAdmitted :
      (records : List Members) (r : Members)
      → assert_member_signed_domain_records rt records community authorizations ≡ ok tt
      → Occurs r records
      → reads (field r "communityId") community ≡ true
      → is_member_authored_kind (field r "kind") ≡ true
      → All IsSeparable authorizations
      → IsAdmitted r
  assert_member_signed_domain_records-IsAdmitted (x ∷ records) r h (here e) same authored
        separable =
      head-IsAdmitted r records (rw (← e) at h) same authored separable
  assert_member_signed_domain_records-IsAdmitted (x ∷ records) r h (there o) same authored
        separable =
      assert_member_signed_domain_records-IsAdmitted records r (tail-passes x records h) o same
        authored separable
  assert_member_signed_domain_records-IsAdmitted [] r h o same authored separable = elim o [ ]
