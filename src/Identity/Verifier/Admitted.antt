-- ===== src/Identity/Verifier/Admitted.antt =====
-- What `assertAuthorizedTransferAttestations` admits.
use peer_hours.Prelude.{
  Bool, true, String, Option, some, List, [], ◌∷◌, ◌≡◌, inl, inr, All, Result, ok, arith, Occurs,
  All-Occurs, All-of_Occurs, >>=-eq-ok, Option-cases, text_equality,
}
use peer_hours.Script.Map.{get}
use peer_hours.Ledger.Types.{TransferAttestation, TransferTerms, Transfer}
use peer_hours.Ledger.Transfers.{create_transfer}
use peer_hours.Ledger.Transfers.Normal.{create_transfer-IsNormal}
use peer_hours.Identity.Events.{MemberSigningKeyAuthorization, key_for}
use peer_hours.Identity.Verifier.Indexed.{
  IsSeparable, IsFor, key_of-IsFor, Authorizes, index_all-source,
}
use peer_hours.Identity.Verifier.{
  KeyIndex, empty_index, index_authorized_keys, verify_member_signature, verify_attestation,
  assert_each_authorized, assert_authorized_attestations,
}

module _ (fingerprint : String → Option String) (is_canonical : String → Bool)
    (digest : TransferTerms → String) (is_signature : String → Bool)
    (verify_bytes : TransferTerms → String → String → Result Bool) where
  abbrev index_all : KeyIndex → List MemberSigningKeyAuthorization → Result KeyIndex
  index_all = index_authorized_keys fingerprint is_canonical

  -- A verified attestation names the digest of the terms, and its signature verifies.
  abbrev pub IsVerified : KeyIndex → Transfer → TransferAttestation → Type 0
  IsVerified index t a =
      (a.payload_digest ≡ digest t.terms)
      × (pem : String) × (get index.keys (key_for t.community_id a.member_id a.key_id) ≡ some pem)
      × (verify_bytes t.terms pem a.signature ≡ ok true)

  each-IsVerified :
      (index : KeyIndex) (t : Transfer) (l : List TransferAttestation)
      → create_transfer t ≡ ok t
      → assert_each_authorized fingerprint is_canonical digest is_signature verify_bytes index t l
        ≡ ok tt
      → All (IsVerified index t) l
  unfolding assert_each_authorized verify_attestation verify_member_signature
  each-IsVerified index t [] e h = tt
  each-IsVerified index t (a ∷ l) e h =
      elim (Option-cases (get index.keys (key_for t.community_id a.member_id a.key_id))) [
        | inl g ↦ absurd (ground arith)
        | inr (pem, g) ↦
            ((ground arith, pem, g, ground arith), each-IsVerified index t l e (ground arith))
      ]

  -- An attestation of the terms that verifies under the key of an active authorization, for the
  -- attesting member, the key id and the community that the transfer names.
  abbrev pub IsAuthorized :
      List MemberSigningKeyAuthorization → Transfer → TransferAttestation → Type 0
  IsAuthorized authorizations t a =
      (a.payload_digest ≡ digest t.terms)
      × (k : MemberSigningKeyAuthorization) × Occurs k authorizations
      × (k.active ≡ true)
      × IsFor k t.community_id a.member_id a.key_id
      × (verify_bytes t.terms k.public_key_pem a.signature ≡ ok true)

  verified-IsAuthorized :
      (authorizations : List MemberSigningKeyAuthorization) (index : KeyIndex) (t : Transfer)
      (a : TransferAttestation)
      → All IsSeparable authorizations
      → index_all empty_index authorizations ≡ ok index
      → IsVerified index t a
      → IsAuthorized authorizations t a
  unfolding Authorizes
  verified-IsAuthorized authorizations index t a separable h (d, pem, g, v) =
      elim (index_all-source fingerprint is_canonical authorizations empty_index index
        (key_for t.community_id a.member_id a.key_id) pem h g) [
          | inl old ↦ absurd (unfold get in ground arith)
          | inr (k, o, on, named, same) ↦ (
            d,
            k,
            o,
            on,
            key_of-IsFor k t.community_id a.member_id a.key_id (All-Occurs _ separable o) named,
            rw same v,
          )
        ]

  -- If the community, member and key ids of the authorizations hold no NUL character, a transfer
  -- that `assertAuthorizedTransferAttestations` returns is the created one; each of its
  -- attestations carries the digest of its terms, and the signature verifies for these terms under
  -- the public key of an active authorization that was given, with the same community, member and
  -- key id.
  pub admitted-IsAuthorized :
      (t u : Transfer) (authorizations : List MemberSigningKeyAuthorization)
      → All IsSeparable authorizations
      → assert_authorized_attestations fingerprint is_canonical digest is_signature verify_bytes t
          authorizations
        ≡ ok u
      → (create_transfer t ≡ ok u) × All (IsAuthorized authorizations u) u.attestations
  unfolding assert_authorized_attestations
  admitted-IsAuthorized t u authorizations separable h =
      let (v, e, h₁) = >>=-eq-ok (create_transfer t) _ h in
      let (index, f, h₂) = >>=-eq-ok (index_all empty_index authorizations) _ h₁ in
      let (done, g, h₃) =
        >>=-eq-ok
          (assert_each_authorized fingerprint is_canonical digest is_signature verify_bytes index v
            v.attestations)
          _ h₂ in
      let same : v ≡ u = ground arith in
      let (_, _, normal) = create_transfer-IsNormal t v e in
      let verified = each-IsVerified index v v.attestations normal.again g in
      (
        rw same at e,
        rw (← same) (
            All-of_Occurs _ v.attestations (λ a o.
              verified-IsAuthorized authorizations index v a separable f
                (All-Occurs _ verified o))),
      )
