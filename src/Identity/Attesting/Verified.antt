-- ===== src/Identity/Attesting/Verified.antt =====
-- An attestation that a participant creates is one that the verifier takes.
use mathlib.Core.Path.{subst}
use peer_hours.Prelude.{
  Bool, not, true, ◌&&◌, String, Option, some, ◌≡◌, refl, sym, ap, ◌∙◌, arith, text_equality, ◌!=◌,
  ==_refl, Result, ok, err, Error, throw_if-ok, >>=-eq-ok, eq_of_ok, identity, IdentityRule,
  cannot_sign, not_canonical,
}
use peer_hours.Script.Map.{get}
use peer_hours.Ledger.Types.{TransferAttestation, TransferTerms, Transfer}
use peer_hours.Ledger.Transfers.{create_transfer, create_transfer_terms}
use peer_hours.Ledger.Transfers.Normal.{create_transfer_terms_lem, create_transfer-IsNormal}
use peer_hours.Identity.Events.{assert_present, key_for}
use peer_hours.Identity.Payload.{transfer_payload_digest}
use peer_hours.Identity.Verifier.{KeyIndex, verify_member_signature, verify_attestation}
use peer_hours.Identity.Attesting.{signed_or, create_participant_attestation}

signed_or-ok :
    {A : Type 0} (error : Error) (r : Result A) {a : A} → signed_or error r ≡ ok a → r ≡ ok a
signed_or-ok error (ok a) h = h
signed_or-ok error (err e) h = cc

module _ (fingerprint : String → Option String) (is_canonical : String → Bool)
    (digest : TransferTerms → String) (is_signature : String → Bool)
    (verify_bytes : TransferTerms → String → String → Result Bool)
    (sign : TransferTerms → Result String) where
  -- The parts of an attestation that was created.
  pub record IsAttestation (t : TransferTerms) (member key_id : String) (a : TransferAttestation)
      : Type 0 where
    pub signer : a.member_id ≡ member
    pub key : a.key_id ≡ key_id
    pub payload : a.payload_digest ≡ digest t
    pub canonical : is_signature a.signature ≡ true
    pub signed : sign t ≡ ok a.signature

  create-IsAttestation :
      (t : TransferTerms) (member key_id : String) (a : TransferAttestation)
      → create_participant_attestation digest is_signature sign t member key_id ≡ ok a
      → IsAttestation t member key_id a
  unfolding create_participant_attestation transfer_payload_digest
  create-IsAttestation t member key_id a h =
      let (u, e, h₁) = >>=-eq-ok (create_transfer_terms t) _ h in
      let (same, _, _) = create_transfer_terms_lem t u e in
      let (_, _, h₂) = >>=-eq-ok (assert_present member "Attesting member id") _ h₁ in
      let (_, _, h₃) = >>=-eq-ok (assert_present key_id "Attestation signing key id") _ h₂ in
      let (_, h₄) =
        throw_if-ok (member != u.provider_member_id && member != u.recipient_member_id)
          (identity IdentityRule.not_participant) _ h₃ in
      let (signature, f, h₅) = >>=-eq-ok (signed_or (identity cannot_sign) (sign u)) _ h₄ in
      let (canonical, h₆) =
        throw_if-ok (not (is_signature signature)) (identity not_canonical) _ h₅ in
      let (named, g, h₇) = >>=-eq-ok (transfer_payload_digest digest u) _ h₆ in
      let (v, k, l) = >>=-eq-ok (create_transfer_terms u) _ g in
      let (again, _, _) = create_transfer_terms_lem u v k in
      let made : IsAttestation t member key_id (record {
        member_id = member;
        key_id = key_id;
        payload_digest = named;
        signature = signature;
      }) =
        record {
          signer = refl;
          key = refl;
          payload = sym (eq_of_ok (digest v) named l) ∙ ap digest (again ∙ same);
          canonical = ground arith;
          signed =
              subst (λ w. sign w ≡ ok signature) same
                (signed_or-ok (identity cannot_sign) (sign u) f);
        } in
      subst (IsAttestation t member key_id) (eq_of_ok _ a h₇) made

  verify_member_signature-true :
      (index : KeyIndex) (t : TransferTerms) (community member key_id signature pem : String)
      → get index.keys (key_for community member key_id) ≡ some pem
      → is_signature signature ≡ true
      → verify_bytes t pem signature ≡ ok true
      → verify_member_signature is_signature verify_bytes index t community member key_id signature
        ≡ true
  unfolding verify_member_signature
  verify_member_signature-true index t community member key_id signature pem known canonical valid =
      ground arith

  -- An attestation that a participant creates for the terms of a transfer is one that the ledger's
  -- verifier takes, if the key id names an active key of that member in the transfer's community,
  -- and what the key custodian signs verifies under this key.
  pub verify_attestation-create :
      (index : KeyIndex) (t u : Transfer) (member key_id pem : String) (a : TransferAttestation)
      → create_participant_attestation digest is_signature sign t.terms member key_id ≡ ok a
      → create_transfer t ≡ ok u
      → get index.keys (key_for t.community_id member key_id) ≡ some pem
      → ((signature : String)
          → sign t.terms ≡ ok signature
          → verify_bytes t.terms pem signature ≡ ok true)
      → verify_attestation fingerprint is_canonical digest is_signature verify_bytes index t a
        ≡ ok true
  unfolding verify_attestation
  verify_attestation-create index t u member key_id pem a h made known genuine =
      let w = create-IsAttestation t.terms member key_id a h in
      let (terms, _, _) = create_transfer-IsNormal t u made in
      let valid = genuine a.signature w.signed in
      rw
        (
          made,
          terms,
          w.payload,
          ==_refl (digest t.terms),
          w.signer,
          w.key,
          verify_member_signature-true index t.terms t.community_id member key_id a.signature pem
              known w.canonical valid,
        )
        refl
