-- ===== src/Identity/Owned/Declared.antt =====
-- What a root key's signature on a declaration or an announcement shows.
use Prim.Native.String.{◌++◌}
use mathlib.Core.Path.{subst}
use peer_hours.Prelude.{
  ◌∙◌, sym, Bool, true, ◌≡◌, String, Option, some, arith, text_equality, ◌!=◌, eq_of_==, Result, ok,
  >>=-eq-ok, throw_if-ok, eq_of_ok, Option-cases, inl, inr, identity, bad_schema,
}
use peer_hours.Identity.Owned.{
  DeclarationTerms, MemberFeedDeclaration, SelfOwnedMemberIdentity, declaration_schema,
  is_hypercore_key, assert_canonical_hypercore_key, create_self_owned_identity,
  assert_root_signature, canonical_declaration_payload, create_declaration,
}

module _ (fingerprint : String → Option String) (is_canonical : String → Bool)
    (hash : String → String) (is_signature : String → Bool) where
  -- The member id is that of the root key.
  abbrev pub Owns : String → String → Type 0
  Owns root member = (key : String) × (fingerprint root ≡ some key) × (member ≡ "phm_" ++ hash key)

  pub create_self_owned-Owns :
      (root : String) (owner : SelfOwnedMemberIdentity)
      → create_self_owned_identity fingerprint is_canonical hash is_signature root ≡ ok owner
      → Owns root owner.member_id
  unfolding create_self_owned_identity
  create_self_owned-Owns root owner h = elim (Option-cases (fingerprint root)) [
    | inl e ↦ absurd (ground arith)
    | inr (key, e) ↦ (key, e, ground arith)
  ]

  pub assert_root_signature-ok :
      {P : Type 0} (verify : P → String → String → Result Bool) (payload : P)
      (root signature : String)
      → assert_root_signature fingerprint is_canonical hash is_signature verify payload root
          signature
        ≡ ok tt
      → verify payload root signature ≡ ok true
  unfolding assert_root_signature
  assert_root_signature-ok verify payload root signature h = ground arith

  pub record IsDeclared (verify : DeclarationTerms → String → String → Result Bool)
      (d : MemberFeedDeclaration) : Type 0 where
    pub schema : d.schema ≡ declaration_schema
    pub owned : Owns d.root_public_key_pem d.member_id
    pub feed : is_hypercore_key d.feed_public_key ≡ true
    pub signed : verify d.terms d.root_public_key_pem d.signature ≡ ok true

  declared_terms :
      (t u : DeclarationTerms)
      → canonical_declaration_payload fingerprint is_canonical hash is_signature t ≡ ok u
      → (u ≡ t)
        × Owns t.root_public_key_pem t.member_id
        × (is_hypercore_key t.feed_public_key ≡ true)
  unfolding canonical_declaration_payload assert_canonical_hypercore_key
  declared_terms t u h =
      let (owner, e, h₁) =
        >>=-eq-ok
          (create_self_owned_identity fingerprint is_canonical hash is_signature
            t.root_public_key_pem)
          _ h in
      let (key, f, named) = create_self_owned-Owns t.root_public_key_pem owner e in
      let same : t.member_id ≡ owner.member_id = ground arith in
      (ground arith, (key, f, same ∙ named), ground arith)

  -- A feed declaration that is created is the given one. Its member id is derived from its root
  -- key, its feed key is a lowercase hexadecimal one of 64 characters, and its signature verifies
  -- for exactly these terms under that root key.
  pub create_declaration-IsDeclared :
      (verify : DeclarationTerms → String → String → Result Bool) (d e : MemberFeedDeclaration)
      → create_declaration fingerprint is_canonical hash is_signature verify d ≡ ok e
      → (e ≡ d) × IsDeclared verify d
  unfolding create_declaration
  create_declaration-IsDeclared verify d e h =
      let (schema, h₁) = throw_if-ok (d.schema != declaration_schema) (identity bad_schema) _ h in
      let (payload, f, h₂) =
        >>=-eq-ok (canonical_declaration_payload fingerprint is_canonical hash is_signature d.terms)
          _ h₁ in
      let (done, g, h₃) =
        >>=-eq-ok
          (assert_root_signature fingerprint is_canonical hash is_signature verify payload
            d.root_public_key_pem d.signature)
          _ h₂ in
      let (same, owned, feed) = declared_terms d.terms payload f in
      let signed = assert_root_signature-ok verify payload d.root_public_key_pem d.signature g in
      (
        sym (eq_of_ok d e h₃),
        record {
          schema = eq_of_== d.schema declaration_schema (ground arith);
          owned = owned;
          feed = feed;
          signed = subst (λ p. verify p d.root_public_key_pem d.signature ≡ ok true) same signed;
        },
      )
