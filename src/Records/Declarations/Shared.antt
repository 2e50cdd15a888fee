-- ===== src/Records/Declarations/Shared.antt =====
-- A member with two feeds has one root key id for both.
use peer_hours.Prelude.{
  Bool, String, Option, ◌≡◌, ◌≢◌, refl, sym, ap, ◌∙◌, List, [], ◌∷◌, map, Occurs, here, there,
  Occurs-nil, Occurs-map, All-Occurs, Result, ok, >>=-eq-ok, eq_of_ok, DeclarationRecordRule,
  declaration_record,
}
use peer_hours.Script.Map.{values}
use peer_hours.Script.Sort.{sort}
use peer_hours.Script.Sort.Laws.{Occurs-sort}
use peer_hours.Script.Collation.{Collation}
use peer_hours.Script.Collect.{Occurs-values_iff}
use peer_hours.Script.Collect.Distinct.{IsDistinct}
use peer_hours.Identity.Events.{MemberSigningKeyAuthorization}
use peer_hours.Identity.Owned.{DeclarationTerms, MemberFeedDeclaration}
use peer_hours.Identity.Verifier.{KeyIndex, empty_index, index_authorized_keys}
use peer_hours.Identity.Verifier.Distinct.{id_of, indexed-IsDistinct}
use peer_hours.Records.Json.{Members}
use peer_hours.Records.Declarations.{
  Declaration-discrete, declared_key, root_authorization, declaration_from_record,
  declarations_by_feed, declaration_order, declarations_to_authorizations,
}

module _ {A B : Type 0} (f : A → B) (key : B → String) where
  -- Different items of a list give different keys, if its keys are distinct.
  keys_apart :
      (xs : List A) (a b : A)
      → IsDistinct key (map f xs)
      → Occurs a xs
      → Occurs b xs
      → a ≢ b
      → key (f a) ≢ key (f b)
  keys_apart [] a b h o p n = absurd (Occurs-nil o)
  keys_apart (x ∷ xs) a b h (here e) (here g) n = absurd (n (e ∙ sym g))
  keys_apart (x ∷ xs) a b (h, _) (here e) (there p) n =
      λ q. All-Occurs _ h (Occurs-map f p) (ap (λ y. key (f y)) (sym e) ∙ q)
  keys_apart (x ∷ xs) a b (h, _) (there o) (here g) n =
      λ q. All-Occurs _ h (Occurs-map f o) (ap (λ y. key (f y)) (sym g) ∙ sym q)
  keys_apart (x ∷ xs) a b (_, h) (there o) (there p) n = keys_apart xs a b h o p n

module _ (fingerprint : String → Option String) (is_canonical : String → Bool)
    (hash : String → String) (is_signature : String → Bool)
    (verify_declaration : DeclarationTerms → String → String → Result Bool) (c : Collation) where
  -- If the records hold valid declarations of two different feeds by one member in one community,
  -- then the authorizations that they are converted to cannot be indexed, so there is no verifier
  -- of signatures: both have the same key id.
  pub two_feeds-unindexed :
      (records : List Members) (r s : Members) (d e : MemberFeedDeclaration)
      (authorizations : List MemberSigningKeyAuthorization) (index : KeyIndex)
      → declarations_to_authorizations fingerprint is_canonical hash is_signature verify_declaration
          c records
        ≡ ok authorizations
      → Occurs r records
      → Occurs s records
      → declaration_from_record fingerprint is_canonical hash is_signature verify_declaration r
        ≡ ok d
      → declaration_from_record fingerprint is_canonical hash is_signature verify_declaration s
        ≡ ok e
      → d.community_id ≡ e.community_id
      → d.member_id ≡ e.member_id
      → d.feed_public_key ≢ e.feed_public_key
      → index_authorized_keys fingerprint is_canonical empty_index authorizations ≢ ok index
  unfolding declarations_to_authorizations declarations_by_feed
  two_feeds-unindexed records r s d e authorizations index h o p from also community owner feeds
        indexed =
      let (by_feed, g, k) =
        >>=-eq-ok
          (declarations_by_feed fingerprint is_canonical hash is_signature verify_declaration
            records)
          _ h in
      let order =
        declaration_order fingerprint is_canonical hash is_signature verify_declaration c in
      let sorted = sort order (values by_feed) in
      let made : map root_authorization sorted ≡ authorizations = eq_of_ok _ authorizations k in
      let distinct : IsDistinct id_of (map root_authorization sorted) =
        rw made (indexed-IsDistinct fingerprint is_canonical index authorizations indexed) in
      let conflict = declaration_record DeclarationRecordRule.conflicting in
      let check =
        declaration_from_record fingerprint is_canonical hash is_signature verify_declaration in
      let first : Occurs d sorted =
        Occurs-sort order
          ((Occurs-values_iff check declared_key conflict records by_feed d g).1 (r, o, from)) in
      let second : Occurs e sorted =
        Occurs-sort order
          ((Occurs-values_iff check declared_key conflict records by_feed e g).1 (s, p, also)) in
      let same : id_of (root_authorization d) ≡ id_of (root_authorization e) =
        rw (community, owner) refl in
      keys_apart root_authorization id_of sorted d e distinct first second
        (λ q. feeds (ap (λ (x : MemberFeedDeclaration). x.feed_public_key) q)) same
