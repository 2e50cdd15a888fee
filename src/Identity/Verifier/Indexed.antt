-- ===== src/Identity/Verifier/Indexed.antt =====
-- What the verifier's index of keys holds, and what a signature that verifies shows.
use Prim.Native.String.{◌++◌}
use peer_hours.Prelude.{
  ℕ_discrete, ◌+◌, sym, ap, ◌∙◌, All, All-Occurs, Bool, true, String, Option, some, List, [], ◌∷◌,
  ◌≡◌, ◌⊎◌, inl, inr, refl, Result, ok, arith, Occurs, here, there, >>=-eq-ok, Bool-cases,
  Option-cases, text_equality, ◌==◌, eq_of_==,
}
use peer_hours.Script.Map.{get}
use peer_hours.Script.Map.Laws.{get-set}
use peer_hours.Script.Text.Separated.{nuls, nuls-append, split}
use peer_hours.Identity.Events.{MemberSigningKeyAuthorization, key_for, create_authorization}
use peer_hours.Identity.Verifier.{
  KeyIndex, empty_index, index_key, index_authorized_keys, verify_member_signature, or_false,
}

abbrev pub key_of : MemberSigningKeyAuthorization → String
key_of a = key_for a.community_id a.member_id a.key_id

-- An authorization whose three ids hold no NUL character.
pub record IsSeparable (k : MemberSigningKeyAuthorization) : Type 0 where
  pub community : nuls k.community_id ≡ 0
  pub member : nuls k.member_id ≡ 0
  pub key : nuls k.key_id ≡ 0

-- The authorization is for this community, member and key id.
abbrev pub IsFor : MemberSigningKeyAuthorization → String → String → String → Type 0
IsFor k community member key_id =
    (k.community_id ≡ community) × (k.member_id ≡ member) × (k.key_id ≡ key_id)

nuls-key_for : (c m k : String) → nuls (key_for c m k) ≡ nuls c + nuls m + nuls k + 2
unfolding ℕ_discrete
nuls-key_for c m k =
    rw
      (
        nuls-append,
        nuls-append "\0" (m ++ ("\0" ++ k)),
        nuls-append m ("\0" ++ k),
        nuls-append "\0" k,
      )
      (unfold nuls in omega arith)

-- The joined text of ids without NUL characters is that of no other ids.
pub key_of-IsFor :
    (k : MemberSigningKeyAuthorization) (community member key_id : String)
    → IsSeparable k
    → key_of k ≡ key_for community member key_id
    → IsFor k community member key_id
key_of-IsFor k community member key_id h e =
    let same =
      sym (nuls-key_for k.community_id k.member_id k.key_id)
      ∙ ap nuls e
      ∙ nuls-key_for community member key_id in
    let (first, others) =
      split k.community_id community (k.member_id ++ ("\0" ++ k.key_id))
        (member ++ ("\0" ++ key_id)) h.community (omega (arith, same, h.community, h.member, h.key))
        e in
    let (second, third) =
      split k.member_id member k.key_id key_id h.member
        (omega (arith, same, h.community, h.member, h.key)) others in
    (first, second, third)

module _ (fingerprint : String → Option String) (is_canonical : String → Bool) where
  abbrev index_one : KeyIndex → MemberSigningKeyAuthorization → Result KeyIndex
  index_one = index_key fingerprint is_canonical

  -- A key of the index is that of an active authorization.
  unfoldable pub Authorizes : List MemberSigningKeyAuthorization → String → String → Type 0
  Authorizes as_given k pem =
      (a : MemberSigningKeyAuthorization) × Occurs a as_given
      × (a.active ≡ true)
      × (key_of a ≡ k)
      × (a.public_key_pem ≡ pem)

  index_key-source :
      (i j : KeyIndex) (a : MemberSigningKeyAuthorization) (k pem : String)
      → index_one i a ≡ ok j
      → get j.keys k ≡ some pem
      → (get i.keys k ≡ some pem) ⊎ ((a.active ≡ true) × (key_of a ≡ k) × (a.public_key_pem ≡ pem))
  unfolding index_key create_authorization
  index_key-source i j a k pem h g = elim (Bool-cases a.active) [
    | inr off ↦ inl (ground arith)
    | inl on ↦ elim (Bool-cases (key_of a == k)) [
      | inl same ↦ inr (
        on,
        eq_of_== (key_of a) k same,
        ground (arith, get-set i.keys (key_of a) k a.public_key_pem),
      )
      | inr other ↦ inl (ground (arith, get-set i.keys (key_of a) k a.public_key_pem))
    ]
  ]

  abbrev pub index_all : KeyIndex → List MemberSigningKeyAuthorization → Result KeyIndex
  index_all = index_authorized_keys fingerprint is_canonical

  pub index_all-source :
      (as_given : List MemberSigningKeyAuthorization) (i j : KeyIndex) (k pem : String)
      → index_all i as_given ≡ ok j
      → get j.keys k ≡ some pem
      → (get i.keys k ≡ some pem) ⊎ Authorizes as_given k pem
  unfolding index_authorized_keys Authorizes
  index_all-source [] i j k pem h g = inl (ground arith)
  index_all-source (a ∷ l) i j k pem h g =
      let (m, e, h') = >>=-eq-ok (index_one i a) _ h in
      elim (index_all-source l m j k pem h' g) [
        | inr (b, o, w, x, y) ↦ inr (b, there o, w, x, y)
        | inl old ↦ elim (index_key-source i m a k pem e old) [
          | inl older ↦ inl older
          | inr (w, x, y) ↦ inr (a, here refl, w, x, y)
        ]
      ]

  module _ {P : Type 0} (is_signature : String → Bool)
      (verify_bytes : P → String → String → Result Bool) where
    -- The signature verifies under the key of an active authorization for the member, the key id
    -- and the community.
    abbrev pub IsSigned :
        List MemberSigningKeyAuthorization → P → String → String → String → String → Type 0
    IsSigned authorizations payload community member key_id signature =
        (k : MemberSigningKeyAuthorization) × Occurs k authorizations
        × (k.active ≡ true)
        × IsFor k community member key_id
        × (verify_bytes payload k.public_key_pem signature ≡ ok true)

    or_false-true : (r : Result Bool) → or_false r ≡ true → r ≡ ok true
    or_false-true r h = ground arith

    pub verify_member_signature-IsSigned :
        (authorizations : List MemberSigningKeyAuthorization) (index : KeyIndex) (payload : P)
        (community member key_id signature : String)
        → All IsSeparable authorizations
        → index_all empty_index authorizations ≡ ok index
        → verify_member_signature is_signature verify_bytes index payload community member key_id
            signature
          ≡ true
        → IsSigned authorizations payload community member key_id signature
    unfolding verify_member_signature Authorizes
    verify_member_signature-IsSigned authorizations index payload community member key_id signature
          separable h v =
        elim (Option-cases (get index.keys (key_for community member key_id))) [
          | inl g ↦ absurd (ground arith)
          | inr (pem, g) ↦
              elim (index_all-source authorizations empty_index index
                (key_for community member key_id) pem h g) [
                  | inl old ↦ absurd (unfold get in ground arith)
                  | inr (k, o, on, named, same) ↦
                      let proved : verify_bytes payload pem signature ≡ ok true = ground arith in
                      (
                        k,
                        o,
                        on,
                        key_of-IsFor k community member key_id (All-Occurs _ separable o) named,
                        rw same proved,
                      )
                ]
        ]
