-- ===== src/Identity/Verifier/Distinct.antt =====
-- The verifier's index of keys takes no key id twice in one community.
use peer_hours.Prelude.{
  Bool, false, String, Option, ◌≡◌, ◌≢◌, List, [], ◌∷◌, contains, All, arith, text_equality,
  ==_refl, ok, >>=-eq-ok,
}
use peer_hours.Script.Collect.Distinct.{IsDistinct}
use peer_hours.Identity.Events.{MemberSigningKeyAuthorization, create_authorization}
use peer_hours.Identity.Verifier.{KeyIndex, empty_index, joined, index_key, index_authorized_keys}

abbrev pub id_of : MemberSigningKeyAuthorization → String
id_of a = joined a.community_id a.key_id

module _ (fingerprint : String → Option String) (is_canonical : String → Bool) where
  indexed_id :
      (i j : KeyIndex) (a : MemberSigningKeyAuthorization)
      → index_key fingerprint is_canonical i a ≡ ok j
      → (contains i.authorization_ids (id_of a) ≡ false)
        × (j.authorization_ids ≡ id_of a ∷ i.authorization_ids)
  unfolding index_key create_authorization
  indexed_id i j a h = (ground arith, ground arith)

  abbrev AllNew : List String → List MemberSigningKeyAuthorization → Type 0
  AllNew ids as_given = All (λ a. contains ids (id_of a) ≡ false) as_given

  older_new :
      (id : String) (ids : List String) (l : List MemberSigningKeyAuthorization)
      → AllNew (id ∷ ids) l
      → AllNew ids l × All (λ a. id ≢ id_of a) l
  older_new id ids [] h = (tt, tt)
  older_new id ids (a ∷ l) (new, h) =
      let (older, apart) = older_new id ids l h in
      ((ground arith, older), (λ e. ground (arith, e, ==_refl id), apart))

  indexed_new :
      (i j : KeyIndex) (l : List MemberSigningKeyAuthorization)
      → index_authorized_keys fingerprint is_canonical i l ≡ ok j
      → AllNew i.authorization_ids l × IsDistinct id_of l
  unfolding index_authorized_keys
  indexed_new i j [] h = (tt, tt)
  indexed_new i j (a ∷ l) h =
      let (m, e, rest) = >>=-eq-ok (index_key fingerprint is_canonical i a) _ h in
      let (new, ids) = indexed_id i m a e in
      let (all_new, apart) = indexed_new m j l rest in
      let (older, other) = older_new (id_of a) i.authorization_ids l (rw ids at all_new) in
      ((new, older), (other, apart))

  pub indexed-IsDistinct :
      (j : KeyIndex) (l : List MemberSigningKeyAuthorization)
      → index_authorized_keys fingerprint is_canonical empty_index l ≡ ok j
      → IsDistinct id_of l
  indexed-IsDistinct j l h = (indexed_new empty_index j l h).1
