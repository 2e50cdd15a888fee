-- ===== src/Ledger/Transfers/Normal.antt =====
-- What a created transfer looks like, and that creating it again changes nothing.
use peer_hours.Prelude.{
  ap, ◌∙◌, Result-cases, Occurs, Occurs-nil, here, there, SameSet, ℕ, suc, pos, ◌⊎◌, inl, inr, ◌≡◌,
  ◌≢◌, refl, false, String, List, [], ◌∷◌, arith, ok, text_equality,
}
use peer_hours.Script.Text.{is_blank}
use peer_hours.Script.Number.{is_bad_amount, whole, amount_of_guard}
use peer_hours.Script.Map.{get, set}
use peer_hours.Ledger.Types.{TransferAttestation, TransferTerms, Transfer}
use peer_hours.Ledger.Transfers.{
  create_transfer_terms, assert_attestation, normalize_attestations, create_transfer,
}

pub record IsSigned (t : TransferTerms) (member : String) (a : TransferAttestation) : Type 0 where
  pub member_id : a.member_id ≡ member
  pub member_present : is_blank a.member_id ≡ false
  pub key_present : is_blank a.key_id ≡ false
  pub digest_present : is_blank a.payload_digest ≡ false
  pub signature_present : is_blank a.signature ≡ false

pub create_transfer_terms_lem :
    (t u : TransferTerms)
    → create_transfer_terms t ≡ ok u
    → (u ≡ t) × (is_bad_amount t.minutes ≡ false) × (t.provider_member_id ≢ t.recipient_member_id)
unfolding create_transfer_terms
create_transfer_terms_lem t u h = ground arith

Occurs-swap {ℓ} : {A : Type ℓ} {x : A} (a b : A) → Occurs x (a ∷ b ∷ []) → Occurs x (b ∷ a ∷ [])
Occurs-swap a b (here e) = there (here e)
Occurs-swap a b (there (here e)) = here e
Occurs-swap a b (there (there o)) = absurd (Occurs-nil o)

-- The normalised attestations are the provider's and the recipient's, in this order.
pub record IsPair (t : TransferTerms) (l : List TransferAttestation) : Type 0 where
  pub provider : TransferAttestation
  pub recipient : TransferAttestation
  pub both : l ≡ provider ∷ recipient ∷ []
  pub by_provider : IsSigned t t.provider_member_id provider
  pub by_recipient : IsSigned t t.recipient_member_id recipient

normalize_two :
    (t : TransferTerms) (a b : TransferAttestation) (l : List TransferAttestation)
    → normalize_attestations (record { terms = t; attestations = a ∷ b ∷ [] }) ≡ ok l
    → t.provider_member_id ≢ t.recipient_member_id
    → (l ≡ a ∷ b ∷ []) × IsSigned t t.provider_member_id a × IsSigned t t.recipient_member_id b
      ⊎ (l ≡ b ∷ a ∷ []) × IsSigned t t.provider_member_id b × IsSigned t t.recipient_member_id a
unfolding normalize_attestations assert_attestation get set
normalize_two t a b l h n = ground arith

normalize_of_pair :
    (t : TransferTerms) (a b : TransferAttestation)
    → IsSigned t t.provider_member_id a
    → IsSigned t t.recipient_member_id b
    → t.provider_member_id ≢ t.recipient_member_id
    → normalize_attestations (record { terms = t; attestations = a ∷ b ∷ [] }) ≡ ok (a ∷ b ∷ [])
unfolding normalize_attestations assert_attestation get set
normalize_of_pair t a b p q n = ground arith

-- Terms that can be created, signed by the provider and then the recipient, are a transfer.
pub create_transfer_signed :
    (t : TransferTerms) (a b : TransferAttestation)
    → create_transfer_terms t ≡ ok t
    → IsSigned t t.provider_member_id a
    → IsSigned t t.recipient_member_id b
    → create_transfer (record { terms = t; attestations = a ∷ b ∷ [] })
      ≡ ok (record { terms = t; attestations = a ∷ b ∷ [] })
unfolding create_transfer
create_transfer_signed t a b e p q =
    let (_, _, n) = create_transfer_terms_lem t t e in rw (e, normalize_of_pair t a b p q n) refl

-- A created transfer is its own normal form, with positive whole minutes between two members.
pub record IsNormal (u : Transfer) : Type 0 where
  pub amount : ℕ
  pub minutes : u.minutes ≡ whole (pos (suc amount))
  pub apart : u.provider_member_id ≢ u.recipient_member_id
  pub pair : IsPair u.terms u.attestations
  pub again : create_transfer u ≡ ok u

create_transfer_parts :
    (t u : Transfer)
    → create_transfer t ≡ ok u
    → (create_transfer_terms t.terms ≡ ok t.terms)
      × (u.terms ≡ t.terms)
      × (normalize_attestations t ≡ ok u.attestations)
unfolding create_transfer
create_transfer_parts t u h = elim (Result-cases (create_transfer_terms t.terms)) [
  | inl (v, e) ↦
      let same = (create_transfer_terms_lem t.terms v e).0 in
      (rw same at e, ground arith, ground arith)
  | inr (x, e) ↦ absurd (ground arith)
]

normalize-IsPair :
    (t : TransferTerms) (given l : List TransferAttestation)
    → normalize_attestations (record { terms = t; attestations = given }) ≡ ok l
    → t.provider_member_id ≢ t.recipient_member_id
    → IsPair t l × SameSet l given
normalize-IsPair t [] l h n = absurd (unfold normalize_attestations in ground arith)
normalize-IsPair t (a ∷ []) l h n = absurd (unfold normalize_attestations in ground arith)
normalize-IsPair t (a ∷ b ∷ []) l h n = elim (normalize_two t a b l h n) [
  | inl (e, p, q) ↦ (
    record { provider = a; recipient = b; both = e; by_provider = p; by_recipient = q },
    rw e (λ x. (λ o. o, λ o. o)),
  )
  | inr (e, p, q) ↦ (
    record { provider = b; recipient = a; both = e; by_provider = p; by_recipient = q },
    rw e (λ x. (Occurs-swap b a, Occurs-swap a b)),
  )
]
normalize-IsPair t (a ∷ b ∷ x ∷ rest) l h n = absurd (unfold normalize_attestations in ground arith)

normalize_again :
    (t : TransferTerms) (l : List TransferAttestation)
    → IsPair t l
    → t.provider_member_id ≢ t.recipient_member_id
    → normalize_attestations (record { terms = t; attestations = l }) ≡ ok l
normalize_again t l p n =
    rw p.both (normalize_of_pair t p.provider p.recipient p.by_provider p.by_recipient n)

-- `createTransfer` keeps the terms, and its attestations are the given ones, the provider's first;
-- the result is normal: positive whole minutes, two distinct members, one attestation of each with
-- no blank field, and creating it again returns it unchanged.
pub create_transfer-IsNormal :
    (t u : Transfer)
    → create_transfer t ≡ ok u
    → (u.terms ≡ t.terms) × SameSet u.attestations t.attestations × IsNormal u
create_transfer-IsNormal t u h =
    let (good, same, signed) = create_transfer_parts t u h in
    let (_, guarded, n) = create_transfer_terms_lem t.terms t.terms good in
    let (m, at) = amount_of_guard t.minutes guarded in
    let (pair, items) = normalize-IsPair t.terms t.attestations u.attestations signed n in
    let twice = normalize_again t.terms u.attestations pair n in
    (
      same,
      items,
      record {
        amount = m;
        minutes = ap (λ (x : TransferTerms). x.minutes) same ∙ at;
        apart = rw same n;
        pair = rw same pair;
        again = unfold create_transfer in rw (same, good, twice) (ground arith);
      },
    )
