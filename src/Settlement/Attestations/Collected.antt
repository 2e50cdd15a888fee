-- ===== src/Settlement/Attestations/Collected.antt =====
-- `resolveSettlementTransferAttestations` over a set of attestations, and the transfer that
-- follows.
use peer_hours.Prelude.{
  String, ◌≡◌, ◌⊎◌, ◌∙◌, inl, inr, sym, refl, ap, true, false, List, [], ◌∷◌, arith, ok,
  text_equality, ◌&&◌, if◌then◌else◌, ◌==◌, Occurs, here, Occurs-nil, SameSet, Result-cases,
  Option-cases, Bool-cases, >>=-eq-ok, settlement, conflicting, premature, throw_if, ◌>>◌, eq_of_==,
}
use peer_hours.Script.Text.{is_blank}
use peer_hours.Script.Map.{Map, get, has, values}
use peer_hours.Script.Sort.{sort}
use peer_hours.Script.Collation.{Collation, before, before_irrefl, before_trans}
use peer_hours.Script.Collect.{collect-Source, collect_same, Occurs-values_iff}
use peer_hours.Script.Collect.Order.{Separates, sort-values_same}
use peer_hours.Domain.Types.{ExchangeProposal}
use peer_hours.Ledger.Types.{TransferAttestation, TransferTerms}
use peer_hours.Ledger.Transfers.Normal.{IsSigned, create_transfer_signed}
use peer_hours.Settlement.Acknowledgements.{
  SettlementAcknowledgement, dual_confirmed, resolve_settlement_acknowledgements,
  ConfirmationStatus-discrete,
}
use peer_hours.Settlement.Acknowledgements.Confirmed.{TellsParticipantsApart}
use peer_hours.Settlement.Transfers.{create_confirmed_transfer}
use peer_hours.Settlement.Transfers.Deterministic.{
  settlement_terms, IsConfirmed, create_settlement_terms_iff, create_confirmed_transfer_iff,
}
use peer_hours.Settlement.Attestations.{
  SettlementTransferAttestation, SettlementAttestationState, awaiting_confirmation,
  awaiting_attestations, dual_attested, Container-discrete, attested_by, validate_attestation,
  has_items, attestations_by_participant, by_attester_order, resolve_attestations,
}
use peer_hours.Settlement.Attestations.Exact.{container, IsAttested, validate_attestation_iff}

-- Neither the key, nor the digest, nor the signature is blank.
pub record IsFilled (a : TransferAttestation) : Type 0 where
  pub key : is_blank a.key_id ≡ false
  pub payload : is_blank a.payload_digest ≡ false
  pub signature : is_blank a.signature ≡ false

module _ (c : Collation) (digest : TransferTerms → String) (p : ExchangeProposal)
    (given : List SettlementAcknowledgement) where
  abbrev attested : Map SettlementTransferAttestation → SettlementAttestationState
  attested m = record {
    proposal_id = p.id;
    status =
        if has m p.provider_member_id && has m p.receiver_member_id
        then dual_attested
        else awaiting_attestations;
    attestations = sort (by_attester_order c digest p given) (values m);
  }

  resolve-attested :
      (xs : List SettlementTransferAttestation) (m : Map SettlementTransferAttestation)
      → IsConfirmed c p given
      → attestations_by_participant c digest p given xs ≡ ok m
      → resolve_attestations c digest p given xs ≡ ok (attested m)
  unfolding resolve_attestations
  resolve-attested xs m (s, e, d) f =
      let terms =
        (create_settlement_terms_iff c p given (settlement_terms p)).1 ((s, e, d), refl) in
      rw (e, d, terms, f) refl

  no_items :
      (xs : List SettlementTransferAttestation) (s : SettlementAttestationState)
      → (do
        throw_if (has_items xs) (settlement premature)
        ok (record { proposal_id = p.id; status = awaiting_confirmation; attestations = [] }))
        ≡ ok s
      → (xs ≡ []) × (s.status ≡ awaiting_confirmation)
  no_items [] s h = (refl, ground arith)
  no_items (x ∷ xs) s h = absurd (ground arith)

  -- Either the exchange is confirmed and the attestations were collected, or there are none.
  resolve-cases :
      (xs : List SettlementTransferAttestation) (s : SettlementAttestationState)
      → resolve_attestations c digest p given xs ≡ ok s
      → (IsConfirmed c p given
          × (m : Map SettlementTransferAttestation) × (attestations_by_participant c digest p given
                xs
              ≡ ok m)
          × (s ≡ attested m))
        ⊎ ((xs ≡ []) × (s.status ≡ awaiting_confirmation))
  unfolding resolve_attestations
  resolve-cases xs s h = elim (Result-cases (resolve_settlement_acknowledgements c p given)) [
    | inr (x, e) ↦ absurd (ground arith)
    | inl (t, e) ↦ elim (Bool-cases (t.status == dual_confirmed)) [
      | inr awaits ↦ inr (no_items xs s (rw (e, awaits) at h))
      | inl same ↦
          let d = eq_of_== t.status dual_confirmed same in
          let confirmed : IsConfirmed c p given = (t, e, d) in
          let terms =
            (create_settlement_terms_iff c p given (settlement_terms p)).1 (confirmed, refl) in
          let (m, f, h') =
            >>=-eq-ok (attestations_by_participant c digest p given xs) _ (rw (e, d, terms) at h) in
          inl (confirmed, m, f, ground arith)
    ]
  ]

  module _ (xs : List SettlementTransferAttestation) (m : Map SettlementTransferAttestation)
      (collected : attestations_by_participant c digest p given xs ≡ ok m) where
    -- Where an attestation of the map comes from.
    attestation_source :
        (a : SettlementTransferAttestation)
        → Occurs a (values m)
        → IsAttested c digest p given a.attestation
    unfolding attestations_by_participant
    attestation_source a o =
        let (x, _, e) =
          (Occurs-values_iff (validate_attestation c digest p given) attested_by
              (settlement conflicting) xs m a collected).0
            o in
        let (w, _, kept) = (validate_attestation_iff c digest p given x a).0 e in rw kept w

    participants-Separates :
        TellsParticipantsApart c p
        → Separates attested_by (by_attester_order c digest p given) (values m)
    unfolding before
    participants-Separates apart a b o q n = ground (
      arith,
      (attestation_source a o).participant,
      (attestation_source b q).participant,
      n,
      apart,
      c.swapped p.provider_member_id p.receiver_member_id,
    )

    -- The attestation that the map has of a member came in.
    attestation_of :
        (member : String)
        → has m member ≡ true
        → (a : TransferAttestation) × Occurs (container p a) xs
          × (a.member_id ≡ member)
          × IsAttested c digest p given a
    unfolding attestations_by_participant
    attestation_of member h = elim (Option-cases (get m member)) [
      | inl e ↦ absurd (ground arith)
      | inr (v, e) ↦
          elim (collect-Source (validate_attestation c digest p given) attested_by
            (settlement conflicting) xs [] m member v collected e) [
              | inl old ↦ absurd (unfold get in ground arith)
              | inr (x, o, f, at) ↦
                  let (w, same, kept) = (validate_attestation_iff c digest p given x v).0 f in
                  (x.attestation, rw same at o, ap attested_by (sym kept) ∙ at, w)
            ]
    ]

  attested_same :
      (m n : Map SettlementTransferAttestation)
      → ((k : String) → get n k ≡ get m k)
      → sort (by_attester_order c digest p given) (values m)
        ≡ sort (by_attester_order c digest p given) (values n)
      → attested n ≡ attested m
  attested_same m n lookups sorted =
      ground (arith, lookups p.provider_member_id, lookups p.receiver_member_id, sorted)

  same_nothing : {A : Type 0} (xs ys : List A) → SameSet xs ys → xs ≡ [] → ys ≡ []
  same_nothing xs [] same e = refl
  same_nothing xs (y ∷ ys) same e =
      let o : Occurs y [] = rw e at ((same y).1 (here refl)) in absurd (Occurs-nil o)

  -- If the attestations resolve, the same ones in any other order, and however often each is
  -- repeated, resolve too, and to the same state. The collation is to tell the two participants
  -- apart.
  pub resolve_attestations_same :
      (xs ys : List SettlementTransferAttestation) (s : SettlementAttestationState)
      → SameSet xs ys
      → TellsParticipantsApart c p
      → resolve_attestations c digest p given xs ≡ ok s
      → resolve_attestations c digest p given ys ≡ ok s
  unfolding attestations_by_participant
  resolve_attestations_same xs ys s same apart h = elim (resolve-cases xs s h) [
    | inr (none_came, _) ↦
        let nothing = same_nothing xs ys same none_came in rw (nothing, ← none_came) h
    | inl (confirmed, m, e, at) ↦
        let (n, f, lookups) =
          collect_same (validate_attestation c digest p given) attested_by (settlement conflicting)
            xs ys m same e in
        let sorted =
          sort-values_same attested_by (by_attester_order c digest p given)
            (λ a. before_irrefl c a.attestation.member_id)
            (λ a b d.
              before_trans c a.attestation.member_id b.attestation.member_id
                d.attestation.member_id)
            (validate_attestation c digest p given) (settlement conflicting) xs ys m n same e f
            (participants-Separates xs m e apart) in
        resolve-attested ys n confirmed f ∙ ap ok (attested_same m n lookups sorted ∙ sym at)
  ]

  IsAttested-IsSigned :
      (a : TransferAttestation) (member : String)
      → IsAttested c digest p given a
      → a.member_id ≡ member
      → IsFilled a
      → IsSigned (settlement_terms p) member a
  IsAttested-IsSigned a member w e f = record {
    member_id = e;
    member_present = w.member;
    key_present = f.key;
    digest_present = f.payload;
    signature_present = f.signature;
  }

  -- If attestations resolve to the dual-attested state, and none that came in has a blank key,
  -- digest or signature, then the settlement transfer can be composed of an attestation of the
  -- provider and one of the receiver that came in, and has the terms of the proposal.
  pub resolve_attestations-composes :
      (xs : List SettlementTransferAttestation) (s : SettlementAttestationState)
      → ((x : SettlementTransferAttestation) → Occurs x xs → IsFilled x.attestation)
      → resolve_attestations c digest p given xs ≡ ok s
      → s.status ≡ dual_attested
      → (a b : TransferAttestation) × Occurs (container p a) xs
        × Occurs (container p b) xs
        × (a.member_id ≡ p.provider_member_id)
        × (b.member_id ≡ p.receiver_member_id)
        × (create_confirmed_transfer c p given (a ∷ b ∷ [])
            ≡ ok (record { terms = settlement_terms p; attestations = a ∷ b ∷ [] }))
  resolve_attestations-composes xs s filled h d = elim (resolve-cases xs s h) [
    | inr (_, other) ↦ absurd (ground arith)
    | inl (confirmed, m, e, at) ↦
        let (a, o, is_provider, w) = attestation_of xs m e p.provider_member_id (ground arith) in
        let (b, q, is_receiver, v) = attestation_of xs m e p.receiver_member_id (ground arith) in
        let signed =
          create_transfer_signed (settlement_terms p) a b w.terms
            (IsAttested-IsSigned a p.provider_member_id w is_provider (filled (container p a) o))
            (IsAttested-IsSigned b p.receiver_member_id v is_receiver (filled (container p b) q)) in
        (
          a,
          b,
          o,
          q,
          is_provider,
          is_receiver,
          (create_confirmed_transfer_iff c p given (a ∷ b ∷ [])
                (record { terms = settlement_terms p; attestations = a ∷ b ∷ [] })).1
              (confirmed, signed),
        )
  ]
