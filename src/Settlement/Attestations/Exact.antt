-- ===== src/Settlement/Attestations/Exact.antt =====
-- An attestation that is admitted is the container of a participant's signature of the terms.
use peer_hours.Prelude.{
  String, ◌≡◌, ◌↔◌, ◌∙◌, refl, ap, false, List, arith, ok, inl, inr, Result, throw_if, ◌>>=◌, ◌>>◌,
  ◌!=◌, ◌&&◌, SettlementRule, settlement, wrong_digest, text_equality, Result-cases, >>=-eq-ok,
}
use peer_hours.Script.Text.{is_blank}
use peer_hours.Script.Collation.{Collation}
use peer_hours.Domain.Types.{ExchangeProposal}
use peer_hours.Ledger.Types.{TransferAttestation, TransferTerms}
use peer_hours.Ledger.Transfers.{create_transfer_terms}
use peer_hours.Ledger.Transfers.Normal.{create_transfer_terms_lem}
use peer_hours.Identity.Payload.{transfer_payload_digest}
use peer_hours.Settlement.Acknowledgements.{SettlementAcknowledgement}
use peer_hours.Settlement.Acknowledgements.Exact.{IsParticipant}
use peer_hours.Settlement.Transfers.{create_settlement_terms}
use peer_hours.Settlement.Transfers.Deterministic.{
  settlement_terms, IsConfirmed, create_settlement_terms_iff,
}
use peer_hours.Settlement.Attestations.{
  SettlementTransferAttestation, attestation_id, settlement_transfer_attestation_id,
  source_or_empty, create_attestation, validate_attestation,
}

-- The container of an attestation of the settlement terms.
abbrev pub container : ExchangeProposal → TransferAttestation → SettlementTransferAttestation
container p a = record {
  id = attestation_id p.id a.member_id;
  community_id = p.community_id;
  source_proposal_id = p.id;
  attestation = a;
}

module _ (c : Collation) (digest : TransferTerms → String) (p : ExchangeProposal)
    (given : List SettlementAcknowledgement) where
  -- `a` is a participant's attestation of the terms that settle the proposal.
  pub record IsAttested (a : TransferAttestation) : Type 0 where
    pub confirmed : IsConfirmed c p given
    pub terms : create_transfer_terms (settlement_terms p) ≡ ok (settlement_terms p)
    pub id : is_blank p.id ≡ false
    pub member : is_blank a.member_id ≡ false
    pub participant : IsParticipant p a.member_id
    pub payload : a.payload_digest ≡ digest (settlement_terms p)

  -- What follows the terms in `createSettlementTransferAttestation`.
  abbrev finish : TransferTerms → TransferAttestation → Result SettlementTransferAttestation
  finish terms a = do
    throw_if (a.member_id != terms.provider_member_id && a.member_id != terms.recipient_member_id)
        (settlement SettlementRule.not_participant)
    expected ← transfer_payload_digest digest terms
    throw_if (a.payload_digest != expected) (settlement wrong_digest)
    id ← settlement_transfer_attestation_id (source_or_empty terms.source_proposal_id) a.member_id
    ok (record {
      id = id;
      community_id = terms.community_id;
      source_proposal_id = source_or_empty terms.source_proposal_id;
      attestation = a;
    })

  finished :
      (a : TransferAttestation) (s : SettlementTransferAttestation)
      → IsConfirmed c p given
      → finish (settlement_terms p) a ≡ ok s
      → IsAttested a × (s ≡ container p a)
  unfolding settlement_transfer_attestation_id transfer_payload_digest
  finished a s confirmed h = elim (Result-cases (create_transfer_terms (settlement_terms p))) [
    | inr (x, e) ↦ absurd (ground arith)
    | inl (v, e) ↦
        let same = (create_transfer_terms_lem (settlement_terms p) v e).0 in
        let e' : create_transfer_terms (settlement_terms p) ≡ ok (settlement_terms p) =
          e ∙ ap ok same in
        (
          record {
            confirmed = confirmed;
            terms = e';
            id = ground arith;
            member = ground arith;
            participant = ground arith;
            payload = ground arith;
          },
          ground arith,
        )
  ]

  create_attestation-IsAttested :
      (a : TransferAttestation) (s : SettlementTransferAttestation)
      → create_attestation c digest p given a ≡ ok s
      → IsAttested a × (s ≡ container p a)
  unfolding create_attestation
  create_attestation-IsAttested a s h =
      let (terms, e, h₁) = >>=-eq-ok (create_settlement_terms c p given) _ h in
      let (confirmed, same) = (create_settlement_terms_iff c p given terms).0 e in
      finished a s confirmed (rw same at h₁)

  IsAttested-create_attestation :
      (a : TransferAttestation)
      → IsAttested a
      → create_attestation c digest p given a ≡ ok (container p a)
  unfolding create_attestation settlement_transfer_attestation_id transfer_payload_digest
  IsAttested-create_attestation a w =
      let terms =
        (create_settlement_terms_iff c p given (settlement_terms p)).1 (w.confirmed, refl) in
      rw terms (ground (arith, w.terms, w.id, w.member, w.participant, w.payload))

  -- `validateSettlementTransferAttestation` admits exactly the container, for its proposal, of an
  -- attestation by a participant whose digest is that of the terms that settle the confirmed
  -- proposal; and returns it unchanged.
  pub validate_attestation_iff :
      (s t : SettlementTransferAttestation)
      → (validate_attestation c digest p given s ≡ ok t)
        ↔ (IsAttested s.attestation × (s ≡ container p s.attestation) × (t ≡ s))
  unfolding validate_attestation
  validate_attestation_iff s t = (
    λ h.
        let (v, e, h₁) = >>=-eq-ok (create_attestation c digest p given s.attestation) _ h in
        let (w, same) = create_attestation-IsAttested s.attestation v e in
        (w, ground arith, ground arith),
    λ (w, same, kept). let e = IsAttested-create_attestation s.attestation w in rw e (ground arith),
  )
