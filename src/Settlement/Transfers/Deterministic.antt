-- ===== src/Settlement/Transfers/Deterministic.antt =====
-- The settlement transfer of a proposal is determined by it, up to the two signatures.
use peer_hours.Prelude.{
  ◌≡◌, ◌↔◌, inl, inr, ◌∙◌, sym, refl, ap, true, false, none, some, List, arith, ok, text_equality,
  Result-cases, >>=-eq-ok,
}
use peer_hours.Script.Text.{is_blank}
use peer_hours.Script.Number.{strictly_equal, eq_of_strictly_equal, strictly_equal_self}
use peer_hours.Script.Collation.{Collation}
use peer_hours.Domain.Types.{ExchangeProposal}
use peer_hours.Ledger.Types.{TransferAttestation, TransferTerms, Transfer}
use peer_hours.Ledger.Transfers.{create_transfer}
use peer_hours.Ledger.Transfers.Normal.{create_transfer-IsNormal}
use peer_hours.Settlement.Acknowledgements.{
  SettlementAcknowledgement, SettlementConfirmationState, dual_confirmed, is_open,
  resolve_settlement_acknowledgements, ConfirmationStatus-discrete,
}
use peer_hours.Settlement.Acknowledgements.Exact.{exact, IsSettleable, validate_iff}
use peer_hours.Settlement.Acknowledgements.Confirmed.{resolve-confirmed_iff, resolve-admitted}
use peer_hours.Settlement.Transfers.{
  transfer_id_of, settlement_transfer_id, assert_confirmed, validate_settlement_transfer,
  create_settlement_terms, validate_confirmed_transfer, create_confirmed_transfer,
}

-- The terms that settle a proposal.
abbrev pub settlement_terms : ExchangeProposal → TransferTerms
settlement_terms p = record {
  id = transfer_id_of p.id;
  community_id = p.community_id;
  source_proposal_id = some p.id;
  provider_member_id = p.provider_member_id;
  recipient_member_id = p.receiver_member_id;
  minutes = p.minutes;
  reverses_transfer_id = none;
}

-- After the creation: the result is the created transfer, and these are its terms up to its id.
validated_terms :
    (p : ExchangeProposal) (t u v : Transfer)
    → create_transfer t ≡ ok v
    → validate_settlement_transfer p t ≡ ok u
    → (u ≡ v)
      × (strictly_equal v.minutes p.minutes ≡ true)
      × (v.minutes ≡ p.minutes → v.id ≡ transfer_id_of p.id → v.terms ≡ settlement_terms p)
unfolding validate_settlement_transfer
validated_terms p t u v e h = (ground arith, ground arith, λ m i. ground arith)

terms-validated :
    (p : ExchangeProposal) (t u : Transfer)
    → create_transfer t ≡ ok u
    → is_open p ≡ false
    → strictly_equal p.minutes p.minutes ≡ true
    → u.terms ≡ settlement_terms p
    → validate_settlement_transfer p t ≡ ok u
unfolding validate_settlement_transfer
terms-validated p t u e o m same = ground arith

module _ (c : Collation) (p : ExchangeProposal) (given : List SettlementAcknowledgement) where
  abbrev pub IsConfirmed : Type 0
  IsConfirmed =
      (s : SettlementConfirmationState) × (resolve_settlement_acknowledgements c p given ≡ ok s)
      × (s.status ≡ dual_confirmed)

  confirmed_iff : (assert_confirmed c p given ≡ ok tt) ↔ IsConfirmed
  unfolding assert_confirmed
  confirmed_iff = (
    λ h. elim (Result-cases (resolve_settlement_acknowledgements c p given)) [
      | inl (s, e) ↦ (s, e, ground arith)
      | inr (x, e) ↦ absurd (ground arith)
    ],
    λ (s, e, d). ground arith,
  )

  -- A confirmed proposal is accepted, with no blank text and positive whole minutes.
  confirmed-IsSettleable : IsConfirmed → IsSettleable p
  confirmed-IsSettleable (s, e, d) =
      let (o, _) = (resolve-confirmed_iff c p given s e).0 d in
      ((validate_iff p (exact p p.provider_member_id) (exact p p.provider_member_id)).0
        (resolve-admitted c p given s e (exact p p.provider_member_id) o)).0

  settlement_transfer_id_lem :
      is_blank p.id ≡ false → settlement_transfer_id p.id ≡ ok (transfer_id_of p.id)
  unfolding settlement_transfer_id
  settlement_transfer_id_lem h = ground arith

  -- The checks of `validateDualConfirmedSettlementTransfer`, one by one.
  validated_parts :
      (t u : Transfer)
      → validate_confirmed_transfer c p given t ≡ ok u
      → (assert_confirmed c p given ≡ ok tt)
        × (validate_settlement_transfer p t ≡ ok u)
        × (is_blank p.id ≡ false → u.id ≡ transfer_id_of p.id)
  unfolding validate_confirmed_transfer settlement_transfer_id
  validated_parts t u h = elim (Result-cases (assert_confirmed c p given)) [
    | inr (x, e) ↦ absurd (ground arith)
    | inl (done, e) ↦ elim (Result-cases (validate_settlement_transfer p t)) [
      | inr (x, f) ↦ absurd (ground arith)
      | inl (v, f) ↦ (ground arith, ground arith, λ n. ground arith)
    ]
  ]

  created :
      (t u : Transfer)
      → validate_settlement_transfer p t ≡ ok u
      → (v : Transfer) × (create_transfer t ≡ ok v)
  unfolding validate_settlement_transfer
  created t u h = elim (Result-cases (create_transfer t)) [
    | inl (v, e) ↦ (v, e)
    | inr (x, e) ↦ absurd (ground arith)
  ]

  -- `validateDualConfirmedSettlementTransfer` admits a transfer exactly when both participants
  -- confirmed the proposal, the transfer can be created, and its terms are those of the proposal
  -- with the id that the proposal determines; it returns the created transfer.
  pub validate_confirmed_transfer_iff :
      (t u : Transfer)
      → (validate_confirmed_transfer c p given t ≡ ok u)
        ↔ (IsConfirmed × (create_transfer t ≡ ok u) × (u.terms ≡ settlement_terms p))
  validate_confirmed_transfer_iff t u = (
    λ h.
        let (done, valid, named) = validated_parts t u h in
        let confirmed = confirmed_iff.0 done in
        let s = confirmed-IsSettleable confirmed in
        let (v, e) = created t u valid in
        let (same, m, terms) = validated_terms p t u v e valid in
        let same_terms : v.terms ≡ settlement_terms p =
          terms (eq_of_strictly_equal v.minutes p.minutes m) (rw (← same) (named s.id)) in
        (confirmed, e ∙ ap ok (sym same), rw same same_terms),
    λ (confirmed, e, same).
        let s = confirmed-IsSettleable confirmed in
        let valid =
          terms-validated p t u e s.accepted (strictly_equal_self p.minutes s.amount) same in
        let id : u.id ≡ transfer_id_of p.id = ap (λ (x : TransferTerms). x.id) same in
        unfold validate_confirmed_transfer in
        rw (confirmed_iff.1 confirmed, valid, settlement_transfer_id_lem s.id) (ground arith),
  )

  pub create_settlement_terms_iff :
      (terms : TransferTerms)
      → (create_settlement_terms c p given ≡ ok terms)
        ↔ (IsConfirmed × (terms ≡ settlement_terms p))
  unfolding create_settlement_terms settlement_transfer_id
  create_settlement_terms_iff terms = (
    λ h. elim (Result-cases (assert_confirmed c p given)) [
      | inr (x, e) ↦ absurd (ground arith)
      | inl (done, e) ↦
          let confirmed = confirmed_iff.0 e in
          let present = (confirmed-IsSettleable confirmed).id in (confirmed, ground arith)
    ],
    λ (confirmed, same).
        let done = confirmed_iff.1 confirmed in
        let present = (confirmed-IsSettleable confirmed).id in rw (done, same) (ground arith),
  )

  abbrev signed_terms : List TransferAttestation → Transfer
  signed_terms attestations = record { terms = settlement_terms p; attestations = attestations }

  composed_parts :
      (attestations : List TransferAttestation) (u : Transfer)
      → create_confirmed_transfer c p given attestations ≡ ok u
      → (v : Transfer) × (create_transfer (signed_terms attestations) ≡ ok v)
        × (validate_confirmed_transfer c p given v ≡ ok u)
  unfolding create_confirmed_transfer
  composed_parts attestations u h =
      let (terms, e, h₁) = >>=-eq-ok (create_settlement_terms c p given) _ h in
      let (v, f, h₂) =
        >>=-eq-ok (create_transfer (record { terms = terms; attestations = attestations })) _ h₁ in
      let (_, same) = (create_settlement_terms_iff terms).0 e in (v, rw same at f, h₂)

  -- Composing succeeds exactly when both participants confirmed the proposal and the transfer with
  -- the terms of the proposal and the given signatures can be created; the result is that transfer.
  pub create_confirmed_transfer_iff :
      (attestations : List TransferAttestation) (u : Transfer)
      → (create_confirmed_transfer c p given attestations ≡ ok u) ↔ (
          IsConfirmed
          × (create_transfer (record { terms = settlement_terms p; attestations = attestations })
              ≡ ok u))
  create_confirmed_transfer_iff attestations u = (
    λ h.
        let (v, e, valid) = composed_parts attestations u h in
        let (confirmed, f, _) = (validate_confirmed_transfer_iff v u).0 valid in
        let (_, _, normal) = create_transfer-IsNormal (signed_terms attestations) v e in
        let same : u ≡ v = ground (arith, f, normal.again) in (confirmed, e ∙ ap ok (sym same)),
    λ (confirmed, e).
        let (same, _, normal) = create_transfer-IsNormal (signed_terms attestations) u e in
        let terms = (create_settlement_terms_iff (settlement_terms p)).1 (confirmed, refl) in
        let valid = (validate_confirmed_transfer_iff u u).1 (confirmed, normal.again, same) in
        unfold create_confirmed_transfer in rw (terms, e) valid,
  )
