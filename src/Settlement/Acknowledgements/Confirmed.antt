-- ===== src/Settlement/Acknowledgements/Confirmed.antt =====
-- `resolveSettlementAcknowledgements` over a set of acknowledgements.
use peer_hours.Prelude.{
  String, ◌≡◌, ◌≢◌, ◌↔◌, ◌∙◌, inl, inr, refl, sym, ap, true, false, some, List, [], arith, ok,
  text_equality, Ordering, ◌&&◌, if◌then◌else◌, Occurs, SameSet, acknowledgement, conflicting,
  Result-cases, Option-cases,
}
use peer_hours.Script.Map.{Map, get, has, values}
use peer_hours.Script.Sort.{sort}
use peer_hours.Script.Sort.Laws.{sort-Occurs, Occurs-sort}
use peer_hours.Script.Collation.{Collation, before, before_irrefl, before_trans}
use peer_hours.Script.Collect.{collect-Source, get-collect_item, collect_same, Occurs-values_iff}
use peer_hours.Script.Collect.Order.{Separates, sort-values_same}
use peer_hours.Domain.Types.{ExchangeProposal}
use peer_hours.Settlement.Acknowledgements.{
  SettlementAcknowledgement, SettlementConfirmationState, dual_confirmed, awaiting_counterparty,
  Acknowledgement-discrete, is_open, acknowledged_by, assert_accepted_proposal,
  validate_settlement_acknowledgement, acknowledgements_by_participant, by_participant_order,
  resolve_settlement_acknowledgements,
}
use peer_hours.Settlement.Acknowledgements.Exact.{exact, validate_iff}

module _ (p : ExchangeProposal) where
  -- An acknowledgement that a lookup finds is the exact one, and came in.
  found :
      (given : List SettlementAcknowledgement) (m : Map SettlementAcknowledgement) (member : String)
      (v : SettlementAcknowledgement)
      → acknowledgements_by_participant p given ≡ ok m
      → get m member ≡ some v
      → Occurs (exact p member) given
  unfolding acknowledgements_by_participant
  found given m member v h g =
      elim (collect-Source (validate_settlement_acknowledgement p) acknowledged_by
        (acknowledgement conflicting) given [] m member v h g) [
          | inl old ↦ absurd (unfold get in ground arith)
          | inr (x, o, e, at) ↦
              let (_, _, same, kept) = (validate_iff p x v).0 e in
              let named : exact p member ≡ x = rw (← at, kept) (sym same) in rw named o
        ]

  has_iff :
      (given : List SettlementAcknowledgement) (m : Map SettlementAcknowledgement) (member : String)
      → acknowledgements_by_participant p given ≡ ok m
      → (has m member ≡ true) ↔ Occurs (exact p member) given
  unfolding acknowledgements_by_participant
  has_iff given m member h = (
    λ g. elim (Option-cases (get m member)) [
      | inl e ↦ absurd (ground arith)
      | inr (v, e) ↦ found given m member v h e
    ],
    λ o.
        let (b, e, g) =
          get-collect_item (validate_settlement_acknowledgement p) acknowledged_by
            (acknowledgement conflicting) given [] m (exact p member) h o in
        let (_, _, _, kept) = (validate_iff p (exact p member) b).0 e in
        let at : get m member ≡ some (exact p member) = rw kept at g in ground arith,
  )

module _ (c : Collation) (p : ExchangeProposal) where
  -- What a resolution that does not throw has gone through.
  resolved :
      (given : List SettlementAcknowledgement) (s : SettlementConfirmationState)
      → resolve_settlement_acknowledgements c p given ≡ ok s
      → (is_open p ≡ false)
        × (m : Map SettlementAcknowledgement) × (acknowledgements_by_participant p given ≡ ok m)
        × (s.acknowledgements ≡ sort (by_participant_order c) (values m))
        × ((s.status ≡ dual_confirmed)
            ↔ ((has m p.provider_member_id ≡ true) × (has m p.receiver_member_id ≡ true)))
  unfolding resolve_settlement_acknowledgements assert_accepted_proposal
  resolved given s h = elim (Result-cases (acknowledgements_by_participant p given)) [
    | inl (m, e) ↦
        (ground arith, m, e, ground arith, (λ q. (ground arith, ground arith), λ q. ground arith))
    | inr (x, e) ↦ absurd (ground arith)
  ]

  -- If the acknowledgements of a proposal resolve, the resolved status is dual-confirmed exactly
  -- when the acknowledgement of the provider and that of the receiver both came in, each with
  -- the terms of the proposal.
  pub resolve-confirmed_iff :
      (given : List SettlementAcknowledgement) (s : SettlementConfirmationState)
      → resolve_settlement_acknowledgements c p given ≡ ok s
      → (s.status ≡ dual_confirmed) ↔ (
          Occurs (exact p p.provider_member_id) given × Occurs (exact p p.receiver_member_id) given)
  resolve-confirmed_iff given s h =
      let (_, m, e, _, status) = resolved given s h in
      let provider = has_iff p given m p.provider_member_id e in
      let receiver = has_iff p given m p.receiver_member_id e in
      (
        λ q. let (a, b) = status.0 q in (provider.0 a, receiver.0 b),
        λ (a, b). status.1 (provider.1 a, receiver.1 b),
      )

  admitted :
      (given : List SettlementAcknowledgement) (m : Map SettlementAcknowledgement)
      (a : SettlementAcknowledgement)
      → acknowledgements_by_participant p given ≡ ok m
      → Occurs a given
      → validate_settlement_acknowledgement p a ≡ ok a
  unfolding acknowledgements_by_participant
  admitted given m a e o =
      let (b, f, _) =
        get-collect_item (validate_settlement_acknowledgement p) acknowledged_by
          (acknowledgement conflicting) given [] m a e o in
      let (_, _, _, kept) = (validate_iff p a b).0 f in f ∙ ap ok kept

  abbrev resolution : Map SettlementAcknowledgement → SettlementConfirmationState
  resolution m = record {
    proposal_id = p.id;
    status =
        if has m p.provider_member_id && has m p.receiver_member_id
        then dual_confirmed
        else awaiting_counterparty;
    acknowledgements = sort (by_participant_order c) (values m);
  }

  resolve-resolution :
      (given : List SettlementAcknowledgement) (m : Map SettlementAcknowledgement)
      → is_open p ≡ false
      → acknowledgements_by_participant p given ≡ ok m
      → resolve_settlement_acknowledgements c p given ≡ ok (resolution m)
  unfolding resolve_settlement_acknowledgements assert_accepted_proposal
  resolve-resolution given m o e = rw (o, e) refl

  resolution_same :
      (m n : Map SettlementAcknowledgement)
      → ((k : String) → get n k ≡ get m k)
      → sort (by_participant_order c) (values m) ≡ sort (by_participant_order c) (values n)
      → resolution n ≡ resolution m
  resolution_same m n lookups sorted =
      ground (arith, lookups p.provider_member_id, lookups p.receiver_member_id, sorted)

  resolution-SameSet :
      (given : List SettlementAcknowledgement) (m : Map SettlementAcknowledgement)
      → acknowledgements_by_participant p given ≡ ok m
      → SameSet (sort (by_participant_order c) (values m)) given
  unfolding acknowledgements_by_participant
  resolution-SameSet given m e a =
      let source =
        Occurs-values_iff (validate_settlement_acknowledgement p) acknowledged_by
          (acknowledgement conflicting) given m a e in
      (
        λ o.
            let (x, q, f) = source.0 (sort-Occurs (by_participant_order c) (values m) o) in
            let (_, _, _, kept) = (validate_iff p x a).0 f in rw kept q,
        λ o. Occurs-sort (by_participant_order c) (source.1 (a, o, admitted given m a e o)),
      )

  pub resolve-admitted :
      (given : List SettlementAcknowledgement) (s : SettlementConfirmationState)
      → resolve_settlement_acknowledgements c p given ≡ ok s
      → (a : SettlementAcknowledgement) → Occurs a given
      → validate_settlement_acknowledgement p a ≡ ok a
  resolve-admitted given s h a o =
      let (_, m, e, _, _) = resolved given s h in admitted given m a e o

  -- The collation tells the two participants apart.
  abbrev pub TellsParticipantsApart : Type 0
  TellsParticipantsApart = c.locale_compare p.provider_member_id p.receiver_member_id ≢ Ordering.eq

  participants-Separates :
      (given : List SettlementAcknowledgement) (m : Map SettlementAcknowledgement)
      → acknowledgements_by_participant p given ≡ ok m
      → TellsParticipantsApart
      → Separates acknowledged_by (by_participant_order c) (values m)
  unfolding before
  participants-Separates given m e apart a b o q n =
      let as_given = λ (x : SettlementAcknowledgement) (r : Occurs x (values m)).
        let t = resolution-SameSet given m e x in
        let (_, by, _, _) =
          (validate_iff p x x).0
            (admitted given m x e (t.0 (Occurs-sort (by_participant_order c) r))) in
        by in
      ground (
        arith,
        as_given a o,
        as_given b q,
        n,
        apart,
        c.swapped p.provider_member_id p.receiver_member_id,
      )

  -- If the acknowledgements resolve, the same ones in any other order, and however often each is
  -- repeated, resolve too, and to the same state. The collation is to tell the two participants
  -- apart.
  pub resolve_same :
      (xs ys : List SettlementAcknowledgement) (s : SettlementConfirmationState)
      → SameSet xs ys
      → TellsParticipantsApart
      → resolve_settlement_acknowledgements c p xs ≡ ok s
      → resolve_settlement_acknowledgements c p ys ≡ ok s
  unfolding acknowledgements_by_participant
  resolve_same xs ys s same apart h =
      let (o, m, e, _, _) = resolved xs s h in
      let (n, f, lookups) =
        collect_same (validate_settlement_acknowledgement p) acknowledged_by
          (acknowledgement conflicting) xs ys m same e in
      let sorted =
        sort-values_same acknowledged_by (by_participant_order c)
          (λ a. before_irrefl c a.acknowledged_by_member_id)
          (λ a b d.
            before_trans c a.acknowledged_by_member_id b.acknowledged_by_member_id
              d.acknowledged_by_member_id)
          (validate_settlement_acknowledgement p) (acknowledgement conflicting) xs ys m n same e f
          (participants-Separates xs m e apart) in
      let first = resolve-resolution xs m o e in
      resolve-resolution ys n o f
      ∙ ap ok (resolution_same m n (λ k. lookups k) sorted)
      ∙ sym first
      ∙ h
