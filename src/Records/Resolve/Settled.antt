-- ===== src/Records/Resolve/Settled.antt =====
-- What the loop over the transfers in packages/timebank-records/src/resolve.ts has checked.
use peer_hours.Prelude.{
  String, none, some, List, [], ◌∷◌, ◌≡◌, inl, inr, All, Occurs, here, there, Option-cases, ok,
  >>=-eq-ok, arith,
}
use peer_hours.Script.Map.{Map, get}
use peer_hours.Domain.Types.{ExchangeProposal}
use peer_hours.Ledger.Types.{Transfer}
use peer_hours.Ledger.Transfers.{create_transfer}
use peer_hours.Identity.Events.{MemberSigningKeyAuthorization}
use peer_hours.Identity.Verifier.Indexed.{IsSeparable}
use peer_hours.Identity.Verifier.Admitted.{IsAuthorized}
use peer_hours.Settlement.Acknowledgements.{SettlementAcknowledgement}
use peer_hours.Settlement.Transfers.Deterministic.{settlement_terms, IsConfirmed}
use peer_hours.Settlement.Transfers.Authorized.{validate_authorized_transfer, validate-IsAuthorized}
use peer_hours.Settlement.Attestations.{source_or_empty}
use peer_hours.Records.Resolve.{Runtime, listed, known_proposal}
use peer_hours.Records.Resolve.Admission.{assert_settlements_authorized}

module _ (rt : Runtime) (authorizations : List MemberSigningKeyAuthorization)
    (proposals : Map ExchangeProposal)
    (acknowledgements : Map (List SettlementAcknowledgement)) where
  abbrev pub Settles : Transfer → ExchangeProposal → Transfer → Type 0
  Settles t p u =
      (get proposals (source_or_empty t.source_proposal_id) ≡ some p)
      × IsConfirmed rt.collation p (listed acknowledgements p.id)
      × (create_transfer t ≡ ok u)
      × (u.terms ≡ settlement_terms p)
      × All
          (IsAuthorized rt.fingerprint rt.is_canonical rt.digest rt.is_signature rt.verify_terms
            authorizations u)
          u.attestations

  known_proposal-some :
      (id : String) (p : ExchangeProposal)
      → known_proposal proposals id ≡ ok p
      → get proposals id ≡ some p
  known_proposal-some id p h = elim (Option-cases (get proposals id)) [
    | inl e ↦ absurd (ground arith)
    | inr (q, e) ↦ ground arith
  ]

  head-Settles :
      (t : Transfer) (ts : List Transfer)
      → assert_settlements_authorized rt authorizations proposals acknowledgements (t ∷ ts) ≡ ok tt
      → t.reverses_transfer_id ≡ none
      → All IsSeparable authorizations
      → (p : ExchangeProposal) × (u : Transfer) × Settles t p u
  unfolding assert_settlements_authorized
  head-Settles t ts h ordinary separable =
      let (p, e, h₁) =
        >>=-eq-ok (known_proposal proposals (source_or_empty t.source_proposal_id)) _
          (rw ordinary at h) in
      let (u, f, h₂) =
        >>=-eq-ok
          (validate_authorized_transfer rt.fingerprint rt.is_canonical rt.digest rt.is_signature
            rt.verify_terms rt.collation p (listed acknowledgements p.id) t authorizations)
          _ h₁ in
      let (confirmed, made, terms, signed) =
        validate-IsAuthorized rt.fingerprint rt.is_canonical rt.digest rt.is_signature
          rt.verify_terms rt.collation p (listed acknowledgements p.id) t u authorizations separable
          f in
      (
        p,
        u,
        (
          known_proposal-some (source_or_empty t.source_proposal_id) p e,
          confirmed,
          made,
          terms,
          signed,
        ),
      )

  tail-passes :
      (t : Transfer) (ts : List Transfer)
      → assert_settlements_authorized rt authorizations proposals acknowledgements (t ∷ ts) ≡ ok tt
      → assert_settlements_authorized rt authorizations proposals acknowledgements ts ≡ ok tt
  unfolding assert_settlements_authorized
  tail-passes t ts h = elim (Option-cases t.reverses_transfer_id) [
    | inr (r, e) ↦ rw e at h
    | inl e ↦
        let (p, _, h₁) =
          >>=-eq-ok (known_proposal proposals (source_or_empty t.source_proposal_id)) _
            (rw e at h) in
        let (u, _, h₂) =
          >>=-eq-ok
            (validate_authorized_transfer rt.fingerprint rt.is_canonical rt.digest rt.is_signature
              rt.verify_terms rt.collation p (listed acknowledgements p.id) t authorizations)
            _ h₁ in
        h₂
  ]

  -- Where the loop over the transfers passes and the ids of the authorizations hold no NUL
  -- character, each of them that reverses none names an accepted proposal that was found; both
  -- participants have confirmed that exchange, the terms are exactly those that settle it, and each
  -- attestation carries their digest and a signature that verifies for them under an active
  -- authorization of the attesting member.
  pub assert_settlements_authorized-Settles :
      (ts : List Transfer) (t : Transfer)
      → assert_settlements_authorized rt authorizations proposals acknowledgements ts ≡ ok tt
      → Occurs t ts
      → t.reverses_transfer_id ≡ none
      → All IsSeparable authorizations
      → (p : ExchangeProposal) × (u : Transfer) × Settles t p u
  assert_settlements_authorized-Settles (x ∷ ts) t h (here same) ordinary separable =
      head-Settles t ts (rw (← same) at h) ordinary separable
  assert_settlements_authorized-Settles (x ∷ ts) t h (there o) ordinary separable =
      assert_settlements_authorized-Settles ts t (tail-passes x ts h) o ordinary separable
  assert_settlements_authorized-Settles [] t h o ordinary separable = elim o [ ]
