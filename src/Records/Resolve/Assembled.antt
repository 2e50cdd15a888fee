-- ===== src/Records/Resolve/Assembled.antt =====
-- What `resolveTimebankRecords` of packages/timebank-records/src/resolve.ts has checked for the
-- state that it returns.
use peer_hours.Prelude.{
  ◌⊎◌, true, none, some, String, List, [], ◌∷◌, Occurs, here, there, ◌≡◌, inl, inr, ok, err, Result,
  >>=-eq-ok, arith, All, ◌==◌, text_equality, Bool-cases,
}
use peer_hours.Script.Map.{Map, get, set}
use peer_hours.Script.Map.Laws.{get-set}
use peer_hours.Domain.Types.{ExchangeProposal}
use peer_hours.Ledger.Types.{Transfer}
use peer_hours.Identity.Events.{MemberSigningKeyAuthorization}
use peer_hours.Identity.Verifier.Indexed.{IsSeparable}
use peer_hours.Settlement.Acknowledgements.{SettlementAcknowledgement}
use peer_hours.Records.Json.{Members, field}
use peer_hours.Records.Envelope.{RecordEnvelope, reduce_record_envelopes}
use peer_hours.Records.Timebank.{reads}
use peer_hours.Records.Resolve.{
  Runtime, ResolvedTimebankState, filter, is_member_authored_kind, resolution_error, by_proposal_id,
  acknowledgements_by_proposal,
}
use peer_hours.Records.Resolve.Admission.{
  assert_member_signed_domain_records, assert_settlements_authorized,
}
use peer_hours.Records.Resolve.Admitted.{IsAdmitted, assert_member_signed_domain_records-IsAdmitted}
use peer_hours.Records.Resolve.Settled.{Settles, assert_settlements_authorized-Settles}
use peer_hours.Records.Resolve.State.{
  resolve_authorizations, resolved_state, assembled_state, resolve_timebank_records,
}

abbrev value_or : {A : Type 0} → A → Result A → A
value_or a (ok value) = value
value_or a (err _) = a

-- The acknowledgements of a state, by proposal.
abbrev pub acknowledged : ResolvedTimebankState → Map (List SettlementAcknowledgement)
acknowledged s = value_or [] (
    acknowledgements_by_proposal (by_proposal_id [] s.accepted_proposals) []
      s.settlement_acknowledgements)

by_proposal_id-source :
    (m : Map ExchangeProposal) (ps : List ExchangeProposal) (id : String) (p : ExchangeProposal)
    → get (by_proposal_id m ps) id ≡ some p
    → (get m id ≡ some p) ⊎ Occurs p ps
unfolding by_proposal_id
by_proposal_id-source m [] id p h = inl h
by_proposal_id-source m (q ∷ ps) id p h = elim (by_proposal_id-source (set m q.id q) ps id p h) [
  | inr o ↦ inr (there o)
  | inl g ↦ elim (Bool-cases (q.id == id)) [
    | inl same ↦
        let found : some q ≡ some p = rw (get-set m q.id id q, same) at g in
        inr (here (ground arith))
    | inr other ↦ inl (rw (get-set m q.id id q, other) at g)
  ]
]

resolution_error-ok : {A : Type 0} (r : Result A) (a : A) → resolution_error r ≡ ok a → r ≡ ok a
resolution_error-ok (ok b) a h = h
resolution_error-ok (err e) a h = absurd (ground arith)

module _ (rt : Runtime) (community : String) where
  assembled_state-authorizations :
      (authorizations : List MemberSigningKeyAuthorization) (records : List RecordEnvelope)
      (s : ResolvedTimebankState)
      → assembled_state rt community records authorizations ≡ ok s
      → s.authorizations ≡ authorizations
  unfolding assembled_state
  assembled_state-authorizations authorizations records s h = ground arith

  assembled_state-settlements :
      (authorizations : List MemberSigningKeyAuthorization) (records : List RecordEnvelope)
      (s : ResolvedTimebankState)
      → assembled_state rt community records authorizations ≡ ok s
      → assert_settlements_authorized rt authorizations
          (by_proposal_id [] s.accepted_proposals)
          (acknowledged s)
          s.transfers
        ≡ ok tt
  unfolding assembled_state
  assembled_state-settlements authorizations records s h = ground arith

  -- The parts of a resolution.
  parts :
      (records : List Members) (s : ResolvedTimebankState)
      → resolve_timebank_records rt community records ≡ ok s
      → (assert_member_signed_domain_records rt records community s.authorizations ≡ ok tt)
        × (assert_settlements_authorized rt s.authorizations
              (by_proposal_id [] s.accepted_proposals)
              (acknowledged s)
              s.transfers
            ≡ ok tt)
  unfolding resolved_state resolve_timebank_records
  parts records s h =
      let (normalized, _, h₁) =
        >>=-eq-ok (reduce_record_envelopes rt.is_canonical rt.collation records) _
          (resolution_error-ok (resolved_state rt community records) s h) in
      let community_records = filter (λ r. r.community_id == community) normalized in
      let (authorizations, _, h₂) = >>=-eq-ok (resolve_authorizations rt community_records) _ h₁ in
      let (_, admitted, h₃) =
        >>=-eq-ok (assert_member_signed_domain_records rt records community authorizations) _ h₂ in
      let same = assembled_state-authorizations authorizations community_records s h₃ in
      (
        rw same admitted,
        rw same (assembled_state-settlements authorizations community_records s h₃),
      )

  -- If a history resolves and the ids of the resolved authorizations hold no NUL character, each of
  -- its records that names the community and a kind that members author is a complete signed
  -- record, whose signature verifies for the whole envelope under the key of an active
  -- authorization of the resolved state, with the community and the author of the envelope as its
  -- community and member; and the check that the author takes part in what the record states
  -- passes.
  pub resolve_timebank_records-IsAdmitted :
      (records : List Members) (s : ResolvedTimebankState) (r : Members)
      → resolve_timebank_records rt community records ≡ ok s
      → Occurs r records
      → reads (field r "communityId") community ≡ true
      → is_member_authored_kind (field r "kind") ≡ true
      → All IsSeparable s.authorizations
      → IsAdmitted rt community s.authorizations r
  resolve_timebank_records-IsAdmitted records s r h =
      assert_member_signed_domain_records-IsAdmitted rt community s.authorizations records r
        (parts records s h).0

  -- If a history resolves and the ids of the resolved authorizations hold no NUL character, each
  -- transfer of the resolved state that reverses none names a proposal of the state that was
  -- accepted; both participants have confirmed that exchange by acknowledgements of the state, the
  -- terms are exactly those that settle it, and each attestation carries their digest and a
  -- signature that verifies for them under an active authorization of the state for the attesting
  -- member, its key id and the community.
  pub resolve_timebank_records-Settles :
      (records : List Members) (s : ResolvedTimebankState) (t : Transfer)
      → resolve_timebank_records rt community records ≡ ok s
      → Occurs t s.transfers
      → t.reverses_transfer_id ≡ none
      → All IsSeparable s.authorizations
      → (p : ExchangeProposal) × (u : Transfer) × Occurs p s.accepted_proposals
        × Settles rt s.authorizations
            (by_proposal_id [] s.accepted_proposals)
            (acknowledged s)
            t
            p
            u
  unfolding get
  resolve_timebank_records-Settles records s t h o ordinary separable =
      let (p, u, settles) =
        assert_settlements_authorized-Settles rt s.authorizations
          (by_proposal_id [] s.accepted_proposals) (acknowledged s) s.transfers t
          (parts records s h).1 o ordinary separable in
      let accepted : Occurs p s.accepted_proposals =
        elim (by_proposal_id-source [] s.accepted_proposals _ p settles.0) [
          | inl none_there ↦ cc
          | inr found ↦ found
        ] in
      (p, u, accepted, settles)
