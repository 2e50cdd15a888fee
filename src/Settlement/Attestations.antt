-- ===== src/Settlement/Attestations.antt =====
-- The attestations that the participants of a confirmed exchange publish one by one, in
-- packages/timebank-settlement/src/index.ts.
pub mod Exact
pub mod Collected
use Prim.Native.String.{◌++◌}
use peer_hours.Prelude.{
  Bool, not, ◌||◌, ◌&&◌, String, none, some, List, [], ◌∷◌, ◌==◌, ◌!=◌, text_equality, Option,
  String-discrete, if◌then◌else◌, Result, ok, throw_if, ◌>>=◌, ◌>>◌, SettlementRule, settlement,
  not_participant, wrong_digest, wrong_container, premature, conflicting, required_ids,
}
use peer_hours.Script.Text.{is_blank}
use peer_hours.Script.Map.{Map, has, values}
use peer_hours.Script.Sort.{sort}
use peer_hours.Script.Collation.{Collation, before}
use peer_hours.Script.Collect.{collect}
use peer_hours.Domain.Types.{ExchangeProposal}
use peer_hours.Ledger.Types.{TransferAttestation, TransferTerms, Attestation-discrete}
use peer_hours.Identity.Payload.{transfer_payload_digest}
use peer_hours.Settlement.Acknowledgements.{
  SettlementAcknowledgement, dual_confirmed, ConfirmationStatus-discrete,
  resolve_settlement_acknowledgements,
}
use peer_hours.Settlement.Transfers.{create_settlement_terms}

pub record SettlementTransferAttestation : Type 0 where
  pub id : String
  pub community_id : String
  pub source_proposal_id : String
  pub attestation : TransferAttestation

pub data AttestationStatus : Type 0 where
  awaiting_confirmation awaiting_attestations dual_attested : AttestationStatus

pub record SettlementAttestationState : Type 0 where
  pub proposal_id : String
  pub status : AttestationStatus
  pub attestations : List SettlementTransferAttestation

instance unfoldable pub Container-discrete : Discrete SettlementTransferAttestation
unfolding String-discrete Attestation-discrete
Container-discrete = hlevel (String-discrete, Attestation-discrete)

abbrev pub attestation_id : String → String → String
attestation_id proposal member = proposal ++ ("/settlement-attestation/" ++ member)

unfoldable pub settlement_transfer_attestation_id : String → String → Result String
settlement_transfer_attestation_id proposal member = do
  throw_if (is_blank proposal || is_blank member) (settlement required_ids)
  ok (attestation_id proposal member)

-- `terms.sourceProposalId ?? ""`
abbrev pub source_or_empty : Option String → String
source_or_empty none = ""
source_or_empty (some id) = id

abbrev pub attested_by : SettlementTransferAttestation → String
attested_by a = a.attestation.member_id

-- `input.attestations.length > 0`
abbrev pub has_items {ℓ} : {A : Type ℓ} → List A → Bool
has_items [] = Bool.false
has_items (_ ∷ _) = Bool.true

module _ (c : Collation) (digest : TransferTerms → String) (proposal : ExchangeProposal)
    (acknowledgements : List SettlementAcknowledgement) where
  unfoldable pub create_attestation : TransferAttestation → Result SettlementTransferAttestation
  create_attestation attestation = do
    terms ← create_settlement_terms c proposal acknowledgements
    throw_if
        (attestation.member_id != terms.provider_member_id
          && attestation.member_id != terms.recipient_member_id)
        (settlement SettlementRule.not_participant)
    expected ← transfer_payload_digest digest terms
    throw_if (attestation.payload_digest != expected) (settlement wrong_digest)
    id ←
        settlement_transfer_attestation_id (source_or_empty terms.source_proposal_id)
          attestation.member_id
    ok (record {
      id = id;
      community_id = terms.community_id;
      source_proposal_id = source_or_empty terms.source_proposal_id;
      attestation = attestation;
    })

  unfoldable pub validate_attestation :
      SettlementTransferAttestation → Result SettlementTransferAttestation
  validate_attestation given = do
    expected ← create_attestation given.attestation
    throw_if
        (given.id != expected.id
          || given.community_id != expected.community_id
          || given.source_proposal_id != expected.source_proposal_id)
        (settlement wrong_container)
    ok expected

  -- The loop of `resolveSettlementTransferAttestations`.
  unfoldable pub attestations_by_participant :
      List SettlementTransferAttestation → Result (Map SettlementTransferAttestation)
  unfolding Container-discrete
  attestations_by_participant attestations =
      collect validate_attestation attested_by (settlement SettlementRule.conflicting) []
        attestations

  abbrev pub by_attester_order :
      SettlementTransferAttestation → SettlementTransferAttestation → Bool
  by_attester_order left right = before c left.attestation.member_id right.attestation.member_id

  unfoldable pub resolve_attestations :
      List SettlementTransferAttestation → Result SettlementAttestationState
  unfolding ConfirmationStatus-discrete
  resolve_attestations attestations = do
    confirmation ← resolve_settlement_acknowledgements c proposal acknowledgements
    if confirmation.status != dual_confirmed
        then (do
          throw_if (has_items attestations) (settlement premature)
          ok (record {
            proposal_id = proposal.id;
            status = awaiting_confirmation;
            attestations = [];
          }))
        else (do
          terms ← create_settlement_terms c proposal acknowledgements
          by_participant ← attestations_by_participant attestations
          ok (record {
            proposal_id = source_or_empty terms.source_proposal_id;
            status =
                if has by_participant terms.provider_member_id
                  && has by_participant terms.recipient_member_id
                then dual_attested
                else awaiting_attestations;
            attestations = sort by_attester_order (values by_participant);
          }))
