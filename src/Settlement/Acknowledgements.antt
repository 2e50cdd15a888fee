-- ===== src/Settlement/Acknowledgements.antt =====
-- packages/timebank-settlement/src/settlement-acknowledgement.ts.
pub mod Exact
pub mod Confirmed
use Prim.Native.String.{◌++◌}
use peer_hours.Prelude.{
  Bool, not, ◌||◌, ◌&&◌, String, Option, none, some, List, [], ◌==◌, ◌!=◌, text_equality,
  String-discrete, if◌then◌else◌, Result, ok, err, throw_if, ◌>>=◌, ◌>>◌, AcknowledgementRule,
  acknowledgement, required, bad_minutes, not_accepted, not_participant, wrong_id, wrong_terms,
  conflicting,
}
use peer_hours.Script.Text.{is_blank}
use peer_hours.Script.Number.{Number, Number-discrete, is_bad_amount, strictly_equal}
use peer_hours.Script.Map.{Map, has, values}
use peer_hours.Script.Sort.{sort}
use peer_hours.Script.Collation.{Collation, before}
use peer_hours.Script.Collect.{collect}
use peer_hours.Domain.Types.{ExchangeProposal, ProposalStatus, accepted, ProposalStatus-discrete}

pub record SettlementAcknowledgement : Type 0 where
  pub id : String
  pub community_id : String
  pub source_proposal_id : String
  pub provider_member_id : String
  pub recipient_member_id : String
  pub minutes : Number
  pub acknowledged_by_member_id : String

pub data ConfirmationStatus : Type 0 where
  awaiting_counterparty dual_confirmed : ConfirmationStatus

pub record SettlementConfirmationState : Type 0 where
  pub proposal_id : String
  pub status : ConfirmationStatus
  pub acknowledgements : List SettlementAcknowledgement

instance unfoldable pub Acknowledgement-discrete : Discrete SettlementAcknowledgement
unfolding String-discrete Number-discrete
Acknowledgement-discrete = hlevel (String-discrete, Number-discrete)

instance unfoldable pub ConfirmationStatus-discrete : Discrete ConfirmationStatus
ConfirmationStatus-discrete = hlevel

unfoldable pub assert_text : String → String → Result (Unit {0})
assert_text value label =
    throw_if (is_blank value) (acknowledgement (AcknowledgementRule.required label))

unfoldable pub assert_positive_whole_minutes : Number → Result (Unit {0})
assert_positive_whole_minutes minutes =
    throw_if (is_bad_amount minutes) (acknowledgement AcknowledgementRule.bad_minutes)

-- `proposal.status !== "accepted" || proposal.acceptedByMemberId === undefined`
unfoldable pub is_open : ExchangeProposal → Bool
unfolding ProposalStatus-discrete
is_open proposal =
    proposal.status != accepted
    || elim proposal.accepted_by_member_id [ none ↦ Bool.true | some _ ↦ Bool.false ]

unfoldable pub assert_accepted_proposal : ExchangeProposal → Result (Unit {0})
assert_accepted_proposal proposal =
    throw_if (is_open proposal) (acknowledgement AcknowledgementRule.not_accepted)

unfoldable pub assert_participant : ExchangeProposal → String → Result (Unit {0})
unfolding assert_text
assert_participant proposal member = do
  assert_text member "Acknowledging member id"
  throw_if (member != proposal.provider_member_id && member != proposal.receiver_member_id)
      (acknowledgement AcknowledgementRule.not_participant)

abbrev pub acknowledgement_id : String → String → String
acknowledgement_id proposal member = proposal ++ ("/settlement-ack/" ++ member)

unfoldable pub settlement_acknowledgement_id : String → String → Result String
unfolding assert_text
settlement_acknowledgement_id proposal member = do
  assert_text proposal "Proposal id"
  assert_text member "Acknowledging member id"
  ok (acknowledgement_id proposal member)

unfoldable pub create_settlement_acknowledgement :
    ExchangeProposal → String → Result SettlementAcknowledgement
unfolding assert_participant settlement_acknowledgement_id
create_settlement_acknowledgement proposal member = do
  assert_accepted_proposal proposal
  assert_participant proposal member
  id ← settlement_acknowledgement_id proposal.id member
  ok (record {
    id = id;
    community_id = proposal.community_id;
    source_proposal_id = proposal.id;
    provider_member_id = proposal.provider_member_id;
    recipient_member_id = proposal.receiver_member_id;
    minutes = proposal.minutes;
    acknowledged_by_member_id = member;
  })

unfoldable pub validate_settlement_acknowledgement :
    ExchangeProposal → SettlementAcknowledgement → Result SettlementAcknowledgement
unfolding assert_text assert_positive_whole_minutes assert_participant settlement_acknowledgement_id
validate_settlement_acknowledgement proposal a = do
  assert_accepted_proposal proposal
  assert_text a.id "Settlement acknowledgement id"
  assert_text a.community_id "Settlement acknowledgement community id"
  assert_text a.source_proposal_id "Settlement acknowledgement source proposal id"
  assert_text a.provider_member_id "Settlement acknowledgement provider member id"
  assert_text a.recipient_member_id "Settlement acknowledgement recipient member id"
  assert_text a.acknowledged_by_member_id "Settlement acknowledgement member id"
  assert_positive_whole_minutes a.minutes
  id ← settlement_acknowledgement_id proposal.id a.acknowledged_by_member_id
  throw_if (a.id != id) (acknowledgement AcknowledgementRule.wrong_id)
  throw_if
      (a.community_id != proposal.community_id
        || a.source_proposal_id != proposal.id
        || a.provider_member_id != proposal.provider_member_id
        || a.recipient_member_id != proposal.receiver_member_id
        || not (strictly_equal a.minutes proposal.minutes))
      (acknowledgement wrong_terms)
  assert_participant proposal a.acknowledged_by_member_id
  ok a

abbrev pub acknowledged_by : SettlementAcknowledgement → String
acknowledged_by a = a.acknowledged_by_member_id

-- The loop of `resolveSettlementAcknowledgements`.
unfoldable pub acknowledgements_by_participant :
    ExchangeProposal → List SettlementAcknowledgement → Result (Map SettlementAcknowledgement)
unfolding Acknowledgement-discrete
acknowledgements_by_participant proposal acknowledgements =
    collect (validate_settlement_acknowledgement proposal) acknowledged_by
      (acknowledgement AcknowledgementRule.conflicting) [] acknowledgements

module _ (c : Collation) where
  abbrev pub by_participant_order : SettlementAcknowledgement → SettlementAcknowledgement → Bool
  by_participant_order left right =
      before c left.acknowledged_by_member_id right.acknowledged_by_member_id

  unfoldable pub resolve_settlement_acknowledgements :
      ExchangeProposal → List SettlementAcknowledgement → Result SettlementConfirmationState
  resolve_settlement_acknowledgements proposal acknowledgements = do
    assert_accepted_proposal proposal
    by_participant ← acknowledgements_by_participant proposal acknowledgements
    ok (record {
      proposal_id = proposal.id;
      status =
          if has by_participant proposal.provider_member_id
            && has by_participant proposal.receiver_member_id
          then dual_confirmed
          else awaiting_counterparty;
      acknowledgements = sort by_participant_order (values by_participant);
    })
