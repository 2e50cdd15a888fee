-- ===== src/Settlement/Transfers.antt =====
-- The settlement transfer of a confirmed exchange, in packages/timebank-settlement/src/index.ts.
pub mod Deterministic
pub mod Authorized
use Prim.Native.String.{◌++◌}
use peer_hours.Prelude.{
  not, ◌||◌, String, none, some, List, ◌==◌, ◌!=◌, text_equality, Result, ok, throw_if, ◌>>=◌, ◌>>◌,
  SettlementRule, settlement, not_accepted, is_reversal, wrong_proposal, wrong_community,
  wrong_participants, wrong_minutes, not_confirmed, wrong_id, required_proposal, Bool, Option,
}
use peer_hours.Script.Text.{is_blank}
use peer_hours.Script.Number.{strictly_equal}
use peer_hours.Script.Collation.{Collation}
use peer_hours.Domain.Types.{ExchangeProposal}
use peer_hours.Ledger.Types.{TransferAttestation, TransferTerms, Transfer}
use peer_hours.Ledger.Transfers.{create_transfer}
use peer_hours.Settlement.Acknowledgements.{
  SettlementAcknowledgement, SettlementConfirmationState, dual_confirmed,
  ConfirmationStatus-discrete, is_open, resolve_settlement_acknowledgements,
}

abbrev pub has_value : Option String → Bool
has_value none = Bool.false
has_value (some _) = Bool.true

abbrev pub names : Option String → String → Bool
names none id = Bool.false
names (some named) id = named == id

unfoldable pub validate_settlement_transfer : ExchangeProposal → Transfer → Result Transfer
validate_settlement_transfer proposal input = do
  transfer ← create_transfer input
  throw_if (is_open proposal) (settlement SettlementRule.not_accepted)
  throw_if (has_value transfer.reverses_transfer_id) (settlement is_reversal)
  throw_if (not (names transfer.source_proposal_id proposal.id)) (settlement wrong_proposal)
  throw_if (transfer.community_id != proposal.community_id) (settlement wrong_community)
  throw_if
      (transfer.provider_member_id != proposal.provider_member_id
        || transfer.recipient_member_id != proposal.receiver_member_id)
      (settlement wrong_participants)
  throw_if (not (strictly_equal transfer.minutes proposal.minutes)) (settlement wrong_minutes)
  ok transfer

abbrev pub transfer_id_of : String → String
transfer_id_of proposal = proposal ++ "/settlement"

unfoldable pub settlement_transfer_id : String → Result String
settlement_transfer_id proposal = do
  throw_if (is_blank proposal) (settlement required_proposal)
  ok (transfer_id_of proposal)

module _ (c : Collation) where
  -- `resolveSettlementAcknowledgements`, and the test of its status.
  unfoldable pub assert_confirmed :
      ExchangeProposal → List SettlementAcknowledgement → Result (Unit {0})
  unfolding ConfirmationStatus-discrete
  assert_confirmed proposal acknowledgements = do
    confirmation ← resolve_settlement_acknowledgements c proposal acknowledgements
    throw_if (confirmation.status != dual_confirmed) (settlement not_confirmed)

  unfoldable pub create_settlement_terms :
      ExchangeProposal → List SettlementAcknowledgement → Result TransferTerms
  create_settlement_terms proposal acknowledgements = do
    assert_confirmed proposal acknowledgements
    id ← settlement_transfer_id proposal.id
    ok (record {
      id = id;
      community_id = proposal.community_id;
      source_proposal_id = some proposal.id;
      provider_member_id = proposal.provider_member_id;
      recipient_member_id = proposal.receiver_member_id;
      minutes = proposal.minutes;
      reverses_transfer_id = none;
    })

  unfoldable pub validate_confirmed_transfer :
      ExchangeProposal → List SettlementAcknowledgement → Transfer → Result Transfer
  validate_confirmed_transfer proposal acknowledgements input = do
    assert_confirmed proposal acknowledgements
    transfer ← validate_settlement_transfer proposal input
    id ← settlement_transfer_id proposal.id
    throw_if (transfer.id != id) (settlement SettlementRule.wrong_id)
    ok transfer

  unfoldable pub create_confirmed_transfer :
      ExchangeProposal → List SettlementAcknowledgement → List TransferAttestation → Result Transfer
  create_confirmed_transfer proposal acknowledgements attestations = do
    terms ← create_settlement_terms proposal acknowledgements
    transfer ← create_transfer (record { terms = terms; attestations = attestations })
    validate_confirmed_transfer proposal acknowledgements transfer
