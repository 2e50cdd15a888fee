-- ===== src/Records/Timebank/Proposals.antt =====
-- Records of proposed and of accepted exchanges.
pub mod Lossless
use Prim.Native.String.{◌++◌}
use peer_hours.Prelude.{
  Bool, not, ◌||◌, ◌&&◌, String, Option, none, some, List, ◌==◌, ◌!=◌, text_equality,
  String-discrete, if◌then◌else◌, Result, throw_if, ◌>>=◌, ◌>>◌, ok, mapping, not_proposed,
  not_accepted, same_member, not_participant, wrong_acceptor,
}
use peer_hours.Script.Number.{Number-discrete}
use peer_hours.Script.Collation.{Collation}
use peer_hours.Domain.Types.{
  ExchangeProposal, ProposalStatus, proposed, accepted, ProposalStatus-discrete,
}
use peer_hours.Settlement.Transfers.{names, has_value}
use peer_hours.Records.Json.{Json, text, number, Members, end, member, field}
use peer_hours.Records.Envelope.{RecordEnvelope}
use peer_hours.Records.Timebank.{
  CreateTimebankRecordMetadata, RecordForm, assert_text, assert_minutes, as_object, reads,
  to_record, decode_record, reduce_records,
}

instance unfoldable pub Proposal-discrete : Discrete ExchangeProposal
unfolding String-discrete Number-discrete ProposalStatus-discrete
Proposal-discrete = hlevel (String-discrete, Number-discrete, ProposalStatus-discrete)

abbrev pub accepted_proposal_record_kind : String
accepted_proposal_record_kind = "peer-hours/accepted-exchange-proposal/v1"

abbrev pub proposed_proposal_record_kind : String
proposed_proposal_record_kind = "peer-hours/proposed-exchange-proposal/v1"

abbrev pub proposal_status_text : ProposalStatus → String
proposal_status_text proposed = "proposed"
proposal_status_text accepted = "accepted"

-- A property that is undefined is left out.
abbrev pub optional_member : String → Option String → Members → Members
optional_member key none rest = rest
optional_member key (some value) rest = member key (text value) rest

unfoldable pub proposal_view : ExchangeProposal → Members
proposal_view p = optional_member "acceptedByMemberId" p.accepted_by_member_id (
    member "communityId" (text p.community_id) (
      member "creatorMemberId" (text p.creator_member_id) (
        member "id" (text p.id) (
          member "minutes" (number p.minutes) (
            member "offerId" (text p.offer_id) (
              member "providerMemberId" (text p.provider_member_id) (
                member "receiverMemberId" (text p.receiver_member_id) (
                  member "requestId" (text p.request_id)
                    (member "status" (text (proposal_status_text p.status)) end)))))))))

unfoldable pub normalize_accepted_proposal : Json → Result ExchangeProposal
unfolding assert_text assert_minutes
normalize_accepted_proposal value = do
  proposal ← as_object value "accepted exchange proposal"
  id ← assert_text (field proposal "id") "Proposal id"
  community ← assert_text (field proposal "communityId") "Proposal community id"
  offer ← assert_text (field proposal "offerId") "Proposal offer id"
  request ← assert_text (field proposal "requestId") "Proposal request id"
  provider ← assert_text (field proposal "providerMemberId") "Proposal provider member id"
  receiver ← assert_text (field proposal "receiverMemberId") "Proposal receiver member id"
  creator ← assert_text (field proposal "creatorMemberId") "Proposal creator member id"
  acceptor ← assert_text (field proposal "acceptedByMemberId") "Proposal accepting member id"
  throw_if (not (reads (field proposal "status") "accepted"))
      (mapping (not_accepted "accepted exchange proposal"))
  minutes ← assert_minutes (field proposal "minutes") "Proposal minutes"
  throw_if (provider == receiver) (mapping same_member)
  throw_if (creator != provider && creator != receiver) (mapping not_participant)
  throw_if (acceptor != (if creator == provider then receiver else provider))
      (mapping wrong_acceptor)
  ok (record {
    id = id;
    community_id = community;
    offer_id = offer;
    request_id = request;
    provider_member_id = provider;
    receiver_member_id = receiver;
    creator_member_id = creator;
    accepted_by_member_id = some acceptor;
    minutes = minutes;
    status = accepted;
  })

abbrev pub is_there : Option Json → Bool
is_there none = Bool.false
is_there (some _) = Bool.true

unfoldable pub normalize_proposed_proposal : Json → Result ExchangeProposal
unfolding assert_text assert_minutes
normalize_proposed_proposal value = do
  proposal ← as_object value "proposed exchange proposal"
  id ← assert_text (field proposal "id") "Proposal id"
  community ← assert_text (field proposal "communityId") "Proposal community id"
  offer ← assert_text (field proposal "offerId") "Proposal offer id"
  request ← assert_text (field proposal "requestId") "Proposal request id"
  provider ← assert_text (field proposal "providerMemberId") "Proposal provider member id"
  receiver ← assert_text (field proposal "receiverMemberId") "Proposal receiver member id"
  creator ← assert_text (field proposal "creatorMemberId") "Proposal creator member id"
  throw_if
      (not (reads (field proposal "status") "proposed")
        || is_there (field proposal "acceptedByMemberId"))
      (mapping (not_proposed "proposed exchange proposal"))
  minutes ← assert_minutes (field proposal "minutes") "Proposal minutes"
  throw_if (provider == receiver || creator != provider && creator != receiver)
      (mapping not_participant)
  ok (record {
    id = id;
    community_id = community;
    offer_id = offer;
    request_id = request;
    provider_member_id = provider;
    receiver_member_id = receiver;
    creator_member_id = creator;
    accepted_by_member_id = none;
    minutes = minutes;
    status = proposed;
  })

-- `proposalRecordId`, at each stage of a proposal.
abbrev pub accepted_record_id : ExchangeProposal → String
accepted_record_id p = p.id ++ "/accepted"

abbrev pub proposed_record_id : ExchangeProposal → String
proposed_record_id p = p.id ++ "/proposed"

abbrev pub accepts : ExchangeProposal → String → Bool
accepts p author = names p.accepted_by_member_id author

abbrev pub creates : ExchangeProposal → String → Bool
creates p author = author == p.creator_member_id

abbrev pub accepted_proposal_form : RecordForm ExchangeProposal
accepted_proposal_form = record {
  kind = accepted_proposal_record_kind;
  label = "accepted exchange proposal";
  view = proposal_view;
  normalize = normalize_accepted_proposal;
  record_id = accepted_record_id;
  community_of = λ p. p.community_id;
  may_submit = accepts;
}

abbrev pub proposed_proposal_form : RecordForm ExchangeProposal
proposed_proposal_form = record {
  kind = proposed_proposal_record_kind;
  label = "proposed exchange proposal";
  view = proposal_view;
  normalize = normalize_proposed_proposal;
  record_id = proposed_record_id;
  community_of = λ p. p.community_id;
  may_submit = creates;
}

module _ (is_canonical : String → Bool) where
  unfoldable pub to_accepted_proposal_record :
      ExchangeProposal → CreateTimebankRecordMetadata → Result RecordEnvelope
  to_accepted_proposal_record = to_record is_canonical accepted_proposal_form accepts

  unfoldable pub to_proposed_proposal_record :
      ExchangeProposal → CreateTimebankRecordMetadata → Result RecordEnvelope
  to_proposed_proposal_record = to_record is_canonical proposed_proposal_form creates

  unfoldable pub decode_accepted_proposal_record : Json → Result ExchangeProposal
  decode_accepted_proposal_record = decode_record is_canonical accepted_proposal_form

  unfoldable pub decode_proposed_proposal_record : Json → Result ExchangeProposal
  decode_proposed_proposal_record = decode_record is_canonical proposed_proposal_form

  module _ (c : Collation) where
    unfoldable pub reduce_accepted_proposal_records :
        List Json → String → Result (List ExchangeProposal)
    reduce_accepted_proposal_records =
        reduce_records is_canonical accepted_proposal_form c (λ p. p.id)

    unfoldable pub reduce_proposed_proposal_records :
        List Json → String → Result (List ExchangeProposal)
    reduce_proposed_proposal_records =
        reduce_records is_canonical proposed_proposal_form c (λ p. p.id)
