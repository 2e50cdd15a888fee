-- ===== src/Settlement/Acknowledgements/Exact.antt =====
-- An acknowledgement that is admitted is the one its participant creates.
use Prim.Native.String.{◌++◌}
use peer_hours.Prelude.{String, ◌≡◌, ◌⊎◌, ◌↔◌, refl, true, false, arith, ok, text_equality}
use peer_hours.Script.Text.{is_blank}
use peer_hours.Script.Text.Append.{is_blank-append}
use peer_hours.Script.Number.{
  is_bad_amount, strictly_equal, strictly_equal_self, eq_of_strictly_equal,
}
use peer_hours.Domain.Types.{ExchangeProposal}
use peer_hours.Settlement.Acknowledgements.{
  SettlementAcknowledgement, is_open, acknowledgement_id, create_settlement_acknowledgement,
  assert_text, assert_positive_whole_minutes, assert_participant, settlement_acknowledgement_id,
  validate_settlement_acknowledgement, assert_accepted_proposal,
}

-- The acknowledgement that a member makes of a proposal.
abbrev pub exact : ExchangeProposal → String → SettlementAcknowledgement
exact p member = record {
  id = acknowledgement_id p.id member;
  community_id = p.community_id;
  source_proposal_id = p.id;
  provider_member_id = p.provider_member_id;
  recipient_member_id = p.receiver_member_id;
  minutes = p.minutes;
  acknowledged_by_member_id = member;
}

-- An accepted proposal with no blank text and a positive whole number of minutes.
pub record IsSettleable (p : ExchangeProposal) : Type 0 where
  pub accepted : is_open p ≡ false
  pub id : is_blank p.id ≡ false
  pub community_id : is_blank p.community_id ≡ false
  pub provider : is_blank p.provider_member_id ≡ false
  pub receiver : is_blank p.receiver_member_id ≡ false
  pub amount : is_bad_amount p.minutes ≡ false

abbrev pub IsParticipant : ExchangeProposal → String → Type 0
IsParticipant p member = (member ≡ p.provider_member_id) ⊎ (member ≡ p.receiver_member_id)

acknowledgement_id_present :
    (p : ExchangeProposal) (member : String)
    → IsSettleable p
    → is_blank (acknowledgement_id p.id member) ≡ false
acknowledgement_id_present p member s =
    rw (is_blank-append p.id ("/settlement-ack/" ++ member), s.id) refl

validated_facts :
    (p : ExchangeProposal) (a b : SettlementAcknowledgement)
    → validate_settlement_acknowledgement p a ≡ ok b
    → IsSettleable p
      × IsParticipant p a.acknowledged_by_member_id
      × (strictly_equal a.minutes p.minutes ≡ true)
      × (b ≡ a)
unfolding validate_settlement_acknowledgement assert_accepted_proposal assert_text
    assert_positive_whole_minutes assert_participant settlement_acknowledgement_id
validated_facts p a b h = (
  record {
    accepted = ground arith;
    id = ground arith;
    community_id = ground arith;
    provider = ground arith;
    receiver = ground arith;
    amount = ground (arith, eq_of_strictly_equal a.minutes p.minutes);
  },
  ground arith,
  ground arith,
  ground arith,
)

validated-exact :
    (p : ExchangeProposal) (a b : SettlementAcknowledgement)
    → validate_settlement_acknowledgement p a ≡ ok b
    → a.minutes ≡ p.minutes
    → a ≡ exact p a.acknowledged_by_member_id
unfolding validate_settlement_acknowledgement assert_accepted_proposal assert_text
    assert_positive_whole_minutes assert_participant settlement_acknowledgement_id
validated-exact p a b h m = ground arith

validate-exact :
    (p : ExchangeProposal) (member : String)
    → IsSettleable p
    → IsParticipant p member
    → validate_settlement_acknowledgement p (exact p member) ≡ ok (exact p member)
unfolding validate_settlement_acknowledgement assert_accepted_proposal assert_text
    assert_positive_whole_minutes assert_participant settlement_acknowledgement_id
validate-exact p member s by = ground (
  arith,
  s.accepted,
  s.id,
  s.community_id,
  s.provider,
  s.receiver,
  s.amount,
  acknowledgement_id_present p member s,
  strictly_equal_self p.minutes s.amount,
)

-- `validateSettlementAcknowledgement` admits exactly the acknowledgement that names a participant
-- of the proposal and repeats its terms, where the proposal is accepted and has no blank text and
-- a positive whole number of minutes; and returns it unchanged.
pub validate_iff :
    (p : ExchangeProposal) (a b : SettlementAcknowledgement)
    → (validate_settlement_acknowledgement p a ≡ ok b) ↔ (
        IsSettleable p
        × IsParticipant p a.acknowledged_by_member_id
        × (a ≡ exact p a.acknowledged_by_member_id)
        × (b ≡ a))
validate_iff p a b = (
  λ h.
      let (s, by, m, same) = validated_facts p a b h in
      (s, by, validated-exact p a b h (eq_of_strictly_equal a.minutes p.minutes m), same),
  λ (s, by, e, same). rw (same, e) (validate-exact p a.acknowledged_by_member_id s by),
)

-- `createSettlementAcknowledgement` returns an acknowledgement exactly for a participant of an
-- accepted proposal whose ids are not blank, and it is the exact one.
pub create_iff :
    (p : ExchangeProposal) (member : String) (a : SettlementAcknowledgement)
    → (create_settlement_acknowledgement p member ≡ ok a) ↔ (
        (is_open p ≡ false)
        × (is_blank p.id ≡ false)
        × (is_blank member ≡ false)
        × IsParticipant p member
        × (a ≡ exact p member))
unfolding create_settlement_acknowledgement assert_accepted_proposal assert_text assert_participant
    settlement_acknowledgement_id
create_iff p member a = (
  λ h. (ground arith, ground arith, ground arith, ground arith, ground arith),
  λ (o, i, n, by, e). ground arith,
)
