-- ===== src/Records/Timebank/Proposals/Lossless.antt =====
-- The records of proposals keep what they record.
use peer_hours.Prelude.{
  Bool, not, true, false, ◌||◌, ◌&&◌, String, String-discrete, Option, none, some, ◌≡◌, refl, arith,
  text_equality, ◌==◌, ◌!=◌, if◌then◌else◌, ok, throw_if-ok, eq_of_ok, mapping, same_member,
  not_participant, wrong_acceptor, not_accepted, not_proposed, >>=-eq-ok,
}
use mathlib.Core.Path.{subst}
use peer_hours.Script.Text.{is_blank}
use peer_hours.Script.Number.{is_bad_amount, is_finite, finite_of_guard}
use peer_hours.Script.Order.{units_before}
use peer_hours.Script.Sort.{insert, sort}
use peer_hours.Domain.Types.{ExchangeProposal, ProposalStatus, proposed, accepted}
use peer_hours.Records.Json.{
  Json, text, object, field, collect_members, normalize_json, normalize_members,
}
use peer_hours.Records.Envelope.{RecordEnvelope, envelope_members}
use peer_hours.Records.Timebank.{
  CreateTimebankRecordMetadata, assert_text, assert_minutes, as_object, reads,
}
use peer_hours.Records.Timebank.Fields.{assert_text-ok, assert_minutes-ok}
use peer_hours.Records.Timebank.Proposals.{
  proposal_view, is_there, normalize_accepted_proposal, normalize_proposed_proposal,
  proposal_status_text, accepted_proposal_form, proposed_proposal_form, accepts, creates,
  to_accepted_proposal_record, decode_accepted_proposal_record, to_proposed_proposal_record,
  decode_proposed_proposal_record,
}
use peer_hours.Records.Timebank.Decoded.{IsLossless, decode_record-to_record_same}

proposal_view-normal :
    (p : ExchangeProposal) (o : Option String)
    → p.accepted_by_member_id ≡ o
    → is_finite p.minutes ≡ true
    → normalize_json (object (proposal_view p)) ≡ ok (object (proposal_view p))
unfolding normalize_json normalize_members collect_members sort insert units_before proposal_view
    String-discrete
proposal_view-normal p none e finite = rw (e, finite) refl
proposal_view-normal p (some a) e finite = rw (e, finite) refl

status_of_accepted :
    (s : ProposalStatus)
    → reads (some (text (proposal_status_text s))) "accepted" ≡ true
    → s ≡ accepted
unfolding String-discrete
status_of_accepted proposed h = cc
status_of_accepted accepted h = refl

status_of_proposed :
    (s : ProposalStatus)
    → reads (some (text (proposal_status_text s))) "proposed" ≡ true
    → s ≡ proposed
unfolding String-discrete
status_of_proposed proposed h = refl
status_of_proposed accepted h = cc

-- What the readers of proposals let pass.
pub record IsFilled (p : ExchangeProposal) : Type 0 where
  pub id : is_blank p.id ≡ false
  pub community : is_blank p.community_id ≡ false
  pub offers : is_blank p.offer_id ≡ false
  pub requests : is_blank p.request_id ≡ false
  pub provider : is_blank p.provider_member_id ≡ false
  pub receiver : is_blank p.receiver_member_id ≡ false
  pub creator : is_blank p.creator_member_id ≡ false
  pub minutes : is_bad_amount p.minutes ≡ false
  pub apart : (p.provider_member_id == p.receiver_member_id) ≡ false
  pub created :
      (p.creator_member_id != p.provider_member_id && p.creator_member_id != p.receiver_member_id)
      ≡ false

pub record IsAccepted (p : ExchangeProposal) (acceptor : String) : Type 0 where
  pub filled : IsFilled p
  pub status : p.status ≡ accepted
  pub signed : p.accepted_by_member_id ≡ some acceptor
  pub signer : is_blank acceptor ≡ false
  pub other :
      (acceptor != (
        if p.creator_member_id == p.provider_member_id
        then p.receiver_member_id
        else p.provider_member_id))
      ≡ false

accepted_again :
    (p : ExchangeProposal) (a : String)
    → IsAccepted p a
    → normalize_accepted_proposal (object (proposal_view p)) ≡ ok p
unfolding normalize_accepted_proposal proposal_view field assert_text assert_minutes String-discrete
accepted_again p a w =
    rw
      (
        w.signed, w.filled.id, w.filled.community, w.filled.offers, w.filled.requests,
        w.filled.provider, w.filled.receiver, w.filled.creator, w.signer, w.status,
        w.filled.minutes, w.filled.apart, w.filled.created, w.other,
      )
      refl

record IsProposed (p : ExchangeProposal) : Type 0 where
  filled : IsFilled p
  status : p.status ≡ proposed
  unsigned : p.accepted_by_member_id ≡ none

proposed_again :
    (p : ExchangeProposal)
    → IsProposed p
    → normalize_proposed_proposal (object (proposal_view p)) ≡ ok p
unfolding normalize_proposed_proposal proposal_view field assert_text assert_minutes String-discrete
proposed_again p w =
    rw
      (
        w.unsigned, w.filled.id, w.filled.community, w.filled.offers, w.filled.requests,
        w.filled.provider, w.filled.receiver, w.filled.creator, w.status, w.filled.minutes,
        w.filled.apart, w.filled.created,
      )
      refl

same_accepted :
    (p q : ExchangeProposal) → normalize_accepted_proposal (object (proposal_view p)) ≡ ok q → q ≡ p
unfolding normalize_accepted_proposal proposal_view field assert_text assert_minutes String-discrete
same_accepted p q h = ground (arith, status_of_accepted p.status)

same_proposed :
    (p q : ExchangeProposal) → normalize_proposed_proposal (object (proposal_view p)) ≡ ok q → q ≡ p
unfolding normalize_proposed_proposal proposal_view field assert_text assert_minutes String-discrete
same_proposed p q h = ground (arith, status_of_proposed p.status)

or_false : (a b : Bool) → (a || b) ≡ false → (a ≡ false) × (b ≡ false)
or_false a b h = ground arith

read-IsAccepted :
    (j : Json) (p : ExchangeProposal)
    → normalize_accepted_proposal j ≡ ok p
    → (a : String) × IsAccepted p a
unfolding normalize_accepted_proposal
read-IsAccepted j p h =
    let (m, e₀, h₀) = >>=-eq-ok (as_object j "accepted exchange proposal") _ h in
    let (id, e₁, h₁) = >>=-eq-ok (assert_text (field m "id") "Proposal id") _ h₀ in
    let (community, e₂, h₂) =
      >>=-eq-ok (assert_text (field m "communityId") "Proposal community id") _ h₁ in
    let (offers, e₃, h₃) = >>=-eq-ok (assert_text (field m "offerId") "Proposal offer id") _ h₂ in
    let (requests, e₄, h₄) =
      >>=-eq-ok (assert_text (field m "requestId") "Proposal request id") _ h₃ in
    let (provider, e₅, h₅) =
      >>=-eq-ok (assert_text (field m "providerMemberId") "Proposal provider member id") _ h₄ in
    let (receiver, e₆, h₆) =
      >>=-eq-ok (assert_text (field m "receiverMemberId") "Proposal receiver member id") _ h₅ in
    let (creator, e₇, h₇) =
      >>=-eq-ok (assert_text (field m "creatorMemberId") "Proposal creator member id") _ h₆ in
    let (acceptor, e₈, h₈) =
      >>=-eq-ok (assert_text (field m "acceptedByMemberId") "Proposal accepting member id") _ h₇ in
    let (_, g) =
      throw_if-ok (not (reads (field m "status") "accepted"))
        (mapping (not_accepted "accepted exchange proposal")) _ h₈ in
    let (minutes, f, g₁) = >>=-eq-ok (assert_minutes (field m "minutes") "Proposal minutes") _ g in
    let (apart, g₂) = throw_if-ok (provider == receiver) (mapping same_member) _ g₁ in
    let (created, g₃) =
      throw_if-ok (creator != provider && creator != receiver) (mapping not_participant) _ g₂ in
    let (other, g₄) =
      throw_if-ok (acceptor != (if creator == provider then receiver else provider))
        (mapping wrong_acceptor) _ g₃ in
    let made : ExchangeProposal = record {
      id = id;
      community_id = community;
      offer_id = offers;
      request_id = requests;
      provider_member_id = provider;
      receiver_member_id = receiver;
      creator_member_id = creator;
      accepted_by_member_id = some acceptor;
      minutes = minutes;
      status = accepted;
    } in
    let filled : IsFilled made = record {
      id = assert_text-ok (field m "id") "Proposal id" e₁;
      community = assert_text-ok (field m "communityId") "Proposal community id" e₂;
      offers = assert_text-ok (field m "offerId") "Proposal offer id" e₃;
      requests = assert_text-ok (field m "requestId") "Proposal request id" e₄;
      provider = assert_text-ok (field m "providerMemberId") "Proposal provider member id" e₅;
      receiver = assert_text-ok (field m "receiverMemberId") "Proposal receiver member id" e₆;
      creator = assert_text-ok (field m "creatorMemberId") "Proposal creator member id" e₇;
      minutes = assert_minutes-ok (field m "minutes") "Proposal minutes" f;
      apart = apart;
      created = created;
    } in
    let checked : IsAccepted made acceptor = record {
      filled = filled;
      status = refl;
      signed = refl;
      signer = assert_text-ok (field m "acceptedByMemberId") "Proposal accepting member id" e₈;
      other = other;
    } in
    (acceptor, subst (λ q. IsAccepted q acceptor) (eq_of_ok made p g₄) checked)

read-IsProposed :
    (j : Json) (p : ExchangeProposal) → normalize_proposed_proposal j ≡ ok p → IsProposed p
unfolding normalize_proposed_proposal
read-IsProposed j p h =
    let (m, e₀, h₀) = >>=-eq-ok (as_object j "proposed exchange proposal") _ h in
    let (id, e₁, h₁) = >>=-eq-ok (assert_text (field m "id") "Proposal id") _ h₀ in
    let (community, e₂, h₂) =
      >>=-eq-ok (assert_text (field m "communityId") "Proposal community id") _ h₁ in
    let (offers, e₃, h₃) = >>=-eq-ok (assert_text (field m "offerId") "Proposal offer id") _ h₂ in
    let (requests, e₄, h₄) =
      >>=-eq-ok (assert_text (field m "requestId") "Proposal request id") _ h₃ in
    let (provider, e₅, h₅) =
      >>=-eq-ok (assert_text (field m "providerMemberId") "Proposal provider member id") _ h₄ in
    let (receiver, e₆, h₆) =
      >>=-eq-ok (assert_text (field m "receiverMemberId") "Proposal receiver member id") _ h₅ in
    let (creator, e₇, h₇) =
      >>=-eq-ok (assert_text (field m "creatorMemberId") "Proposal creator member id") _ h₆ in
    let (_, g) =
      throw_if-ok
        (not (reads (field m "status") "proposed") || is_there (field m "acceptedByMemberId"))
        (mapping (not_proposed "proposed exchange proposal")) _ h₇ in
    let (minutes, f, g₁) = >>=-eq-ok (assert_minutes (field m "minutes") "Proposal minutes") _ g in
    let (told, g₂) =
      throw_if-ok (provider == receiver || creator != provider && creator != receiver)
        (mapping not_participant) _ g₁ in
    let (apart, created) =
      or_false (provider == receiver) (creator != provider && creator != receiver) told in
    let made : ExchangeProposal = record {
      id = id;
      community_id = community;
      offer_id = offers;
      request_id = requests;
      provider_member_id = provider;
      receiver_member_id = receiver;
      creator_member_id = creator;
      accepted_by_member_id = none;
      minutes = minutes;
      status = proposed;
    } in
    let filled : IsFilled made = record {
      id = assert_text-ok (field m "id") "Proposal id" e₁;
      community = assert_text-ok (field m "communityId") "Proposal community id" e₂;
      offers = assert_text-ok (field m "offerId") "Proposal offer id" e₃;
      requests = assert_text-ok (field m "requestId") "Proposal request id" e₄;
      provider = assert_text-ok (field m "providerMemberId") "Proposal provider member id" e₅;
      receiver = assert_text-ok (field m "receiverMemberId") "Proposal receiver member id" e₆;
      creator = assert_text-ok (field m "creatorMemberId") "Proposal creator member id" e₇;
      minutes = assert_minutes-ok (field m "minutes") "Proposal minutes" f;
      apart = apart;
      created = created;
    } in
    let checked : IsProposed made = record { filled = filled; status = refl; unsigned = refl } in
    subst IsProposed (eq_of_ok made p g₂) checked

accepted-IsLossless : IsLossless accepted_proposal_form
accepted-IsLossless = record {
  again = λ j p h. let (a, w) = read-IsAccepted j p h in accepted_again p a w;
  normal = λ j p h.
      let (a, w) = read-IsAccepted j p h in
      proposal_view-normal p (some a) w.signed (finite_of_guard p.minutes w.filled.minutes);
}

proposed-IsLossless : IsLossless proposed_proposal_form
proposed-IsLossless = record {
  again = λ j p h. proposed_again p (read-IsProposed j p h);
  normal = λ j p h.
      let w = read-IsProposed j p h in
      proposal_view-normal p none w.unsigned (finite_of_guard p.minutes w.filled.minutes);
}

module _ (is_canonical : String → Bool) where
  -- The record that is written for an accepted proposal is decoded to that same proposal.
  pub decode_accepted-to_accepted :
      (p : ExchangeProposal) (metadata : CreateTimebankRecordMetadata) (r : RecordEnvelope)
      → to_accepted_proposal_record is_canonical p metadata ≡ ok r
      → decode_accepted_proposal_record is_canonical (object (envelope_members r)) ≡ ok p
  unfolding to_accepted_proposal_record decode_accepted_proposal_record
  decode_accepted-to_accepted p metadata r h =
      decode_record-to_record_same is_canonical accepted_proposal_form accepted-IsLossless accepts
        same_accepted (λ t author e. e) p metadata r h

  -- The record that is written for a proposed exchange is decoded to that same proposal.
  pub decode_proposed-to_proposed :
      (p : ExchangeProposal) (metadata : CreateTimebankRecordMetadata) (r : RecordEnvelope)
      → to_proposed_proposal_record is_canonical p metadata ≡ ok r
      → decode_proposed_proposal_record is_canonical (object (envelope_members r)) ≡ ok p
  unfolding to_proposed_proposal_record decode_proposed_proposal_record
  decode_proposed-to_proposed p metadata r h =
      decode_record-to_record_same is_canonical proposed_proposal_form proposed-IsLossless creates
        same_proposed (λ t author e. e) p metadata r h
