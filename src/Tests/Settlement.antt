-- ===== src/Tests/Settlement.antt =====
-- An exchange of ann and bobby that both acknowledge.
use peer_hours.Prelude.{
  Option, Bool, true, List, Result, ◌==◌, text_equality, ◌≡◌, ◌↔◌, refl, String, some, [], ◌∷◌, ok,
  pos, Occurs, Occurs-nil, here, there, SameSet-turned, String-discrete, ℤ-discrete, ℕ_discrete,
}
use peer_hours.Script.Text.{is_blank}
use peer_hours.Script.Number.{
  whole, is_bad_amount, is_finite, is_integer, less, strictly_equal, Number-discrete,
}
use peer_hours.Script.Map.{get, set}
use peer_hours.Script.Sort.{sort}
use peer_hours.Script.Collation.{before, length_collation}
use peer_hours.Script.Collect.{collect}
use peer_hours.Domain.Types.{ExchangeProposal, accepted}
use peer_hours.Ledger.Types.{TransferAttestation, TransferTerms, Transfer, Attestation-discrete}
use peer_hours.Ledger.Transfers.{
  create_transfer, create_transfer_terms, assert_attestation, normalize_attestations,
}
use peer_hours.Settlement.Acknowledgements.{
  SettlementAcknowledgement, SettlementConfirmationState, dual_confirmed, Acknowledgement-discrete,
  is_open, assert_accepted_proposal, create_settlement_acknowledgement,
  validate_settlement_acknowledgement, acknowledgements_by_participant,
  resolve_settlement_acknowledgements,
}
use peer_hours.Settlement.Acknowledgements.Exact.{exact}
use peer_hours.Settlement.Acknowledgements.Confirmed.{resolve-confirmed_iff, resolve_same}
use peer_hours.Settlement.Transfers.{
  assert_confirmed, validate_settlement_transfer, create_settlement_terms, settlement_transfer_id,
  validate_confirmed_transfer, create_confirmed_transfer,
}
use peer_hours.Settlement.Transfers.Deterministic.{
  settlement_terms, IsConfirmed, validate_confirmed_transfer_iff,
}
use peer_hours.Identity.Events.{MemberSigningKeyAuthorization, create_authorization}
use peer_hours.Identity.Verifier.{
  index_key, index_authorized_keys, verify_member_signature, verify_attestation,
  assert_each_authorized, assert_authorized_attestations,
}
use peer_hours.Settlement.Transfers.Authorized.{validate_authorized_transfer}
use peer_hours.Identity.Payload.{transfer_payload_digest}
use peer_hours.Settlement.Attestations.{
  SettlementTransferAttestation, SettlementAttestationState, dual_attested, create_attestation,
  settlement_transfer_attestation_id, validate_attestation, attestations_by_participant,
  resolve_attestations, Container-discrete,
}
use peer_hours.Settlement.Attestations.Exact.{container}
use peer_hours.Settlement.Attestations.Collected.{IsFilled, resolve_attestations-composes}

unfoldable pub opened : Unit {0}
unfolding is_blank is_bad_amount is_finite is_integer less strictly_equal get set sort before
    collect create_transfer create_transfer_terms assert_attestation normalize_attestations is_open
    assert_accepted_proposal create_settlement_acknowledgement validate_settlement_acknowledgement
    acknowledgements_by_participant resolve_settlement_acknowledgements assert_confirmed
    validate_settlement_transfer create_settlement_terms settlement_transfer_id
    validate_confirmed_transfer create_confirmed_transfer String-discrete ℤ-discrete ℕ_discrete
    Number-discrete
opened = tt

abbrev pub agreed : ExchangeProposal
agreed = record {
  id = "p";
  community_id = "c";
  offer_id = "o";
  request_id = "r";
  provider_member_id = "ann";
  receiver_member_id = "bobby";
  creator_member_id = "ann";
  accepted_by_member_id = some "bobby";
  minutes = whole (pos 60);
  status = accepted;
}

abbrev pub from_ann : SettlementAcknowledgement
from_ann = exact agreed "ann"

abbrev pub from_bobby : SettlementAcknowledgement
from_bobby = exact agreed "bobby"

abbrev pub confirmed : SettlementConfirmationState
confirmed = record {
  proposal_id = "p";
  status = dual_confirmed;
  acknowledgements = from_ann ∷ from_bobby ∷ [];
}

confirms :
    resolve_settlement_acknowledgements length_collation agreed (from_bobby ∷ from_ann ∷ [])
    ≡ ok confirmed
unfolding opened
confirms = refl

resolve-confirmed_iff_example : (confirmed.status ≡ dual_confirmed) ↔ (
    Occurs (exact agreed "ann") (from_bobby ∷ from_ann ∷ [])
    × Occurs (exact agreed "bobby") (from_bobby ∷ from_ann ∷ []))
resolve-confirmed_iff_example =
    resolve-confirmed_iff length_collation agreed (from_bobby ∷ from_ann ∷ []) confirmed confirms

resolve_same_example :
    resolve_settlement_acknowledgements length_collation agreed
      (from_ann ∷ from_bobby ∷ from_ann ∷ [])
    ≡ ok confirmed
resolve_same_example =
    resolve_same length_collation agreed (from_bobby ∷ from_ann ∷ [])
      (from_ann ∷ from_bobby ∷ from_ann ∷ []) confirmed (SameSet-turned from_bobby from_ann)
      (λ e. cc) confirms

abbrev pub signed : String → TransferAttestation
signed member = record { member_id = member; key_id = "k"; payload_digest = "d"; signature = "s" }

abbrev pub settlement : Transfer
settlement = record {
  terms = settlement_terms agreed;
  attestations = signed "ann" ∷ signed "bobby" ∷ [];
}

validate_confirmed_transfer_iff_example :
    (validate_confirmed_transfer length_collation agreed (from_bobby ∷ from_ann ∷ []) settlement
      ≡ ok settlement)
    ↔ (IsConfirmed length_collation agreed (from_bobby ∷ from_ann ∷ [])
        × (create_transfer settlement ≡ ok settlement)
        × (settlement_terms agreed ≡ settlement_terms agreed))
validate_confirmed_transfer_iff_example =
    validate_confirmed_transfer_iff length_collation agreed (from_bobby ∷ from_ann ∷ []) settlement
      settlement

-- Both sides hold.
composes :
    create_confirmed_transfer length_collation agreed
      (from_bobby ∷ from_ann ∷ [])
      (signed "bobby" ∷ signed "ann" ∷ [])
    ≡ ok settlement
unfolding opened
composes = refl

-- A digest that stands for the runtime's.
abbrev id_digest : TransferTerms → String
id_digest t = t.id

abbrev attests : String → SettlementTransferAttestation
attests member =
    container agreed (record {
      member_id = member;
      key_id = "k";
      payload_digest = "p/settlement";
      signature = "s";
    })

abbrev attested_state : SettlementAttestationState
attested_state = record {
  proposal_id = "p";
  status = dual_attested;
  attestations = attests "ann" ∷ attests "bobby" ∷ [];
}

attests_both :
    resolve_attestations length_collation id_digest agreed
      (from_bobby ∷ from_ann ∷ [])
      (attests "bobby" ∷ attests "ann" ∷ [])
    ≡ ok attested_state
unfolding opened create_attestation settlement_transfer_attestation_id transfer_payload_digest
    validate_attestation attestations_by_participant resolve_attestations
attests_both = refl

filled :
    (x : SettlementTransferAttestation)
    → Occurs x (attests "bobby" ∷ attests "ann" ∷ [])
    → IsFilled x.attestation
unfolding opened
filled x (here e) = rw e (record { key = refl; payload = refl; signature = refl })
filled x (there (here e)) = rw e (record { key = refl; payload = refl; signature = refl })
filled x (there (there o)) = absurd (Occurs-nil o)

resolve_attestations-composes_example :
    (a b : TransferAttestation) × Occurs (container agreed a) (attests "bobby" ∷ attests "ann" ∷ [])
    × Occurs (container agreed b) (attests "bobby" ∷ attests "ann" ∷ [])
    × (a.member_id ≡ "ann")
    × (b.member_id ≡ "bobby")
    × (create_confirmed_transfer length_collation agreed (from_bobby ∷ from_ann ∷ []) (a ∷ b ∷ [])
        ≡ ok (record { terms = settlement_terms agreed; attestations = a ∷ b ∷ [] }))
resolve_attestations-composes_example =
    resolve_attestations-composes length_collation id_digest agreed (from_bobby ∷ from_ann ∷ [])
      (attests "bobby" ∷ attests "ann" ∷ []) attested_state filled attests_both refl

-- Stand-ins for the runtime's parsers and for the verification.
abbrev any_key : String → Option String
any_key pem = some pem

abbrev any_text : String → Bool
any_text value = true

abbrev signs_with_pem : TransferTerms → String → String → Result Bool
signs_with_pem t pem signature = ok (pem == signature)

abbrev signed_by : String → TransferAttestation
signed_by member = record {
  member_id = member;
  key_id = member;
  payload_digest = "p/settlement";
  signature = member;
}

abbrev authorized_settlement : Transfer
authorized_settlement = record {
  terms = settlement_terms agreed;
  attestations = signed_by "ann" ∷ signed_by "bobby" ∷ [];
}

abbrev pub key_of_member : String → MemberSigningKeyAuthorization
key_of_member member = record {
  community_id = "c";
  member_id = member;
  key_id = member;
  public_key_pem = member;
  active = true;
}

abbrev both_keys : List MemberSigningKeyAuthorization
both_keys = key_of_member "ann" ∷ key_of_member "bobby" ∷ []

admits_settlement :
    validate_authorized_transfer any_key any_text id_digest any_text signs_with_pem length_collation
      agreed
      (from_bobby ∷ from_ann ∷ [])
      authorized_settlement
      both_keys
    ≡ ok authorized_settlement
unfolding opened create_authorization index_key index_authorized_keys verify_member_signature
    verify_attestation assert_each_authorized assert_authorized_attestations
    validate_authorized_transfer
admits_settlement = refl
