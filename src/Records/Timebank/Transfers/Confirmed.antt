-- ===== src/Records/Timebank/Transfers/Confirmed.antt =====
-- The record of a dual-confirmed settlement, from the proposal to the decoded transfer.
use peer_hours.Prelude.{
  Bool, ◌||◌, ◌&&◌, true, false, String, ◌≡◌, List, arith, text_equality, ◌==◌, ◌!=◌, ok, >>=-eq-ok,
  throw_if-ok, mapping, not_participant, ◌∙◌, SameSet, eq_of_ok, sym,
}
use mathlib.Core.Path.{subst}
use peer_hours.Script.Collation.{Collation}
use peer_hours.Domain.Types.{ExchangeProposal}
use peer_hours.Ledger.Types.{TransferAttestation, Transfer}
use peer_hours.Ledger.Transfers.Normal.{create_transfer-IsNormal}
use peer_hours.Settlement.Acknowledgements.{SettlementAcknowledgement}
use peer_hours.Settlement.Transfers.{create_confirmed_transfer}
use peer_hours.Settlement.Transfers.Deterministic.{
  settlement_terms, IsConfirmed, create_confirmed_transfer_iff,
}
use peer_hours.Records.Json.{object}
use peer_hours.Records.Envelope.{RecordEnvelope, envelope_members}
use peer_hours.Records.Timebank.{CreateTimebankRecordMetadata}
use peer_hours.Records.Timebank.Transfers.{
  takes_part, to_confirmed_transfer_record, decode_ledger_transfer_record,
}
use peer_hours.Records.Timebank.Transfers.Lossless.{decode_transfer-to_transfer}

takes_part_of :
    (p r author : String)
    → (author != p && author != r) ≡ false
    → (author == p || author == r) ≡ true
takes_part_of p r author h = ground arith

module _ (is_canonical : String → Bool) (c : Collation) where
  -- A settlement record is written only for an exchange that both participants have confirmed, by
  -- one of the participants; it is decoded to a transfer with exactly the terms that settle the
  -- proposal and with the given attestations.
  pub decode_transfer-to_confirmed :
      (p : ExchangeProposal) (given : List SettlementAcknowledgement)
      (attestations : List TransferAttestation) (metadata : CreateTimebankRecordMetadata)
      (r : RecordEnvelope)
      → to_confirmed_transfer_record is_canonical c p given attestations metadata ≡ ok r
      → IsConfirmed c p given
        × ((u : Transfer) × (u.terms ≡ settlement_terms p)
            × SameSet u.attestations attestations
            × (takes_part u metadata.author_id ≡ true)
            × (decode_ledger_transfer_record is_canonical (object (envelope_members r)) ≡ ok u))
  unfolding to_confirmed_transfer_record
  decode_transfer-to_confirmed p given attestations metadata r h =
      let (u, e, h₁) = >>=-eq-ok (create_confirmed_transfer c p given attestations) _ h in
      let (other, h₂) =
        throw_if-ok
          (metadata.author_id != u.provider_member_id
            && metadata.author_id != u.recipient_member_id)
          (mapping not_participant) _ h₁ in
      let part =
        takes_part_of u.provider_member_id u.recipient_member_id metadata.author_id other in
      let (confirmed, made) = (create_confirmed_transfer_iff c p given attestations u).0 e in
      let (terms, signed, normal) =
        create_transfer-IsNormal
          (record { terms = settlement_terms p; attestations = attestations }) u made in
      let (v, again, decoded, _, _) =
        decode_transfer-to_transfer is_canonical u metadata r h₂ part in
      let same : v ≡ u = eq_of_ok v u (sym again ∙ normal.again) in
      (
        confirmed,
        (
          u,
          terms,
          signed,
          part,
          subst
              (λ w. decode_ledger_transfer_record is_canonical (object (envelope_members r)) ≡ ok w)
              same decoded,
        ),
      )
