-- ===== src/Records/Timebank/Transfers/Lossless.antt =====
-- The records of ledger transfers keep what they record.
use mathlib.Core.Path.{subst}
use peer_hours.Prelude.{
  Bool, true, String, String-discrete, Option, none, some, List, [], ◌∷◌, ◌≡◌, refl, sym, ◌∙◌,
  arith, text_equality, Result, ok, err, >>=-eq-ok, eq_of_ok, Error, mapping, bad_transfer, SameSet,
}
use peer_hours.Script.Number.{is_finite}
use peer_hours.Script.Order.{units_before}
use peer_hours.Script.Sort.{insert, sort}
use peer_hours.Ledger.Types.{TransferAttestation, Transfer}
use peer_hours.Ledger.Transfers.{create_transfer}
use peer_hours.Ledger.Transfers.Normal.{IsNormal, create_transfer-IsNormal}
use peer_hours.Records.Json.{
  Json, object, field, collect_members, normalize_json, normalize_items, normalize_members,
}
use peer_hours.Records.Envelope.{RecordEnvelope, envelope_members}
use peer_hours.Records.Timebank.{CreateTimebankRecordMetadata, as_object, rethrown_as}
use peer_hours.Records.Timebank.Transfers.{
  attestation_view, attestations_view, transfer_view, read_text, read_optional, read_number,
  read_attestation, read_each, read_attestations, read_transfer, normalize_transfer, takes_part,
  any_author, ledger_transfer_form, to_ledger_transfer_record, decode_ledger_transfer_record,
}
use peer_hours.Records.Timebank.Decoded.{IsLossless, decode_record-to_record}

attestations_view-normal :
    (l : List TransferAttestation)
    → normalize_items (attestations_view l) ≡ ok (attestations_view l)
unfolding normalize_json normalize_items normalize_members collect_members sort insert units_before
    attestation_view attestations_view String-discrete
attestations_view-normal [] = refl
attestations_view-normal (a ∷ l) = rw (attestations_view-normal l) refl

transfer_view-normal :
    (t : Transfer) (source reversed : Option String)
    → t.source_proposal_id ≡ source
    → t.reverses_transfer_id ≡ reversed
    → is_finite t.minutes ≡ true
    → normalize_json (object (transfer_view t)) ≡ ok (object (transfer_view t))
unfolding normalize_json normalize_members collect_members sort insert units_before transfer_view
    String-discrete
transfer_view-normal t none none s r finite =
    rw (s, r, finite, attestations_view-normal t.attestations) refl
transfer_view-normal t none (some b) s r finite =
    rw (s, r, finite, attestations_view-normal t.attestations) refl
transfer_view-normal t (some a) none s r finite =
    rw (s, r, finite, attestations_view-normal t.attestations) refl
transfer_view-normal t (some a) (some b) s r finite =
    rw (s, r, finite, attestations_view-normal t.attestations) refl

read_each-view : (l : List TransferAttestation) → read_each (attestations_view l) ≡ ok l
unfolding read_each read_attestation read_text attestations_view attestation_view field
    String-discrete
read_each-view [] = refl
read_each-view (a ∷ l) = rw (read_each-view l) refl

read_transfer-view :
    (t : Transfer) (source reversed : Option String)
    → t.source_proposal_id ≡ source
    → t.reverses_transfer_id ≡ reversed
    → read_transfer (transfer_view t) ≡ ok t
unfolding read_transfer read_text read_optional read_number read_attestations transfer_view field
    String-discrete
read_transfer-view t none none s r = rw (s, r, read_each-view t.attestations) refl
read_transfer-view t none (some b) s r = rw (s, r, read_each-view t.attestations) refl
read_transfer-view t (some a) none s r = rw (s, r, read_each-view t.attestations) refl
read_transfer-view t (some a) (some b) s r = rw (s, r, read_each-view t.attestations) refl

rethrown_as-ok {ℓ} :
    {A : Type ℓ} (error : Error) (r : Result A) {a : A} → rethrown_as error r ≡ ok a → r ≡ ok a
rethrown_as-ok error (ok a) h = h
rethrown_as-ok error (err e) h = cc

-- Reading a transfer's own payload is creating the transfer.
normalize_transfer-view :
    (t u : Transfer)
    → normalize_transfer (object (transfer_view t)) ≡ ok u
    → create_transfer t ≡ ok u
unfolding normalize_transfer
normalize_transfer-view t u h =
    let (s, e, f) =
      >>=-eq-ok (read_transfer (transfer_view t)) _ (rethrown_as-ok (mapping bad_transfer) _ h) in
    let read = read_transfer-view t t.source_proposal_id t.reverses_transfer_id refl refl in
    let same : s ≡ t = eq_of_ok s t (sym e ∙ read) in subst (λ v. create_transfer v ≡ ok u) same f

transfer_again :
    (t : Transfer) → create_transfer t ≡ ok t → normalize_transfer (object (transfer_view t)) ≡ ok t
unfolding normalize_transfer
transfer_again t h =
    rw (read_transfer-view t t.source_proposal_id t.reverses_transfer_id refl refl, h) refl

read-IsNormal : (j : Json) (t : Transfer) → normalize_transfer j ≡ ok t → IsNormal t
unfolding normalize_transfer
read-IsNormal j t h =
    let (m, e, f) = >>=-eq-ok (as_object j "ledger transfer") _ h in
    let (s, g, made) = >>=-eq-ok (read_transfer m) _ (rethrown_as-ok (mapping bad_transfer) _ f) in
    let (_, _, normal) = create_transfer-IsNormal s t made in normal

finite_of_normal : (t : Transfer) → IsNormal t → is_finite t.minutes ≡ true
unfolding is_finite
finite_of_normal t w = rw w.minutes refl

transfer-IsLossless : IsLossless ledger_transfer_form
transfer-IsLossless = record {
  again = λ j t h. transfer_again t (read-IsNormal j t h).again;
  normal = λ j t h.
      transfer_view-normal t t.source_proposal_id t.reverses_transfer_id refl refl
        (finite_of_normal t (read-IsNormal j t h));
}

module _ (is_canonical : String → Bool) where
  -- The record that a participant writes for a ledger transfer is decoded to the transfer that the
  -- ledger creates of it, which has the same terms and the same attestations, the provider's first.
  pub decode_transfer-to_transfer :
      (t : Transfer) (metadata : CreateTimebankRecordMetadata) (r : RecordEnvelope)
      → to_ledger_transfer_record is_canonical t metadata ≡ ok r
      → takes_part t metadata.author_id ≡ true
      → (u : Transfer) × (create_transfer t ≡ ok u)
        × (decode_ledger_transfer_record is_canonical (object (envelope_members r)) ≡ ok u)
        × (u.terms ≡ t.terms)
        × SameSet u.attestations t.attestations
  unfolding to_ledger_transfer_record decode_ledger_transfer_record
  decode_transfer-to_transfer t metadata r h part =
      let (u, e, _, decoded) =
        decode_record-to_record is_canonical ledger_transfer_form transfer-IsLossless any_author t
          metadata r h in
      let made = normalize_transfer-view t u e in
      let (terms, attestations, _) = create_transfer-IsNormal t u made in
      let part' : takes_part u metadata.author_id ≡ true = ground arith in
      (u, made, decoded part', terms, attestations)
