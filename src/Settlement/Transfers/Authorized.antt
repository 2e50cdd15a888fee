-- ===== src/Settlement/Transfers/Authorized.antt =====
-- `validateAuthorizedDualConfirmedSettlementTransfer` of packages/timebank-settlement/src/index.ts.
use peer_hours.Prelude.{
  Bool, String, Option, List, ◌≡◌, ◌∙◌, sym, All, Result, ok, ◌>>=◌, >>=-eq-ok, eq_of_ok,
}
use mathlib.Core.Path.{subst}
use peer_hours.Script.Collation.{Collation}
use peer_hours.Domain.Types.{ExchangeProposal}
use peer_hours.Ledger.Types.{TransferTerms, Transfer}
use peer_hours.Ledger.Transfers.{create_transfer}
use peer_hours.Ledger.Transfers.Normal.{create_transfer-IsNormal}
use peer_hours.Identity.Events.{MemberSigningKeyAuthorization}
use peer_hours.Identity.Verifier.{assert_authorized_attestations}
use peer_hours.Identity.Verifier.Indexed.{IsSeparable}
use peer_hours.Identity.Verifier.Admitted.{IsAuthorized, admitted-IsAuthorized}
use peer_hours.Settlement.Acknowledgements.{SettlementAcknowledgement}
use peer_hours.Settlement.Transfers.{validate_confirmed_transfer}
use peer_hours.Settlement.Transfers.Deterministic.{
  settlement_terms, IsConfirmed, validate_confirmed_transfer_iff,
}

-- The parameters are those of the identity package's verifier.
module _ (fingerprint : String → Option String) (is_canonical : String → Bool)
    (digest : TransferTerms → String) (is_signature : String → Bool)
    (verify_bytes : TransferTerms → String → String → Result Bool) (c : Collation) where
  unfoldable pub validate_authorized_transfer :
      ExchangeProposal
      → List SettlementAcknowledgement
      → Transfer
      → List MemberSigningKeyAuthorization
      → Result Transfer
  validate_authorized_transfer proposal acknowledgements input authorizations = do
    transfer ← validate_confirmed_transfer c proposal acknowledgements input
    assert_authorized_attestations fingerprint is_canonical digest is_signature verify_bytes
        transfer authorizations

  -- If the ids of the authorizations hold no NUL character, a transfer is admitted as an authorized
  -- settlement only if both participants have confirmed the exchange, its terms are exactly those
  -- that settle the proposal, and each attestation carries the digest of these terms and a
  -- signature that verifies for them under the key of an active authorization of the attesting
  -- member in the transfer's community.
  pub validate-IsAuthorized :
      (p : ExchangeProposal) (given : List SettlementAcknowledgement) (t u : Transfer)
      (authorizations : List MemberSigningKeyAuthorization)
      → All IsSeparable authorizations
      → validate_authorized_transfer p given t authorizations ≡ ok u
      → IsConfirmed c p given
        × (create_transfer t ≡ ok u)
        × (u.terms ≡ settlement_terms p)
        × All
            (IsAuthorized fingerprint is_canonical digest is_signature verify_bytes authorizations
              u)
            u.attestations
  unfolding validate_authorized_transfer
  validate-IsAuthorized p given t u authorizations separable h =
      let (v, e, f) = >>=-eq-ok (validate_confirmed_transfer c p given t) _ h in
      let (confirmed, made, terms) = (validate_confirmed_transfer_iff c p given t v).0 e in
      let (again, signed) =
        admitted-IsAuthorized fingerprint is_canonical digest is_signature verify_bytes v u
          authorizations separable f in
      let (_, _, normal) = create_transfer-IsNormal t v made in
      let same : v ≡ u = eq_of_ok v u (sym normal.again ∙ again) in
      (
        confirmed,
        subst (λ w. create_transfer t ≡ ok w) same made,
        subst (λ (w : Transfer). w.terms ≡ settlement_terms p) same terms,
        signed,
      )
