-- ===== src/Identity/Payload.antt =====
-- What participants sign: `canonicalTransferPayload` and `transferPayloadDigest` of
-- packages/timebank-identity/src/index.ts, for terms. `digest` belongs to the runtime: the
-- base64url text of the SHA-256 of the JSON text of the schema and these fields.
use peer_hours.Prelude.{String, Result, ok, ◌>>=◌}
use peer_hours.Ledger.Types.{TransferTerms}
use peer_hours.Ledger.Transfers.{create_transfer_terms}

module _ (digest : TransferTerms → String) where
  unfoldable pub transfer_payload_digest : TransferTerms → Result String
  transfer_payload_digest transfer = do
    normalized ← create_transfer_terms transfer
    ok (digest normalized)
