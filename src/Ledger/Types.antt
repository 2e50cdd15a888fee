-- ===== src/Ledger/Types.antt =====
-- The records of packages/timebank-ledger/src/index.ts.
use peer_hours.Prelude.{String, Option, List, ℤ, Result, Bool, text_equality, String-discrete}
use peer_hours.Script.Number.{Number, Number-discrete}
use peer_hours.Script.Map.{Map}

pub record TransferAttestation : Type 0 where
  pub member_id : String
  pub key_id : String
  pub payload_digest : String
  pub signature : String

pub record TransferTerms : Type 0 where
  pub id : String
  pub community_id : String
  pub source_proposal_id : Option String
  pub provider_member_id : String
  pub recipient_member_id : String
  pub minutes : Number
  pub reverses_transfer_id : Option String

pub record Transfer : Type 0 where
  pub terms : TransferTerms
  pub open terms use *
  pub attestations : List TransferAttestation

pub record LedgerPosting : Type 0 where
  pub transfer_id : String
  pub member_id : String
  pub minutes : ℤ

pub data RejectionReason : Type 0 where
  minimum_balance unaccepted_reversal : RejectionReason

pub record RejectedTransfer : Type 0 where
  pub transfer : Transfer
  pub reason : RejectionReason

pub record LedgerPolicy : Type 0 where
  pub minimum_balance_minutes : Number

-- A property value of the plain object `balances`: `number` is a number, `text` is what adding to
-- an inherited member of the object leaves, a text that is no numeral.
pub data Amount : Type 0 where
  number : ℤ → Amount
  text : Amount

pub record Ledger : Type 0 where
  pub community_id : String
  pub transfers : List Transfer
  pub rejected_transfers : List RejectedTransfer
  pub postings : List LedgerPosting
  pub balances : Map Amount

-- The verifier belongs to the caller; an error is an exception that it throws.
abbrev pub SignatureVerifier : Type 0
SignatureVerifier = Transfer → TransferAttestation → Result Bool

instance unfoldable pub Attestation-discrete : Discrete TransferAttestation
unfolding String-discrete
Attestation-discrete = hlevel String-discrete

instance unfoldable pub Terms-discrete : Discrete TransferTerms
unfolding String-discrete Number-discrete
Terms-discrete = hlevel (String-discrete, Number-discrete)

instance unfoldable pub Transfer-discrete : Discrete Transfer
unfolding Terms-discrete Attestation-discrete
Transfer-discrete = hlevel (Terms-discrete, Attestation-discrete)
