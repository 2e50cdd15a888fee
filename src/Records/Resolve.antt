-- ===== src/Records/Resolve.antt =====
-- The state that a record history resolves to: packages/timebank-records/src/resolve.ts.
pub mod Admission
pub mod State
pub mod Settled
pub mod Admitted
pub mod Assembled
use peer_hours.Prelude.{
  Bool, false, not, ◌||◌, ◌&&◌, String, Option, none, some, List, [], ◌∷◌, ◌++◌, map, ◌==◌,
  text_equality, if◌then◌else◌, Result, ok, err, throw_if, ◌>>=◌, ◌>>◌, resolution, unknown_listing,
  unknown_proposal, changed_terms, rethrown,
}
use peer_hours.Script.Number.{strictly_equal}
use peer_hours.Script.Map.{Map, get, set}
use peer_hours.Script.Collation.{Collation}
use peer_hours.Domain.Types.{Listing, ExchangeProposal}
use peer_hours.Ledger.Types.{Transfer, TransferTerms, Ledger}
use peer_hours.Identity.Events.{MemberSigningKeyAuthorization}
use peer_hours.Identity.Owned.{DeclarationTerms, LifecycleTerms}
use peer_hours.Settlement.Acknowledgements.{
  SettlementAcknowledgement, SettlementConfirmationState, validate_settlement_acknowledgement,
}
use peer_hours.Settlement.Attestations.{SettlementAttestationState}
use peer_hours.Records.Json.{Json, object, Members}
use peer_hours.Records.Envelope.{RecordEnvelope, envelope_members}
use peer_hours.Records.Timebank.{reads}
use peer_hours.Records.Timebank.Listings.{
  ClosedListing, published_listing_record_kind, closed_listing_record_kind,
}
use peer_hours.Records.Timebank.Proposals.{
  accepted_proposal_record_kind, proposed_proposal_record_kind,
}
use peer_hours.Records.Timebank.Transfers.{ledger_transfer_record_kind}
use peer_hours.Records.Timebank.Settlements.{
  settlement_acknowledgement_record_kind, settlement_attestation_record_kind,
}
use peer_hours.Records.KeyEvents.{
  identity_key_activation_record_kind, identity_key_revocation_record_kind,
}

-- What the runtime and its packages provide.
pub record Runtime : Type 0 where
  pub collation : Collation
  pub is_canonical : String → Bool
  pub fingerprint : String → Option String
  pub hash : String → String
  pub digest : TransferTerms → String
  pub is_signature : String → Bool
  pub verify_terms : TransferTerms → String → String → Result Bool
  pub verify_record : RecordEnvelope → String → String → Result Bool
  pub verify_declaration : DeclarationTerms → String → String → Result Bool
  pub verify_lifecycle : LifecycleTerms → String → String → Result Bool

pub record ResolvedTimebankState : Type 0 where
  pub community_id : String
  pub authorizations : List MemberSigningKeyAuthorization
  pub published_listings : List Listing
  pub proposed_proposals : List ExchangeProposal
  pub accepted_proposals : List ExchangeProposal
  pub settlement_acknowledgements : List SettlementAcknowledgement
  pub settlement_confirmations : List SettlementConfirmationState
  pub settlement_attestations : List SettlementAttestationState
  pub transfers : List Transfer
  pub ledger : Ledger

-- `Array.prototype.filter`
unfoldable pub filter : {A : Type 0} → (A → Bool) → List A → List A
filter test [] = []
filter test (x ∷ xs) = let rest = filter test xs in if test x then x ∷ rest else rest

-- The records of one kind, as the adapters read them.
abbrev pub of_kind : String → List RecordEnvelope → List Members
of_kind kind records = map envelope_members (filter (λ r. r.kind == kind) records)

abbrev pub of_kind_json : String → List RecordEnvelope → List Json
of_kind_json kind records = map object (of_kind kind records)

unfoldable pub is_member_authored_kind : Option Json → Bool
is_member_authored_kind kind =
    reads kind published_listing_record_kind
    || reads kind closed_listing_record_kind
    || reads kind proposed_proposal_record_kind
    || reads kind accepted_proposal_record_kind
    || reads kind settlement_acknowledgement_record_kind
    || reads kind settlement_attestation_record_kind
    || reads kind ledger_transfer_record_kind

unfoldable pub is_identity_record : RecordEnvelope → Bool
is_identity_record r =
    r.kind == identity_key_activation_record_kind || r.kind == identity_key_revocation_record_kind

unfoldable pub find_listing : String → List Listing → Option Listing
find_listing id [] = none
find_listing id (l ∷ listings) = if l.id == id then some l else find_listing id listings

abbrev pub owns_closed : Option Listing → ClosedListing → Bool
owns_closed none closure = false
owns_closed (some listing) closure =
    listing.member_id == closure.member_id && listing.community_id == closure.community_id

-- The loop over the closures, which fills `closedListingIds`.
unfoldable pub closed_listing_ids : List Listing → List ClosedListing → Result (List String)
closed_listing_ids listings [] = ok []
closed_listing_ids listings (closure ∷ closures) = do
  throw_if (not (owns_closed (find_listing closure.listing_id listings) closure))
      (resolution unknown_listing)
  ids ← closed_listing_ids listings closures
  ok (closure.listing_id ∷ ids)

-- `new Map(proposals.map((proposal) => [proposal.id, proposal]))`
unfoldable pub by_proposal_id : Map ExchangeProposal → List ExchangeProposal → Map ExchangeProposal
by_proposal_id m [] = m
by_proposal_id m (p ∷ proposals) = by_proposal_id (set m p.id p) proposals

abbrev pub same_terms : ExchangeProposal → ExchangeProposal → Bool
same_terms proposed accepted =
    proposed.community_id == accepted.community_id
    && proposed.offer_id == accepted.offer_id
    && proposed.request_id == accepted.request_id
    && proposed.provider_member_id == accepted.provider_member_id
    && proposed.receiver_member_id == accepted.receiver_member_id
    && proposed.creator_member_id == accepted.creator_member_id
    && strictly_equal proposed.minutes accepted.minutes

-- The loop of `assertAcceptedProposalsPreservePublishedTerms`.
unfoldable pub assert_preserved : Map ExchangeProposal → List ExchangeProposal → Result (Unit {0})
assert_preserved proposed [] = ok tt
assert_preserved proposed (p ∷ accepted) = do
  throw_if (elim (get proposed p.id) [ none ↦ false | some known ↦ not (same_terms known p) ])
      (resolution changed_terms)
  assert_preserved proposed accepted

unfoldable pub assert_accepted_proposals_preserve_published_terms :
    List ExchangeProposal → List ExchangeProposal → Result (Unit {0})
assert_accepted_proposals_preserve_published_terms proposed accepted =
    assert_preserved (by_proposal_id [] proposed) accepted

-- A list under a key, empty where nothing was pushed, and a push onto it.
abbrev pub listed : {A : Type 0} → Map (List A) → String → List A
listed m k = elim (get m k) [ none ↦ [] | some xs ↦ xs ]

abbrev pub push : {A : Type 0} → Map (List A) → String → A → Map (List A)
push m k x = set m k (listed m k ++ (x ∷ []))

abbrev pub known_proposal : Map ExchangeProposal → String → Result ExchangeProposal
known_proposal proposals id = elim (get proposals id) [
  | none ↦ err (resolution unknown_proposal)
  | some p ↦ ok p
]

-- The loop over the acknowledgements.
unfoldable pub acknowledgements_by_proposal :
    Map ExchangeProposal
    → Map (List SettlementAcknowledgement)
    → List SettlementAcknowledgement
    → Result (Map (List SettlementAcknowledgement))
acknowledgements_by_proposal proposals m [] = ok m
acknowledgements_by_proposal proposals m (a ∷ acknowledgements) = do
  p ← known_proposal proposals a.source_proposal_id
  _ ← validate_settlement_acknowledgement p a
  acknowledgements_by_proposal proposals (push m p.id a) acknowledgements

-- `array.map(f)` with a function that may throw.
unfoldable pub map_result : {A B : Type 0} → (A → Result B) → List A → Result (List B)
map_result f [] = ok []
map_result f (x ∷ xs) = do y ← f x; ys ← map_result f xs; ok (y ∷ ys)

-- What `resolveTimebankRecords` does with an error.
abbrev pub resolution_error : {A : Type 0} → Result A → Result A
resolution_error (ok value) = ok value
resolution_error (err (resolution rule)) = err (resolution rule)
resolution_error (err _) = err (resolution rethrown)
