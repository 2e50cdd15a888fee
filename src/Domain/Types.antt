-- ===== src/Domain/Types.antt =====
-- The records of packages/timebank-domain/src/index.ts. An action's input object is its arguments.
use peer_hours.Prelude.{String, Option}
use peer_hours.Script.Number.{Number}

-- The input of `createMemberProfile` has the same fields.
pub record MemberProfile : Type 0 where
  pub id : String
  pub community_id : String
  pub display_name : String

pub data ListingStatus : Type 0 where
  draft published closed : ListingStatus

pub data ListingKind : Type 0 where
  offer request : ListingKind

pub record Listing : Type 0 where
  pub id : String
  pub community_id : String
  pub member_id : String
  pub kind : ListingKind
  pub title : String
  pub description : String
  pub minutes : Number
  pub status : ListingStatus

pub data ProposalStatus : Type 0 where
  proposed accepted : ProposalStatus

pub record ExchangeProposal : Type 0 where
  pub id : String
  pub community_id : String
  pub offer_id : String
  pub request_id : String
  pub provider_member_id : String
  pub receiver_member_id : String
  pub creator_member_id : String
  pub accepted_by_member_id : Option String
  pub minutes : Number
  pub status : ProposalStatus

pub record CreateListingInput : Type 0 where
  pub id : String
  pub community_id : String
  pub member_id : String
  pub title : String
  pub description : String
  pub minutes : Number

instance unfoldable pub ListingStatus-discrete : Discrete ListingStatus
ListingStatus-discrete = hlevel

instance unfoldable pub ListingKind-discrete : Discrete ListingKind
ListingKind-discrete = hlevel

instance unfoldable pub ProposalStatus-discrete : Discrete ProposalStatus
ProposalStatus-discrete = hlevel
