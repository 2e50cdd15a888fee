-- ===== src/Domain/Listings/Lifecycle.antt =====
-- The lifecycle of a listing: draft, published, closed, by `publishListing` and `closeListing`.
use peer_hours.Prelude.{ℕ, suc, ◌≡◌, ◌↔◌, refl, ◌∙◌, ok, arith}
use peer_hours.Domain.Types.{
  MemberProfile, Listing, ListingStatus, ListingKind, draft, published, closed, CreateListingInput,
}
use peer_hours.Domain.Listings.{create_listing, publish_listing, close_listing}

-- One successful action on a listing.
pub data Step (l l' : Listing) : Type 0 where
  publish : (owner : MemberProfile) → publish_listing l owner ≡ ok l' → Step l l'
  close : (owner : MemberProfile) → close_listing l owner ≡ ok l' → Step l l'

pub data Run (l : Listing) : Listing → Type 0 where
  stay : Run l l
  next : {m n : Listing} → Run l m → Step m n → Run l n

abbrev pub steps : {l m : Listing} → Run l m → ℕ
steps stay = 0
steps (next r _) = suc (steps r)

abbrev pub stage : ListingStatus → ℕ
stage draft = 0
stage published = 1
stage closed = 2

-- What no action changes.
pub record SameTerms (l m : Listing) : Type 0 where
  pub id : l.id ≡ m.id
  pub community_id : l.community_id ≡ m.community_id
  pub member_id : l.member_id ≡ m.member_id
  pub kind : l.kind ≡ m.kind
  pub title : l.title ≡ m.title
  pub description : l.description ≡ m.description
  pub minutes : l.minutes ≡ m.minutes

Step-SameTerms :
    {l m : Listing} → Step l m → SameTerms l m × (stage m.status ≡ suc (stage l.status))
unfolding publish_listing close_listing
Step-SameTerms (publish owner h) = ground arith
Step-SameTerms (close owner h) = ground arith

SameTerms-trans : {l m n : Listing} → SameTerms l m → SameTerms m n → SameTerms l n
SameTerms-trans a b = record {
  id = a.id ∙ b.id;
  community_id = a.community_id ∙ b.community_id;
  member_id = a.member_id ∙ b.member_id;
  kind = a.kind ∙ b.kind;
  title = a.title ∙ b.title;
  description = a.description ∙ b.description;
  minutes = a.minutes ∙ b.minutes;
}

Run_lem :
    {l m : Listing} (r : Run l m) → l.status ≡ draft → SameTerms l m × (stage m.status ≡ steps r)
Run_lem stay h = (
  record {
    id = refl;
    community_id = refl;
    member_id = refl;
    kind = refl;
    title = refl;
    description = refl;
    minutes = refl;
  },
  ground arith,
)
Run_lem (next r s) h =
    let (same, at) = Run_lem r h in
    let (kept, later) = Step-SameTerms s in (SameTerms-trans same kept, omega arith)

draft-create_listing :
    (kind : ListingKind) (input : CreateListingInput) (l : Listing)
    → create_listing kind input ≡ ok l
    → l.status ≡ draft
unfolding create_listing
draft-create_listing kind input l h = ground arith

-- From a listing that `createListing` returned, whatever actions succeed and whoever acts: every
-- term of the listing stays, and its stage (draft 0, published 1, closed 2) is the number of
-- actions, so that a listing is published once, then closed once, and never anything else.
pub Run_from_creation :
    (kind : ListingKind) (input : CreateListingInput) (l m : Listing) (r : Run l m)
    → create_listing kind input ≡ ok l
    → SameTerms l m × (stage m.status ≡ steps r)
Run_from_creation kind input l m r h = Run_lem r (draft-create_listing kind input l h)

pub record OwnedBy (owner : MemberProfile) (l : Listing) : Type 0 where
  pub member : owner.id ≡ l.member_id
  pub community : owner.community_id ≡ l.community_id

-- Publishing succeeds exactly on a draft of the acting owner in its community, and closing exactly
-- on a published listing of that owner; the result differs in its status alone.
pub actions_of_owner :
    (l m : Listing) (owner : MemberProfile)
    → ((publish_listing l owner ≡ ok m)
        ↔ ((l.status ≡ draft) × OwnedBy owner l × (m ≡ record l { status = published })))
      × ((close_listing l owner ≡ ok m)
          ↔ ((l.status ≡ published) × OwnedBy owner l × (m ≡ record l { status = closed })))
unfolding publish_listing close_listing
actions_of_owner l m owner =
    ((λ h. ground arith, λ h. ground arith), (λ h. ground arith, λ h. ground arith))
