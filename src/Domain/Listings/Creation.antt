-- ===== src/Domain/Listings/Creation.antt =====
-- What `createListing` accepts, as a predicate that does not mention the code's guards.
use peer_hours.Prelude.{ℕ, suc, ◌≤◌, ◌≡◌, ◌↔◌, false, ok, arith, pos}
use peer_hours.Script.Text.{is_blank, utf16_length}
use peer_hours.Script.Number.{whole, is_bad_amount, amount_of_guard, guard_of_amount}
use peer_hours.Domain.Types.{Listing, ListingKind, draft, CreateListingInput}
use peer_hours.Domain.Listings.{create_listing}

pub record IsListable (input : CreateListingInput) : Type 0 where
  pub id : is_blank input.id ≡ false
  pub community_id : is_blank input.community_id ≡ false
  pub member_id : is_blank input.member_id ≡ false
  pub title : is_blank input.title ≡ false
  pub description : is_blank input.description ≡ false
  pub short : utf16_length input.description ≤ 12000
  pub amount : ℕ
  pub minutes : input.minutes ≡ whole (pos (suc amount))

abbrev pub drafted : ListingKind → CreateListingInput → Listing
drafted kind input = record {
  id = input.id;
  community_id = input.community_id;
  member_id = input.member_id;
  kind = kind;
  title = input.title;
  description = input.description;
  minutes = input.minutes;
  status = draft;
}

module _ (kind : ListingKind) (input : CreateListingInput) where
  listable_guard :
      (l : Listing)
      → create_listing kind input ≡ ok l
      → (is_bad_amount input.minutes ≡ false) × (l ≡ drafted kind input)
  unfolding create_listing
  listable_guard l h = ground arith

  -- `createListing` succeeds exactly when id, community, member, title and description are not
  -- blank, the description has at most 12000 code units and the minutes are a positive whole
  -- number; then it returns the draft with these fields.
  pub create_listing_iff :
      (l : Listing)
      → (create_listing kind input ≡ ok l) ↔ (IsListable input × (l ≡ drafted kind input))
  unfolding create_listing
  create_listing_iff l = (
    λ h.
        let (good, same) = listable_guard l h in
        let (m, at) = amount_of_guard input.minutes good in
        (
          record {
            id = ground arith;
            community_id = ground arith;
            member_id = ground arith;
            title = ground arith;
            description = ground arith;
            short = ground arith;
            amount = m;
            minutes = at;
          },
          same,
        ),
    λ g. let good = guard_of_amount g.0.amount in ground arith,
  )
