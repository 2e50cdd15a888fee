-- ===== src/Records/Timebank/Listings/Lossless.antt =====
-- The records of listings keep what they record.
use peer_hours.Prelude.{
  Bool, true, false, String, String-discrete, some, ◌≡◌, refl, sym, ap, ◌∙◌, arith, text_equality,
  ◌==◌, eq_of_==, ok, err, not_listing_kind, if◌then◌else◌, >>=-eq-ok, mapping, ==_refl,
}
use mathlib.Core.Path.{subst}
use peer_hours.Script.Text.{is_blank}
use peer_hours.Script.Text.Append.{is_blank-append}
use peer_hours.Script.Number.{is_bad_amount, is_finite, finite_of_guard}
use peer_hours.Script.Order.{units_before}
use peer_hours.Script.Sort.{insert, sort}
use peer_hours.Domain.Types.{
  Listing, ListingKind, offer, request, ListingStatus, draft, published, closed,
}
use peer_hours.Records.Json.{
  Json, text, object, field, collect_members, normalize_json, normalize_members,
}
use peer_hours.Records.Timebank.{
  CreateTimebankRecordMetadata, assert_text, assert_minutes, as_object, reads, decode_record,
}
use peer_hours.Records.Timebank.Fields.{assert_text-ok, assert_minutes-ok}
use peer_hours.Records.Timebank.Listings.{
  ClosedListing, listing_view, closure_view, listing_kind, normalize_published_listing,
  normalize_closed_listing, published_listing_form, closed_listing_form, kind_text, status_text,
  closure_of, closed_listing_record_id, owns_listing, owns_closure, to_published_listing_record,
  decode_published_listing_record, to_closed_listing_record, decode_closed_listing_record,
}
use peer_hours.Records.Timebank.Decoded.{
  IsLossless, WritesAs, writes_drafted, decode_record-drafted, decode_record-to_record_same,
}
use peer_hours.Records.Envelope.{RecordEnvelope, envelope_members}

listing_view-normal :
    (l : Listing)
    → is_finite l.minutes ≡ true
    → normalize_json (object (listing_view l)) ≡ ok (object (listing_view l))
unfolding normalize_json normalize_members collect_members sort insert units_before listing_view
    String-discrete
listing_view-normal l finite = rw finite refl

listing_kind-view : (l : Listing) → listing_kind (listing_view l) ≡ ok l.kind
unfolding listing_kind listing_view field String-discrete
listing_kind-view l = of_kind l.kind
  where
    of_kind :
        (k : ListingKind)
        → (if kind_text k == "offer"
            then ok offer
            else if kind_text k == "request"
            then ok request
            else err (mapping (not_listing_kind "published listing")))
          ≡ ok k
    of_kind offer = refl
    of_kind request = refl

status_of_text :
    (s : ListingStatus) → reads (some (text (status_text s))) "published" ≡ true → s ≡ published
unfolding String-discrete
status_of_text draft h = cc
status_of_text published h = refl
status_of_text closed h = cc

same_listing :
    (t u : Listing) → normalize_published_listing (object (listing_view t)) ≡ ok u → u ≡ t
unfolding normalize_published_listing listing_view field assert_text assert_minutes String-discrete
same_listing t u h = ground (arith, listing_kind-view t, status_of_text t.status)

-- What the reader of listings lets pass.
pub record IsPublic (l : Listing) : Type 0 where
  pub id : is_blank l.id ≡ false
  pub community : is_blank l.community_id ≡ false
  pub owner : is_blank l.member_id ≡ false
  pub title : is_blank l.title ≡ false
  pub description : is_blank l.description ≡ false
  pub minutes : is_bad_amount l.minutes ≡ false
  pub status : l.status ≡ published

public_again :
    (l : Listing) → IsPublic l → normalize_published_listing (object (listing_view l)) ≡ ok l
unfolding normalize_published_listing listing_view field assert_text assert_minutes String-discrete
public_again l w =
    rw
      (w.id, w.community, w.owner, w.title, w.description, w.minutes, listing_kind-view l, w.status)
      refl

read-IsPublic : (j : Json) (l : Listing) → normalize_published_listing j ≡ ok l → IsPublic l
unfolding normalize_published_listing
read-IsPublic j l h =
    let (m, e₀, h₀) = >>=-eq-ok (as_object j "published listing") _ h in
    let (id, e₁, h₁) = >>=-eq-ok (assert_text (field m "id") "Listing id") _ h₀ in
    let (community, e₂, h₂) =
      >>=-eq-ok (assert_text (field m "communityId") "Listing community id") _ h₁ in
    let (owner, e₃, h₃) = >>=-eq-ok (assert_text (field m "memberId") "Listing member id") _ h₂ in
    let (title, e₄, h₄) = >>=-eq-ok (assert_text (field m "title") "Listing title") _ h₃ in
    let (description, e₅, h₅) =
      >>=-eq-ok (assert_text (field m "description") "Listing description") _ h₄ in
    let (minutes, e₆, h₆) = >>=-eq-ok (assert_minutes (field m "minutes") "Listing minutes") _ h₅ in
    let b₁ = assert_text-ok (field m "id") "Listing id" e₁ in
    let b₂ = assert_text-ok (field m "communityId") "Listing community id" e₂ in
    let b₃ = assert_text-ok (field m "memberId") "Listing member id" e₃ in
    let b₄ = assert_text-ok (field m "title") "Listing title" e₄ in
    let b₅ = assert_text-ok (field m "description") "Listing description" e₅ in
    let b₆ = assert_minutes-ok (field m "minutes") "Listing minutes" e₆ in
    record {
      id = ground arith;
      community = ground arith;
      owner = ground arith;
      title = ground arith;
      description = ground arith;
      minutes = ground arith;
      status = ground arith;
    }

listing-IsLossless : IsLossless published_listing_form
listing-IsLossless = record {
  again = λ j l h. public_again l (read-IsPublic j l h);
  normal = λ j l h. listing_view-normal l (finite_of_guard l.minutes (read-IsPublic j l h).minutes);
}

closure_view-normal :
    (l : ClosedListing) → normalize_json (object (closure_view l)) ≡ ok (object (closure_view l))
unfolding normalize_json normalize_members collect_members sort insert units_before closure_view
    String-discrete
closure_view-normal l = refl

-- The closure of a public listing is read back.
closure_again :
    (l : Listing)
    → IsPublic l
    → normalize_closed_listing (object (closure_view (closure_of l))) ≡ ok (closure_of l)
unfolding normalize_closed_listing closure_view field assert_text String-discrete
closure_again l w =
    let told : is_blank (closed_listing_record_id l.id) ≡ false =
      rw (is_blank-append l.id "/closed", w.id) refl in
    rw (told, w.community, w.id, w.owner, ==_refl (closed_listing_record_id l.id)) refl

module _ (is_canonical : String → Bool) where
  -- The record that is written for a published listing is decoded to that same listing.
  pub decode_published-to_published :
      (l : Listing) (metadata : CreateTimebankRecordMetadata) (r : RecordEnvelope)
      → to_published_listing_record is_canonical l metadata ≡ ok r
      → decode_published_listing_record is_canonical (object (envelope_members r)) ≡ ok l
  unfolding to_published_listing_record decode_published_listing_record
  decode_published-to_published l metadata r h =
      decode_record-to_record_same is_canonical published_listing_form listing-IsLossless
        owns_listing same_listing (λ t author e. e) l metadata r h

  -- The record that is written when a published listing is closed is decoded to the closure that
  -- names the listing, its community and its owner, and the id of the record is the listing's id
  -- followed by "/closed".
  pub decode_closed-to_closed :
      (l : Listing) (metadata : CreateTimebankRecordMetadata) (r : RecordEnvelope)
      → to_closed_listing_record is_canonical l metadata ≡ ok r
      → (decode_closed_listing_record is_canonical (object (envelope_members r))
          ≡ ok (closure_of l))
        × (r.id ≡ closed_listing_record_id l.id)
        × (r.author_id ≡ l.member_id)
  unfolding to_closed_listing_record decode_closed_listing_record
  decode_closed-to_closed l metadata r h =
      let (u, e, h₁) = >>=-eq-ok (normalize_published_listing (object (listing_view l))) _ h in
      let same = same_listing l u e in
      let public : IsPublic l = subst IsPublic same (read-IsPublic (object (listing_view l)) u e) in
      let written : WritesAs is_canonical closed_listing_form owns_closure (closure_of l) metadata
          r =
        subst
          (λ v. WritesAs is_canonical closed_listing_form owns_closure (closure_of v) metadata r)
          same h₁ in
      let (read, may, drafts, w) =
        writes_drafted is_canonical closed_listing_form owns_closure (closure_of l) metadata r
          (closure_view-normal (closure_of l)) (closure_again l public) written in
      let decoded =
        decode_record-drafted is_canonical closed_listing_form (closure_of l) metadata w read may in
      (
        subst
            (λ s.
              decode_record is_canonical closed_listing_form (object (envelope_members s))
              ≡ ok (closure_of l))
            (sym drafts) decoded,
        ap (λ (s : RecordEnvelope). s.id) drafts,
        ap (λ (s : RecordEnvelope). s.author_id) drafts
            ∙ eq_of_== metadata.author_id l.member_id may,
      )
