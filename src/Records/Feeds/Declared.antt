-- ===== src/Records/Feeds/Declared.antt =====
-- What the first loop of packages/timebank-records/src/feed-resolution.ts knows of declared feeds.
use peer_hours.Prelude.{
  true, false, String, some, List, [], ◌∷◌, ◌≡◌, sym, ◌∙◌, inl, inr, Occurs, here, there, contains,
  ◌==◌, ◌!=◌, text_equality, Bool-cases, eq_of_==, ==_refl, eq_of_ok, ap, ok, throw_if-ok,
  >>=-eq-ok, if◌then◌else◌, arith,
}
use mathlib.Core.Path.{subst}
use peer_hours.Script.Map.{Map, get, set}
use peer_hours.Script.Map.Laws.{get-set}
use peer_hours.Script.Hex.{to_lower_case}
use peer_hours.Identity.Owned.{MemberFeedDeclaration}
use peer_hours.Records.Json.{Json, null, boolean, number, array, text, object, Members}
use peer_hours.Records.Resolve.{Runtime, listed}
use peer_hours.Records.Feeds.{
  DeclaredFeeds, assert_record_like, declares_feed, taken_by_other, with_feed, declare_feed,
  read_declaration_record, declare_record, declare_records,
}

-- The feed keys that are known for a member have a property, and so have the owners of feed keys.
abbrev pub Knows : (String → String → Type 0) → DeclaredFeeds → Type 0
Knows P feeds =
    (member key : String) → contains (listed feeds.keys_by_member member) key ≡ true → P member key

listed-set :
    (m : Map (List String)) (k j : String) (xs : List String)
    → listed (set m k xs) j ≡ (if k == j then xs else listed m j)
listed-set m k j xs = elim (Bool-cases (k == j)) [
  | inl same ↦ rw (get-set m k j xs, listed, same)
  | inr other ↦ rw (get-set m k j xs, listed, other)
]

declare_feed-declares :
    (feeds next : DeclaredFeeds) (d : MemberFeedDeclaration)
    → declare_feed feeds d ≡ ok next
    → (taken_by_other feeds (to_lower_case d.feed_public_key) d.member_id ≡ false)
      × (with_feed feeds d ≡ next)
unfolding declare_feed
declare_feed-declares feeds next d h =
    let (free, e) = throw_if-ok _ _ (ok (with_feed feeds d)) h in
    (free, eq_of_ok (with_feed feeds d) next e)

with_feed-Knows :
    (P : String → String → Type 0) (feeds : DeclaredFeeds) (d : MemberFeedDeclaration)
    → Knows P feeds
    → P d.member_id (to_lower_case d.feed_public_key)
    → Knows P (with_feed feeds d)
with_feed-Knows P feeds d known this member key found =
    let own = to_lower_case d.feed_public_key in
    elim (Bool-cases (d.member_id == member)) [
      | inr other ↦ known member key (
          rw
            (
              listed-set feeds.keys_by_member d.member_id member
                  (own ∷ listed feeds.keys_by_member d.member_id),
              other,
            )
            at found)
      | inl same ↦
          let e : d.member_id ≡ member = eq_of_== d.member_id member same in
          elim (Bool-cases (key == own)) [
            | inl mine ↦
                let k = eq_of_== key own mine in
                subst (λ x. P x key) e (subst (P d.member_id) (sym k) this)
            | inr old ↦ known member key (
                rw
                  (
                    listed-set feeds.keys_by_member d.member_id member
                        (own ∷ listed feeds.keys_by_member d.member_id),
                    same,
                    old,
                    e,
                  )
                  at found)
          ]
    ]

-- Whatever feed key has an owner keeps it.
abbrev pub Keeps : DeclaredFeeds → DeclaredFeeds → Type 0
Keeps feeds next =
    (key member : String)
    → get feeds.members_by_feed_key key ≡ some member
    → get next.members_by_feed_key key ≡ some member

with_feed-Keeps :
    (feeds : DeclaredFeeds) (d : MemberFeedDeclaration)
    → taken_by_other feeds (to_lower_case d.feed_public_key) d.member_id ≡ false
    → Keeps feeds (with_feed feeds d)
with_feed-Keeps feeds d free key member owned =
    let own = to_lower_case d.feed_public_key in
    elim (Bool-cases (own == key)) [
      | inr other ↦ rw (get-set feeds.members_by_feed_key own key d.member_id, other) owned
      | inl same ↦
          let e : own ≡ key = eq_of_== own key same in
          let n : (member != d.member_id) ≡ false = rw (e, taken_by_other, owned) at free in
          let m : (member == d.member_id) ≡ true = ground arith in
          rw (get-set feeds.members_by_feed_key own key d.member_id, same)
            (ap some (sym (eq_of_== member d.member_id m)))
    ]

declare_feed-Knows :
    (P : String → String → Type 0) (feeds next : DeclaredFeeds) (d : MemberFeedDeclaration)
    → Knows P feeds
    → P d.member_id (to_lower_case d.feed_public_key)
    → declare_feed feeds d ≡ ok next
    → Knows P next
declare_feed-Knows P feeds next d known this h =
    let (_, e) = declare_feed-declares feeds next d h in
    subst (Knows P) e (with_feed-Knows P feeds d known this)

-- Whatever feed key has an owner keeps it, and the declared one has the declaring member.
declare_feed-owners :
    (feeds next : DeclaredFeeds) (d : MemberFeedDeclaration)
    → declare_feed feeds d ≡ ok next
    → Keeps feeds next
      × (get next.members_by_feed_key (to_lower_case d.feed_public_key) ≡ some d.member_id)
declare_feed-owners feeds next d h =
    let (free, e) = declare_feed-declares feeds next d h in
    subst
      (λ n.
        Keeps feeds n
        × (get n.members_by_feed_key (to_lower_case d.feed_public_key) ≡ some d.member_id))
      e
      (
        with_feed-Keeps feeds d free,
        rw (
          get-set feeds.members_by_feed_key (to_lower_case d.feed_public_key)
              (to_lower_case d.feed_public_key) d.member_id,
          ==_refl (to_lower_case d.feed_public_key),
        ),
      )

record_like : (j : Json) (r : Members) → assert_record_like j ≡ ok r → object r ≡ j
unfolding assert_record_like
record_like (object q) r h = ap object (sym (eq_of_ok q r h))
record_like null r h = cc
record_like (boolean _) r h = cc
record_like (number _) r h = cc
record_like (text _) r h = cc
record_like (array _) r h = cc

members_of : {r q : Members} → object r ≡ object q → q ≡ r
members_of h = cc

module _ (rt : Runtime) (community : String) where
  declare_record-Knows :
      (P : String → String → Type 0) (feeds next : DeclaredFeeds) (r : Members)
      → ((d : MemberFeedDeclaration)
          → declares_feed community r ≡ true
          → read_declaration_record rt r ≡ ok d
          → P d.member_id (to_lower_case d.feed_public_key))
      → Knows P feeds
      → declare_record rt community feeds r ≡ ok next
      → Knows P next
  unfolding declare_record
  declare_record-Knows P feeds next r this known h = elim (Bool-cases (declares_feed community r)) [
    | inr other ↦ subst (Knows P) (eq_of_ok feeds next (rw other at h)) known
    | inl declaring ↦
        let (d, read, h₁) = >>=-eq-ok (read_declaration_record rt r) _ (rw declaring at h) in
        declare_feed-Knows P feeds next d known (this d declaring read) h₁
  ]

  declare_record-Keeps :
      (feeds next : DeclaredFeeds) (r : Members)
      → declare_record rt community feeds r ≡ ok next
      → Keeps feeds next
  unfolding declare_record
  declare_record-Keeps feeds next r h = elim (Bool-cases (declares_feed community r)) [
    | inr other ↦ subst (Keeps feeds) (eq_of_ok feeds next (rw other at h)) (λ key member e. e)
    | inl declaring ↦
        let (d, read, h₁) = >>=-eq-ok (read_declaration_record rt r) _ (rw declaring at h) in
        (declare_feed-owners feeds next d h₁).0
  ]

  declare_record-owner :
      (feeds next : DeclaredFeeds) (r : Members) (d : MemberFeedDeclaration)
      → declares_feed community r ≡ true
      → read_declaration_record rt r ≡ ok d
      → declare_record rt community feeds r ≡ ok next
      → get next.members_by_feed_key (to_lower_case d.feed_public_key) ≡ some d.member_id
  unfolding declare_record
  declare_record-owner feeds next r d declaring read h =
      (declare_feed-owners feeds next d (rw (declaring, read) at h)).1

  pub declare_records-Knows :
      (P : String → String → Type 0) (feeds next : DeclaredFeeds) (records : List Json)
      → ((r : Members) (d : MemberFeedDeclaration)
          → Occurs (object r) records
          → declares_feed community r ≡ true
          → read_declaration_record rt r ≡ ok d
          → P d.member_id (to_lower_case d.feed_public_key))
      → Knows P feeds
      → declare_records rt community feeds records ≡ ok next
      → Knows P next
  unfolding declare_records
  declare_records-Knows P feeds next [] this known h = subst (Knows P) (eq_of_ok feeds next h) known
  declare_records-Knows P feeds next (j ∷ records) this known h =
      let (r, like, h₁) = >>=-eq-ok (assert_record_like j) _ h in
      let (middle, first, h₂) = >>=-eq-ok (declare_record rt community feeds r) _ h₁ in
      declare_records-Knows P middle next records (λ q d o. this q d (there o))
        (declare_record-Knows P feeds middle r (λ d. this r d (here (record_like j r like))) known
          first)
        h₂

  pub declare_records-Keeps :
      (feeds next : DeclaredFeeds) (records : List Json)
      → declare_records rt community feeds records ≡ ok next
      → Keeps feeds next
  unfolding declare_records
  declare_records-Keeps feeds next [] h key member owned =
      subst (Keeps feeds) (eq_of_ok feeds next h) (λ _ _ e. e) key member owned
  declare_records-Keeps feeds next (j ∷ records) h key member owned =
      let (r, _, h₁) = >>=-eq-ok (assert_record_like j) _ h in
      let (middle, first, h₂) = >>=-eq-ok (declare_record rt community feeds r) _ h₁ in
      declare_records-Keeps middle next records h₂ key member
        (declare_record-Keeps feeds middle r first key member owned)

  pub declare_records-owner :
      (feeds next : DeclaredFeeds) (records : List Json) (r : Members) (d : MemberFeedDeclaration)
      → declare_records rt community feeds records ≡ ok next
      → Occurs (object r) records
      → declares_feed community r ≡ true
      → read_declaration_record rt r ≡ ok d
      → get next.members_by_feed_key (to_lower_case d.feed_public_key) ≡ some d.member_id
  unfolding declare_records
  declare_records-owner feeds next (j ∷ records) r d h (here e) declaring read =
      let (q, like, h₁) = >>=-eq-ok (assert_record_like j) _ h in
      let same : q ≡ r = members_of (e ∙ sym (record_like j q like)) in
      let (middle, first, h₂) = >>=-eq-ok (declare_record rt community feeds q) _ h₁ in
      declare_records-Keeps middle next records h₂ (to_lower_case d.feed_public_key) d.member_id
        (declare_record-owner feeds middle q d (rw same declaring) (rw same read) first)
  declare_records-owner feeds next (j ∷ records) r d h (there o) declaring read =
      let (q, _, h₁) = >>=-eq-ok (assert_record_like j) _ h in
      let (middle, _, h₂) = >>=-eq-ok (declare_record rt community feeds q) _ h₁ in
      declare_records-owner middle next records r d h₂ o declaring read
  declare_records-owner feeds next [] r d h o declaring read = elim o [ ]
