-- ===== src/Records/Feeds/Provenance.antt =====
-- What packages/timebank-records/src/feed-resolution.ts has checked once a set of histories
-- resolves.
use peer_hours.Prelude.{
  true, String, some, List, [], ◌∷◌, ◌≡◌, refl, Occurs, here, there, text_equality, eq_of_ok, ok,
  >>=-eq-ok,
}
use mathlib.Core.Path.{subst}
use peer_hours.Script.Map.{get}
use peer_hours.Script.Hex.{to_lower_case}
use peer_hours.Identity.Owned.{MemberFeedDeclaration}
use peer_hours.Records.Json.{text, object, Members, field}
use peer_hours.Records.Resolve.{Runtime}
use peer_hours.Records.Feeds.{
  MemberFeedHistory, FeedResolvedTimebankState, DeclaredFeeds, no_feeds, assert_feed_public_key,
  declares_feed, is_bound, collect_histories, read_declaration_record, declare_records,
  declared_feed_keys_by_member, resolve_timebank_member_feeds,
}
use peer_hours.Records.Feeds.Declared.{
  Knows, Keeps, declare_records-Knows, declare_records-Keeps, declare_records-owner,
}
use peer_hours.Records.Feeds.Collected.{
  author_declared, collect_records-bound, collect_histories-records,
}

module _ (rt : Runtime) (community : String) where
  -- One of the histories holds a record by which the member declares the feed key.
  pub record Declares (histories : List MemberFeedHistory) (member key : String) : Type 0 where
    pub history : MemberFeedHistory
    pub held : Occurs history histories
    pub declaring : Members
    pub written : Occurs (object declaring) history.records
    pub declares : declares_feed community declaring ≡ true
    pub declaration : MemberFeedDeclaration
    pub read : read_declaration_record rt declaring ≡ ok declaration
    pub member_named : declaration.member_id ≡ member
    pub key_named : to_lower_case declaration.feed_public_key ≡ key

  histories-Knows :
      (P : String → String → Type 0) (feeds next : DeclaredFeeds)
      (histories : List MemberFeedHistory)
      → ((g : MemberFeedHistory) (r : Members) (d : MemberFeedDeclaration)
          → Occurs g histories
          → Occurs (object r) g.records
          → declares_feed community r ≡ true
          → read_declaration_record rt r ≡ ok d
          → P d.member_id (to_lower_case d.feed_public_key))
      → Knows P feeds
      → declared_feed_keys_by_member rt community feeds histories ≡ ok next
      → Knows P next
  unfolding declared_feed_keys_by_member
  histories-Knows P feeds next [] this known h = subst (Knows P) (eq_of_ok feeds next h) known
  histories-Knows P feeds next (g ∷ histories) this known h =
      let (_, _, h₁) = >>=-eq-ok (assert_feed_public_key g.feed_public_key) _ h in
      let (middle, first, h₂) = >>=-eq-ok (declare_records rt community feeds g.records) _ h₁ in
      histories-Knows P middle next histories (λ q r d o. this q r d (there o))
        (declare_records-Knows rt community P feeds middle g.records (λ r d. this g r d (here refl))
          known first)
        h₂

  histories-Keeps :
      (feeds next : DeclaredFeeds) (histories : List MemberFeedHistory)
      → declared_feed_keys_by_member rt community feeds histories ≡ ok next
      → Keeps feeds next
  unfolding declared_feed_keys_by_member
  histories-Keeps feeds next [] h key member owned =
      subst (Keeps feeds) (eq_of_ok feeds next h) (λ _ _ e. e) key member owned
  histories-Keeps feeds next (g ∷ histories) h key member owned =
      let (_, _, h₁) = >>=-eq-ok (assert_feed_public_key g.feed_public_key) _ h in
      let (middle, first, h₂) = >>=-eq-ok (declare_records rt community feeds g.records) _ h₁ in
      histories-Keeps middle next histories h₂ key member
        (declare_records-Keeps rt community feeds middle g.records first key member owned)

  histories-owner :
      (feeds next : DeclaredFeeds) (histories : List MemberFeedHistory) (g : MemberFeedHistory)
      (r : Members) (d : MemberFeedDeclaration)
      → declared_feed_keys_by_member rt community feeds histories ≡ ok next
      → Occurs g histories
      → Occurs (object r) g.records
      → declares_feed community r ≡ true
      → read_declaration_record rt r ≡ ok d
      → get next.members_by_feed_key (to_lower_case d.feed_public_key) ≡ some d.member_id
  unfolding declared_feed_keys_by_member
  histories-owner feeds next [] g r d h o written declaring read = elim o [ ]
  histories-owner feeds next (f ∷ histories) g r d h (here e) written declaring read =
      let (_, _, h₁) = >>=-eq-ok (assert_feed_public_key f.feed_public_key) _ h in
      let (middle, first, h₂) = >>=-eq-ok (declare_records rt community feeds f.records) _ h₁ in
      histories-Keeps middle next histories h₂ (to_lower_case d.feed_public_key) d.member_id (
        declare_records-owner rt community feeds middle f.records r d first (rw e at written)
          declaring read)
  histories-owner feeds next (f ∷ histories) g r d h (there o) written declaring read =
      let (_, _, h₁) = >>=-eq-ok (assert_feed_public_key f.feed_public_key) _ h in
      let (middle, first, h₂) = >>=-eq-ok (declare_records rt community feeds f.records) _ h₁ in
      histories-owner middle next histories g r d h₂ o written declaring read

  no_feeds-Knows : (P : String → String → Type 0) → Knows P no_feeds
  unfolding get
  no_feeds-Knows P member key found = cc

  owner :
      (feeds : DeclaredFeeds) (histories : List MemberFeedHistory) (member key : String)
      → declared_feed_keys_by_member rt community no_feeds histories ≡ ok feeds
      → Declares histories member key
      → get feeds.members_by_feed_key key ≡ some member
  owner feeds histories member key declared d =
      let found =
        histories-owner no_feeds feeds histories d.history d.declaring d.declaration declared d.held
          d.written d.declares d.read in
      rw (d.member_named, d.key_named) at found

  -- If the histories resolve, every record in them that names the community and is of a kind that
  -- the feeds are checked for names its author, and one of the histories has a record by which that
  -- author declares the feed that the record came from, as a record that reads as a declaration
  -- with the author as its member and the feed's key, up to the case of its letters.
  pub resolve_timebank_member_feeds-Declares :
      (histories : List MemberFeedHistory) (s : FeedResolvedTimebankState) (g : MemberFeedHistory)
      (r : Members)
      → resolve_timebank_member_feeds rt community histories ≡ ok s
      → Occurs g histories
      → Occurs (object r) g.records
      → is_bound community r ≡ true
      → (author : String) × (field r "authorId" ≡ some (text author))
        × Declares histories author (to_lower_case g.feed_public_key)
  unfolding resolve_timebank_member_feeds
  resolve_timebank_member_feeds-Declares histories s g r h o written bound =
      let (feeds, declared, h₁) =
        >>=-eq-ok (declared_feed_keys_by_member rt community no_feeds histories) _ h in
      let (all, collected, _) = >>=-eq-ok (collect_histories feeds community histories) _ h₁ in
      let (records, this) = collect_histories-records feeds community histories all g collected o in
      let (author, named, known) =
        author_declared feeds (to_lower_case g.feed_public_key) (field r "authorId") (
          collect_records-bound feeds community (to_lower_case g.feed_public_key) g.records records
            r this written bound) in
      (
        author,
        named,
        histories-Knows (Declares histories) no_feeds feeds histories
            (λ f q d p w declares read. record {
              history = f;
              held = p;
              declaring = q;
              written = w;
              declares = declares;
              declaration = d;
              read = read;
              member_named = refl;
              key_named = refl;
            })
            (no_feeds-Knows (Declares histories)) declared author (to_lower_case g.feed_public_key)
            known,
      )

  -- If the histories resolve, no feed key has two owners: whatever records of them declare the same
  -- key, up to the case of its letters, declare it for the same member.
  pub resolve_timebank_member_feeds-one_owner :
      (histories : List MemberFeedHistory) (s : FeedResolvedTimebankState) (a b key : String)
      → resolve_timebank_member_feeds rt community histories ≡ ok s
      → Declares histories a key
      → Declares histories b key
      → a ≡ b
  unfolding resolve_timebank_member_feeds
  resolve_timebank_member_feeds-one_owner histories s a b key h p q =
      let (feeds, declared, _) =
        >>=-eq-ok (declared_feed_keys_by_member rt community no_feeds histories) _ h in
      let left = owner feeds histories a key declared p in
      let right = owner feeds histories b key declared q in cc
