-- ===== src/Records/Feeds/Collected.antt =====
-- What the second loop of packages/timebank-records/src/feed-resolution.ts has checked.
use peer_hours.Prelude.{
  true, false, ◌&&◌, String, Option, none, some, List, [], ◌∷◌, ◌≡◌, refl, Occurs, here, there,
  contains, text_equality, ok, throw_if-ok, >>=-eq-ok, arith,
}
use peer_hours.Script.Hex.{to_lower_case}
use peer_hours.Records.Json.{Json, null, boolean, number, array, text, object, Members}
use peer_hours.Records.Resolve.{listed}
use peer_hours.Records.Feeds.{
  MemberFeedHistory, DeclaredFeeds, assert_feed_public_key, assert_record_like, undeclared_author,
  arrives_undeclared, is_bound, collect_records, collect_histories,
}

collect_records-head :
    (feeds : DeclaredFeeds) (community source : String) (records : List Json) (out : List Members)
    (r : Members)
    → collect_records feeds community source (object r ∷ records) ≡ ok out
    → is_bound community r ≡ true
    → arrives_undeclared feeds source r ≡ false
unfolding collect_records assert_record_like
collect_records-head feeds community source records out r h bound =
    let (fine, _) = throw_if-ok (is_bound community r && arrives_undeclared feeds source r) _ _ h in
    rw bound at fine

pub collect_records-bound :
    (feeds : DeclaredFeeds) (community source : String) (records : List Json) (out : List Members)
    (r : Members)
    → collect_records feeds community source records ≡ ok out
    → Occurs (object r) records
    → is_bound community r ≡ true
    → arrives_undeclared feeds source r ≡ false
unfolding collect_records
collect_records-bound feeds community source (j ∷ records) out r h (here e) bound =
    collect_records-head feeds community source records out r (rw (← e) at h) bound
collect_records-bound feeds community source (j ∷ records) out r h (there o) bound =
    let (q, _, h₁) = >>=-eq-ok (assert_record_like j) _ h in
    let (_, h₂) = throw_if-ok _ _ _ h₁ in
    let (rest, h₃, _) = >>=-eq-ok (collect_records feeds community source records) _ h₂ in
    collect_records-bound feeds community source records rest r h₃ o bound
collect_records-bound feeds community source [] out r h o bound = elim o [ ]

pub author_declared :
    (feeds : DeclaredFeeds) (source : String) (o : Option Json)
    → undeclared_author feeds source o ≡ false
    → (author : String) × (o ≡ some (text author))
      × (contains (listed feeds.keys_by_member author) source ≡ true)
author_declared feeds source (some (text author)) h = (author, refl, ground arith)
author_declared feeds source none h = cc
author_declared feeds source (some null) h = cc
author_declared feeds source (some (boolean _)) h = cc
author_declared feeds source (some (number _)) h = cc
author_declared feeds source (some (array _)) h = cc
author_declared feeds source (some (object _)) h = cc

pub collect_histories-records :
    (feeds : DeclaredFeeds) (community : String) (histories : List MemberFeedHistory)
    (out : List Members) (h : MemberFeedHistory)
    → collect_histories feeds community histories ≡ ok out
    → Occurs h histories
    → (records : List Members) × (collect_records feeds community
          (to_lower_case h.feed_public_key)
          h.records
        ≡ ok records)
unfolding collect_histories
collect_histories-records feeds community (g ∷ histories) out h run (here e) =
    let (_, _, h₁) = >>=-eq-ok (assert_feed_public_key h.feed_public_key) _ (rw (← e) at run) in
    let (records, this, _) =
      >>=-eq-ok (collect_records feeds community (to_lower_case h.feed_public_key) h.records) _
        h₁ in
    (records, this)
collect_histories-records feeds community (g ∷ histories) out h run (there o) =
    let (_, _, h₁) = >>=-eq-ok (assert_feed_public_key g.feed_public_key) _ run in
    let (_, _, h₂) =
      >>=-eq-ok (collect_records feeds community (to_lower_case g.feed_public_key) g.records) _
        h₁ in
    let (rest, h₃, _) = >>=-eq-ok (collect_histories feeds community histories) _ h₂ in
    collect_histories-records feeds community histories rest h h₃ o
collect_histories-records feeds community [] out h run o = elim o [ ]
