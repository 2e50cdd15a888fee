-- ===== src/Peers/Announcements/Cached.antt =====
-- A runtime's cache of announcements through a run: packages/peer-runtime/src/index.ts.
use peer_hours.Prelude.{
  ◌≤◌, leb, Bool, true, false, ◌&&◌, ◌||◌, List, length, All, ◌≡◌, sym, ap, refl, ◌⊎◌, inl, inr,
  Bool-cases, Option-cases, text_equality, ℤ, Result, ok, err, throw_if-ok, >>=-eq-ok, eq_of_ok,
  arith, String,
}
use mathlib.Core.Path.{subst}
use peer_hours.Script.Map.{Map, get, set}
use peer_hours.Script.Map.Laws.{IsKeyed, HasUniqueKeys, set-IsKeyed, set-HasUniqueKeys}
use peer_hours.Script.Collation.{Collation}
use peer_hours.Identity.Owned.{MemberFeedAnnouncement, AnnouncementTerms}
use peer_hours.Records.Resolve.{Runtime}
use peer_hours.Peers.State.{PeerRuntime}
use peer_hours.Peers.Announcements.{
  announcement_key, is_same, is_new, remember_member_feed_announcement,
  is_expired_member_feed_announcement, prune, prune_expired_member_feed_announcements,
  broadcast_member_feed_announcements, known_member_feeds, checked_announcement, assert_own_feed,
  publish_member_feed_announcement, receive_checked, receive_member_feed_announcement,
}
use peer_hours.Peers.Announcements.Pruned.{
  length-set_new, length-set_old, set-All, length-prune, prune-All, prune-HasUniqueKeys,
}

-- A cache with one more announcement, or the same number of them, has room for it.
set-few :
    (m : Map MemberFeedAnnouncement) (k : String) (a : MemberFeedAnnouncement)
    → length m ≤ 1024
    → is_new (get m k) && leb 1024 (length m) ≡ false
    → length (set m k a) ≤ 1024
set-few m k a h room = elim (Option-cases (get m k)) [
  | inl e ↦
      let r : leb 1024 (length m) ≡ false = rw (e, is_new) at room in
      ground (arith, length-set_new m k a)
  | inr (b, e) ↦ omega (arith, length-set_old m k a b e)
]

remember-cases :
    (s : PeerRuntime) (a : MemberFeedAnnouncement)
    → (remember_member_feed_announcement s a ≡ (s, false))
      ⊎ ((remember_member_feed_announcement s a ≡ (
        record s {
          discovered_member_feed_announcements =
              set s.discovered_member_feed_announcements (announcement_key a) a;
        },
        true,
      ))
          × (is_new (get s.discovered_member_feed_announcements (announcement_key a))
                && leb 1024 (length s.discovered_member_feed_announcements)
              ≡ false))
unfolding remember_member_feed_announcement
remember-cases s a =
    elim (Bool-cases (
      is_same (get s.discovered_member_feed_announcements (announcement_key a)) a
      || is_new (get s.discovered_member_feed_announcements (announcement_key a))
        && leb 1024 (length s.discovered_member_feed_announcements))) [
          | inl skipped ↦ inl (rw skipped refl)
          | inr kept ↦ inr (rw kept refl, ground arith)
        ]

module _ (parse_date : String → ℤ) (rt : Runtime)
    (verify_announcement : AnnouncementTerms → String → String → Result Bool) where
  -- What the check of an announcement returned.
  abbrev pub IsGenuine : MemberFeedAnnouncement → Type 0
  IsGenuine a =
      (input : MemberFeedAnnouncement) × (checked_announcement parse_date rt verify_announcement
          input
        ≡ ok a)

  pub record IsCache (m : Map MemberFeedAnnouncement) : Type 0 where
    pub few : length m ≤ 1024
    pub keyed : IsKeyed announcement_key m
    pub unique : HasUniqueKeys m
    pub genuine : All (λ e. IsGenuine e.1) m

  prune-IsCache :
      (now : ℤ) (m : Map MemberFeedAnnouncement) → IsCache m → IsCache (prune parse_date now m)
  prune-IsCache now m h = record {
    few = omega (arith, length-prune parse_date now m, h.few);
    keyed = prune-All parse_date now (λ e. e.0 ≡ announcement_key e.1) m h.keyed;
    unique = prune-HasUniqueKeys parse_date now m h.unique;
    genuine = prune-All parse_date now (λ e. IsGenuine e.1) m h.genuine;
  }

  set-IsCache :
      (m : Map MemberFeedAnnouncement) (a : MemberFeedAnnouncement)
      → IsCache m
      → IsGenuine a
      → is_new (get m (announcement_key a)) && leb 1024 (length m) ≡ false
      → IsCache (set m (announcement_key a) a)
  set-IsCache m a h g room = record {
    few = set-few m (announcement_key a) a h.few room;
    keyed = set-IsKeyed announcement_key m a h.keyed;
    unique = set-HasUniqueKeys m (announcement_key a) a h.unique;
    genuine = set-All IsGenuine m (announcement_key a) a h.genuine g;
  }

  -- A runtime whose cache is one.
  abbrev pub HasCache : PeerRuntime → Type 0
  HasCache s = IsCache s.discovered_member_feed_announcements

  HasCache-of : {s t : PeerRuntime} → s ≡ t → HasCache s → HasCache t
  HasCache-of e = subst (λ (q : PeerRuntime). HasCache q) e

  remember-HasCache :
      (s : PeerRuntime) (a : MemberFeedAnnouncement)
      → HasCache s
      → IsGenuine a
      → HasCache (remember_member_feed_announcement s a).0
  remember-HasCache s a h g = elim (remember-cases s a) [
    | inl e ↦ HasCache-of (ap (λ q. q.0) (sym e)) h
    | inr (e, room) ↦ HasCache-of (ap (λ q. q.0) (sym e)) (set-IsCache _ a h g room)
  ]

  publish-HasCache :
      (now : ℤ) (s u : PeerRuntime) (a : MemberFeedAnnouncement)
      (sent : List MemberFeedAnnouncement)
      → HasCache s
      → publish_member_feed_announcement parse_date now rt verify_announcement s a ≡ ok (u, sent)
      → HasCache u
  unfolding publish_member_feed_announcement broadcast_member_feed_announcements
      prune_expired_member_feed_announcements
  publish-HasCache now s u a sent h e =
      let (b, checked, e₁) =
        >>=-eq-ok (checked_announcement parse_date rt verify_announcement a) _ e in
      let (_, _, e₂) =
        >>=-eq-ok (assert_own_feed s.member_record_feed b.declaration.feed_public_key) _ e₁ in
      let (_, e₃) = throw_if-ok (is_expired_member_feed_announcement parse_date now b) _ _ e₂ in
      let same = eq_of_ok _ _ e₃ in
      HasCache-of (ap (λ q. q.0) same) (prune-IsCache now _ (remember-HasCache s b h (a, checked)))

  receive_checked-HasCache :
      (now : ℤ) (s : PeerRuntime) (r : Result MemberFeedAnnouncement)
      → HasCache s
      → ((b : MemberFeedAnnouncement) → r ≡ ok b → IsGenuine b)
      → HasCache (receive_checked parse_date now rt verify_announcement s r).0
  unfolding receive_checked
  receive_checked-HasCache now s (err x) h g = h
  receive_checked-HasCache now s (ok b) h g =
      elim (Bool-cases (is_expired_member_feed_announcement parse_date now b)) [
        | inl old ↦ rw old h
        | inr current ↦ rw current (remember-HasCache s b h (g b refl))
      ]

  -- The states of a runtime whose announcements are published, received, relayed and listed, in any
  -- order and at any times. Another message than an announcement fails its check, so it changes
  -- nothing.
  pub data Announces (s : PeerRuntime) : PeerRuntime → Type 0 where
    started : Announces s s
    published :
        {t : PeerRuntime} (u : PeerRuntime) (now : ℤ) (a : MemberFeedAnnouncement)
        (sent : List MemberFeedAnnouncement)
        → Announces s t
        → publish_member_feed_announcement parse_date now rt verify_announcement t a ≡ ok (u, sent)
        → Announces s u
    received :
        {t : PeerRuntime} (u : PeerRuntime) (now : ℤ) (a : MemberFeedAnnouncement)
        → Announces s t
        → (receive_member_feed_announcement parse_date now rt verify_announcement t a).0 ≡ u
        → Announces s u
    relayed :
        {t : PeerRuntime} (u : PeerRuntime) (now : ℤ)
        → Announces s t
        → (broadcast_member_feed_announcements parse_date now t).0 ≡ u
        → Announces s u
    listed :
        {t : PeerRuntime} (u : PeerRuntime) (now : ℤ) (c : Collation)
        → Announces s t
        → (known_member_feeds parse_date now c t).0 ≡ u
        → Announces s u

  -- A cache of at most 1024 announcements that each passed their check, each under its own key and
  -- no key twice, stays one through any sequence of announcements that are published, received,
  -- relayed and listed.
  pub Announces-HasCache : {s t : PeerRuntime} → HasCache s → Announces s t → HasCache t
  unfolding broadcast_member_feed_announcements known_member_feeds
      prune_expired_member_feed_announcements receive_member_feed_announcement
  Announces-HasCache h started = h
  Announces-HasCache h (published {t} u now a sent r e) =
      publish-HasCache now t u a sent (Announces-HasCache h r) e
  Announces-HasCache h (received {t} u now a r e) =
      HasCache-of e
        (receive_checked-HasCache now t _ (Announces-HasCache h r) (λ b checked. (a, checked)))
  Announces-HasCache h (relayed {t} u now r e) =
      HasCache-of e (prune-IsCache now _ (Announces-HasCache h r))
  Announces-HasCache h (listed {t} u now c r e) =
      HasCache-of e (prune-IsCache now _ (Announces-HasCache h r))
