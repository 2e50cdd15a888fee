-- ===== src/Peers/Bootstrap/Selected.antt =====
-- What fetching keeps, in packages/peer-runtime/src/index.ts.
use peer_hours.Prelude.{
  String, Option, some, ◌≡◌, refl, sym, text_equality, inl, inr, Result, ◌∙◌, ap,
}
use peer_hours.Records.Json.{Json}
use peer_hours.Peers.Receipts.{Platform}
use peer_hours.Peers.Manifest.{CommunityManifest}
use peer_hours.Peers.State.{PeerRuntime, fetching}
use peer_hours.Peers.Bootstrap.{adopt, give_up, fetch_from, fetch_bootstrap_key}
use peer_hours.Peers.Bootstrap.Attempts.{List-cases, attempt-Answers, fetch_bootstrap_key-Outcome}

module _ (pf : Platform) (respond : String → Result Json) (now : String) where
  -- A community that is selected keeps its id and its core key through a fetch, whatever the
  -- endpoints answer.
  fetch_bootstrap_key-scope :
      (s : PeerRuntime) (c : CommunityManifest)
      → s.community ≡ some c
      → (m : CommunityManifest) × ((fetch_bootstrap_key pf respond now s).0.community ≡ some m)
        × (m.community_id ≡ c.community_id)
        × (m.core_key ≡ c.core_key)
  unfolding fetch_bootstrap_key adopt give_up fetch_from
  fetch_bootstrap_key-scope s c selected = elim (List-cases s.bootstrap_urls) [
    | inl e ↦ (c, rw (e, fetch_from) selected, refl, refl)
    | inr (url, urls, e) ↦ elim (fetch_bootstrap_key-Outcome pf respond now s url urls e) [
      | inl (f, r) ↦
          let (_, _, _, (_, same)) =
            attempt-Answers pf respond (record s { bootstrap_state = fetching }) f.endpoint
              f.manifest f.answered in
          let (id, key) = same c selected in
          (f.manifest, ap (λ (q : PeerRuntime × Option String). q.0.community) r, id, key)
      | inr (_, (causes, r, _)) ↦
          (c, ap (λ (q : PeerRuntime × Option String). q.0.community) r ∙ selected, refl, refl)
    ]
  ]

module _ (pf : Platform) where
  -- A runtime after some fetches, each with its own answers and time.
  pub data Fetches (s : PeerRuntime) : PeerRuntime → Type 0 where
    unfetched : Fetches s s
    again :
        {t : PeerRuntime} (u : PeerRuntime) (respond : String → Result Json) (now : String)
        → Fetches s t
        → (fetch_bootstrap_key pf respond now t).0 ≡ u
        → Fetches s u

  -- A community that is selected keeps its id and its core key through any sequence of fetches,
  -- whatever the endpoints answer at each time.
  pub Fetches-scope :
      {s t : PeerRuntime} (c : CommunityManifest)
      → s.community ≡ some c
      → Fetches s t
      → (m : CommunityManifest) × (t.community ≡ some m)
        × (m.community_id ≡ c.community_id)
        × (m.core_key ≡ c.core_key)
  Fetches-scope c selected unfetched = (c, selected, refl, refl)
  Fetches-scope c selected (again {t} u respond now f e) =
      let (m, known, id, key) = Fetches-scope c selected f in
      let (n, next, id', key') = fetch_bootstrap_key-scope pf respond now t m known in
      (n, ap (λ (q : PeerRuntime). q.community) (sym e) ∙ next, id' ∙ id, key' ∙ key)
