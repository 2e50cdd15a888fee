-- ===== src/Peers/Bootstrap/Answered.antt =====
-- What a fetch finds and what it changes, in packages/peer-runtime/src/index.ts.
use peer_hours.Prelude.{
  ◌+◌, ◌↔◌, Occurs-nil, Occurs-contains, append-Occurs, Occurs-append_left, Occurs-append_right,
  contains, Bool-cases, map, String, Option, none, some, List, [], ◌∷◌, ◌++◌, ◌≡◌, text_equality,
  inl, inr, Error, Result, err, arith, Occurs, here, there, ◌⊎◌,
}
use peer_hours.Records.Json.{Json}
use peer_hours.Peers.Receipts.{Platform}
use peer_hours.Peers.Manifest.{CommunityManifest}
use peer_hours.Peers.State.{PeerRuntime, fetching, fetched, failed}
use peer_hours.Peers.Bootstrap.{
  bootstrap_endpoints_in_retry_order, others, remember_bootstrap_endpoints, adopt, give_up, attempt,
  fetch_bootstrap_key,
}
use peer_hours.Peers.Bootstrap.Attempts.{
  Answers, attempt-Answers, Answers-attempt, fetch_bootstrap_key-Outcome, tried,
}
use peer_hours.Peers.Bootstrap.Order.{bootstrap_endpoints_in_retry_order-Occurs}

-- The endpoints of a runtime and those that a manifest adds.
remember_bootstrap_endpoints_iff :
    (urls endpoints : List String) (u : String)
    → Occurs u (remember_bootstrap_endpoints urls endpoints) ↔ (Occurs u urls ⊎ Occurs u endpoints)
unfolding remember_bootstrap_endpoints
remember_bootstrap_endpoints_iff urls [] u =
    (λ o. inl o, λ w. elim w [ inl o ↦ o | inr o ↦ absurd (Occurs-nil o) ])
remember_bootstrap_endpoints_iff urls (e ∷ endpoints) u = elim (Bool-cases (contains urls e)) [
  | inl known ↦
      let (to, from) = remember_bootstrap_endpoints_iff urls endpoints u in
      rw known (
        λ o. elim (to o) [ inl old ↦ inl old | inr new ↦ inr (there new) ],
        λ w. elim w [
          | inl old ↦ from (inl old)
          | inr (here same) ↦ from (inl (rw same (Occurs-contains urls e known)))
          | inr (there new) ↦ from (inr new)
        ],
      )
  | inr fresh ↦
      let (to, from) = remember_bootstrap_endpoints_iff (urls ++ (e ∷ [])) endpoints u in
      rw fresh (
        λ o. elim (to o) [
          | inr new ↦ inr (there new)
          | inl first ↦ elim (append-Occurs urls (e ∷ []) first) [
            | inl old ↦ inl old
            | inr (here same) ↦ inr (here same)
            | inr (there o) ↦ absurd (Occurs-nil o)
          ]
        ],
        λ w. elim w [
          | inl old ↦ from (inl (Occurs-append_left (e ∷ []) old))
          | inr (here same) ↦ from (inl (Occurs-append_right urls (here same)))
          | inr (there new) ↦ from (inr new)
        ],
      )
]

head_or_before :
    (a : String) (rest before after : List String) (endpoint : String)
    → a ∷ rest ≡ before ++ (endpoint ∷ after)
    → (endpoint ≡ a) ⊎ Occurs a before
head_or_before a rest [] after endpoint h = inl (ground arith)
head_or_before a rest (b ∷ before) after endpoint h = inr (here (ground arith))

-- The active endpoint is the first that is tried.
active_or_before :
    (s : PeerRuntime) (a endpoint : String) (before after : List String)
    → s.active_bootstrap_url ≡ some a
    → bootstrap_endpoints_in_retry_order s ≡ before ++ (endpoint ∷ after)
    → (endpoint ≡ a) ⊎ Occurs a before
unfolding bootstrap_endpoints_in_retry_order
active_or_before s a endpoint before after e order =
    head_or_before a (others a s.bootstrap_urls) before after endpoint (rw e at order)

module _ (pf : Platform) (respond : String → Result Json) (now : String) where
  -- No manifest comes from the endpoint for the scope that is in use.
  abbrev pub IsSilent : PeerRuntime → String → Type 0
  IsSilent s endpoint = (m : CommunityManifest) → ¬ (Answers pf respond s endpoint m)

  -- A fetch that took a manifest.
  pub record Taken (s : PeerRuntime) (result : PeerRuntime × Option String) : Type 0 where
    pub before : List String
    pub endpoint : String
    pub after : List String
    pub order : bootstrap_endpoints_in_retry_order s ≡ before ++ (endpoint ∷ after)
    pub silent : (e : String) → Occurs e before → IsSilent s e
    pub active : (a : String) → s.active_bootstrap_url ≡ some a → (endpoint ≡ a) ⊎ IsSilent s a
    pub manifest : CommunityManifest
    pub answers : Answers pf respond s endpoint manifest
    pub urls : List String
    pub known :
        (u : String)
        → Occurs u urls ↔ (Occurs u s.bootstrap_urls ⊎ Occurs u manifest.bootstrap_nodes)
    pub outcome : result ≡ (
      record s {
        community = some manifest;
        active_bootstrap_url = some endpoint;
        bootstrap_urls = urls;
        bootstrap_state = fetched;
        bootstrap_last_fetched_at = some now;
        bootstrap_consecutive_failures = 0;
        bootstrap_last_error = none;
      },
      some manifest.core_key,
    )

  -- A fetch that failed.
  pub record Failed (s : PeerRuntime) (result : PeerRuntime × Option String) : Type 0 where
    pub silent : (e : String) → Occurs e s.bootstrap_urls → IsSilent s e
    pub causes : List (String × Error)
    pub named : map tried causes ≡ bootstrap_endpoints_in_retry_order s
    pub outcome : result ≡ (
      record s {
        bootstrap_state = failed;
        bootstrap_consecutive_failures = s.bootstrap_consecutive_failures + 1;
        bootstrap_last_error = some causes;
      },
      none,
    )

  failed-IsSilent :
      (s : PeerRuntime) (e : String) (x : Error) → attempt pf respond s e ≡ err x → IsSilent s e
  failed-IsSilent s e x h m a = let done = Answers-attempt pf respond s e m a in ground arith

  -- A fetch of a runtime with endpoints takes the manifest of the first one, in the order of
  -- retries (the active one, where there is one, comes first), whose answer parses as a manifest
  -- for the scope in use: this manifest becomes the community, its endpoint the active one, its
  -- bootstrap nodes join the known endpoints, the record of failures is cleared, and its core key
  -- is returned. If no known endpoint answers so, no key is returned, one more failure is counted,
  -- and the last error names each endpoint in the order of retries. The rest of the runtime stays
  -- as it was.
  pub fetch_bootstrap_key-decides :
      (s : PeerRuntime) (url : String) (urls : List String)
      → s.bootstrap_urls ≡ url ∷ urls
      → Taken s (fetch_bootstrap_key pf respond now s)
        ⊎ Failed s (fetch_bootstrap_key pf respond now s)
  unfolding adopt give_up
  fetch_bootstrap_key-decides s url urls e =
      elim (fetch_bootstrap_key-Outcome pf respond now s url urls e) [
        | inl (f, r) ↦ inl (record {
          before = f.before;
          endpoint = f.endpoint;
          after = f.after;
          order = f.order;
          silent = λ d o.
              let (x, h) = f.unanswered d o in
              failed-IsSilent (record s { bootstrap_state = fetching }) d x h;
          active = λ a known.
              elim (active_or_before s a f.endpoint f.before f.after known f.order) [
                | inl same ↦ inl same
                | inr o ↦
                    let (x, h) = f.unanswered a o in
                    inr (failed-IsSilent (record s { bootstrap_state = fetching }) a x h)
              ];
          manifest = f.manifest;
          answers =
              attempt-Answers pf respond (record s { bootstrap_state = fetching }) f.endpoint
                f.manifest f.answered;
          urls = remember_bootstrap_endpoints s.bootstrap_urls f.manifest.bootstrap_nodes;
          known = remember_bootstrap_endpoints_iff s.bootstrap_urls f.manifest.bootstrap_nodes;
          outcome = r;
        })
        | inr (all, (causes, r, named)) ↦ inr (record {
          silent = λ d o.
              let (x, h) = all d (bootstrap_endpoints_in_retry_order-Occurs s d o) in
              failed-IsSilent (record s { bootstrap_state = fetching }) d x h;
          causes = causes;
          named = named;
          outcome = r;
        })
      ]
