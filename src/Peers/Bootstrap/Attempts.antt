-- ===== src/Peers/Bootstrap/Attempts.antt =====
-- How a fetch goes through the endpoints, in packages/peer-runtime/src/index.ts.
use peer_hours.Prelude.{
  Option-cases, ==_refl, map, false, String, Option, none, some, List, [], ◌∷◌, ◌++◌, ◌≡◌, refl,
  sym, text_equality, eq_of_==, Result-cases, inl, inr, Error, Result, ok, err, throw_if-ok,
  >>=-eq-ok, eq_of_ok, arith, Occurs, here, there, ◌⊎◌, ◌∙◌, ap,
}
use mathlib.Core.Path.{subst}
use peer_hours.Records.Json.{Json}
use peer_hours.Peers.Receipts.{Platform}
use peer_hours.Peers.Manifest.{CommunityManifest, parse_community_manifest}
use peer_hours.Peers.State.{PeerRuntime, fetching}
use peer_hours.Peers.Bootstrap.{
  differs_from_pinned, differs_from_selected, require_compatible_community_manifest,
  bootstrap_endpoints_in_retry_order, adopt, give_up, attempt, try_endpoints, fetch_from,
  fetch_bootstrap_key,
}

-- A manifest for the scope that is in use.
abbrev pub IsCompatible : PeerRuntime → CommunityManifest → Type 0
IsCompatible s m =
    ((key : String) → s.bootstrap_key ≡ some key → m.core_key ≡ key)
    × ((c : CommunityManifest)
        → s.community ≡ some c
        → (m.community_id ≡ c.community_id) × (m.core_key ≡ c.core_key))

require_compatible_community_manifest-IsCompatible :
    (s : PeerRuntime) (m : CommunityManifest)
    → require_compatible_community_manifest s m ≡ ok tt
    → IsCompatible s m
unfolding require_compatible_community_manifest
require_compatible_community_manifest-IsCompatible s m h =
    let (pinned, selected) = throw_if-ok (differs_from_pinned s.bootstrap_key m) _ _ h in
    (
      λ key e. eq_of_== m.core_key key (ground arith),
      λ c e. (
        eq_of_== m.community_id c.community_id (ground arith),
        eq_of_== m.core_key c.core_key (ground arith),
      ),
    )

IsCompatible-require_compatible_community_manifest :
    (s : PeerRuntime) (m : CommunityManifest)
    → IsCompatible s m
    → require_compatible_community_manifest s m ≡ ok tt
unfolding require_compatible_community_manifest
IsCompatible-require_compatible_community_manifest s m (pinned, selected) =
    let a : differs_from_pinned s.bootstrap_key m ≡ false = elim (Option-cases s.bootstrap_key) [
      | inl e ↦ rw e refl
      | inr (key, e) ↦ rw (e, pinned key e, ==_refl {A = String} key) refl
    ] in
    let b : differs_from_selected s.community m ≡ false = elim (Option-cases s.community) [
      | inl e ↦ rw e refl
      | inr (c, e) ↦
          let (id, key) = selected c e in
          rw (e, id, key, ==_refl {A = String} c.community_id, ==_refl {A = String} c.core_key) refl
    ] in
    rw (a, b) refl

pub List-cases {ℓ} :
    {A : Type ℓ} (xs : List A) → (xs ≡ []) ⊎ ((a : A) × (rest : List A) × (xs ≡ a ∷ rest))
List-cases [] = inl refl
List-cases (x ∷ xs) = inr (x, xs, refl)

abbrev pub tried : String × Error → String
tried (endpoint, cause) = endpoint

++-nil {ℓ} : {A : Type ℓ} (xs : List A) → xs ++ [] ≡ xs
++-nil [] = refl
++-nil (x ∷ xs) = ap (λ ys. x ∷ ys) (++-nil xs)

tried_next :
    (failures : List (String × Error)) (e : String) (x : Error) (endpoints : List String)
    → map tried (failures ++ ((e, x) ∷ [])) ++ endpoints ≡ map tried failures ++ (e ∷ endpoints)
tried_next [] e x endpoints = refl
tried_next ((f, y) ∷ failures) e x endpoints = ap (λ ys. f ∷ ys) (tried_next failures e x endpoints)

module _ (pf : Platform) (respond : String → Result Json) where
  -- The endpoint answers with this manifest, for the scope that is in use.
  abbrev pub Answers : PeerRuntime → String → CommunityManifest → Type 0
  Answers s endpoint m =
      (payload : Json) × (respond endpoint ≡ ok payload)
      × (parse_community_manifest pf payload ≡ ok m)
      × IsCompatible s m

  pub attempt-Answers :
      (s : PeerRuntime) (endpoint : String) (m : CommunityManifest)
      → attempt pf respond s endpoint ≡ ok m
      → Answers s endpoint m
  unfolding attempt
  attempt-Answers s endpoint m h =
      let (payload, given, h₁) = >>=-eq-ok (respond endpoint) _ h in
      let (n, parsed, h₂) = >>=-eq-ok (parse_community_manifest pf payload) _ h₁ in
      let (_, fits, h₃) = >>=-eq-ok (require_compatible_community_manifest s n) _ h₂ in
      let e = eq_of_ok n m h₃ in
      (
        payload,
        given,
        rw e at parsed,
        require_compatible_community_manifest-IsCompatible s m (rw e at fits),
      )

  pub Answers-attempt :
      (s : PeerRuntime) (endpoint : String) (m : CommunityManifest)
      → Answers s endpoint m
      → attempt pf respond s endpoint ≡ ok m
  unfolding attempt
  Answers-attempt s endpoint m (payload, given, parsed, fits) =
      rw (given, parsed, IsCompatible-require_compatible_community_manifest s m fits) refl

  -- The endpoints that fail.
  abbrev pub AllFail : PeerRuntime → List String → Type 0
  AllFail s endpoints =
      (e : String) → Occurs e endpoints → (x : Error) × (attempt pf respond s e ≡ err x)

  -- The first of the endpoints that answers with a compatible manifest.
  pub record First (s : PeerRuntime) (endpoints : List String) : Type 0 where
    pub before : List String
    pub endpoint : String
    pub after : List String
    pub order : endpoints ≡ before ++ (endpoint ∷ after)
    pub unanswered : AllFail s before
    pub manifest : CommunityManifest
    pub answered : attempt pf respond s endpoint ≡ ok manifest

  AllFail-cons :
      (s : PeerRuntime) (e : String) (es : List String) (x : Error)
      → attempt pf respond s e ≡ err x
      → AllFail s es
      → AllFail s (e ∷ es)
  AllFail-cons s e es x h all f (here same) = (x, rw same h)
  AllFail-cons s e es x h all f (there o) = all f o

  module _ (now : String) where
    abbrev pub Outcome :
        PeerRuntime → List (String × Error) → List String → PeerRuntime × Option String → Type 0
    Outcome s failures endpoints result =
        ((f : First s endpoints) × (result
            ≡ (adopt s now f.endpoint f.manifest, some f.manifest.core_key)))
        ⊎ (AllFail s endpoints
            × ((causes : List (String × Error)) × (result ≡ (give_up s causes, none))
                × (map tried causes ≡ map tried failures ++ endpoints)))

    try_endpoints-Outcome :
        (s : PeerRuntime) (failures : List (String × Error)) (endpoints : List String)
        → Outcome s failures endpoints (try_endpoints pf respond now s failures endpoints)
    unfolding try_endpoints
    try_endpoints-Outcome s failures [] =
        inr (λ e o. elim o [ ], (failures, refl, sym (++-nil (map tried failures))))
    try_endpoints-Outcome s failures (e ∷ endpoints) =
        elim (Result-cases (attempt pf respond s e)) [
          | inl (m, h) ↦ inl (
            record {
              before = [];
              endpoint = e;
              after = endpoints;
              order = refl;
              unanswered = λ f o. elim o [ ];
              manifest = m;
              answered = h;
            },
            rw (h, try_endpoints),
          )
          | inr (x, h) ↦ elim (try_endpoints-Outcome s (failures ++ ((e, x) ∷ [])) endpoints) [
            | inl (f, r) ↦ inl (
              record {
                before = e ∷ f.before;
                endpoint = f.endpoint;
                after = f.after;
                order = ap (λ es. e ∷ es) f.order;
                unanswered = AllFail-cons s e f.before x h f.unanswered;
                manifest = f.manifest;
                answered = f.answered;
              },
              rw (h, try_endpoints) r,
            )
            | inr (all, (causes, r, named)) ↦ inr (
              AllFail-cons s e endpoints x h all,
              (causes, rw (h, try_endpoints) r, named ∙ tried_next failures e x endpoints),
            )
          ]
        ]

    -- A fetch is a run over the endpoints in the order of retries.
    pub fetch_bootstrap_key-Outcome :
        (s : PeerRuntime) (url : String) (urls : List String)
        → s.bootstrap_urls ≡ url ∷ urls
        → Outcome
            (record s { bootstrap_state = fetching })
            []
            (bootstrap_endpoints_in_retry_order s)
            (fetch_bootstrap_key pf respond now s)
    unfolding fetch_bootstrap_key
    fetch_bootstrap_key-Outcome s url urls e =
        subst
          (λ (us : List String).
            Outcome (record s { bootstrap_state = fetching }) []
              (bootstrap_endpoints_in_retry_order s) (fetch_from pf respond now s us))
          (sym e)
          (try_endpoints-Outcome (record s { bootstrap_state = fetching }) []
            (bootstrap_endpoints_in_retry_order s))
