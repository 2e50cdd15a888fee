-- ===== src/Peers/Bootstrap/Distinct.antt =====
-- No endpoint is tried twice in a fetch: packages/peer-runtime/src/index.ts.
use peer_hours.Prelude.{
  false, String, Option, none, some, List, [], ◌∷◌, ◌++◌, contains, ◌≡◌, sym, ◌==◌, text_equality,
  ==_refl, Bool-cases, Option-cases, inl, inr, Occurs, Occurs-nil, here, there, append-Occurs,
  Result, ok, throw_if-ok, >>=-eq-ok, eq_of_ok, arith,
}
use mathlib.Core.Path.{subst}
use peer_hours.Records.Json.{Json, text}
use peer_hours.Peers.Receipts.{Platform}
use peer_hours.Peers.Manifest.{each, valid_operational_url, has_duplicates}
use peer_hours.Peers.Manifest.Bounded.{IsDistinct, has_duplicates-IsDistinct}
use peer_hours.Peers.State.{PeerRuntime}
use peer_hours.Peers.Bootstrap.{
  normalize_bootstrap_urls, others, bootstrap_endpoints_in_retry_order,
  remember_bootstrap_endpoints, adopt, give_up, fetch_from, fetch_bootstrap_key,
}
use peer_hours.Peers.Bootstrap.Attempts.{List-cases, fetch_bootstrap_key-Outcome}
use peer_hours.Peers.Bootstrap.Selected.{Fetches, unfetched, again}

append-IsDistinct :
    (xs : List String) (y : String)
    → IsDistinct xs
    → contains xs y ≡ false
    → IsDistinct (xs ++ (y ∷ []))
append-IsDistinct [] y h n = (λ o. Occurs-nil o, tt)
append-IsDistinct (x ∷ xs) y (a, h) n = (
  λ o. elim (append-Occurs xs (y ∷ []) o) [
    | inl old ↦ a old
    | inr (here e) ↦ ground (arith, ==_refl {A = String} y)
    | inr (there none_left) ↦ Occurs-nil none_left
  ],
  append-IsDistinct xs y h (ground arith),
)

remember_bootstrap_endpoints-IsDistinct :
    (urls endpoints : List String)
    → IsDistinct urls
    → IsDistinct (remember_bootstrap_endpoints urls endpoints)
unfolding remember_bootstrap_endpoints
remember_bootstrap_endpoints-IsDistinct urls [] h = h
remember_bootstrap_endpoints-IsDistinct urls (e ∷ endpoints) h =
    elim (Bool-cases (contains urls e)) [
      | inl known ↦ rw known (remember_bootstrap_endpoints-IsDistinct urls endpoints h)
      | inr new ↦ rw new (
          remember_bootstrap_endpoints-IsDistinct (urls ++ (e ∷ [])) endpoints
            (append-IsDistinct urls e h new))
    ]

-- What the others are.
others-listed :
    (active url : String) (urls : List String)
    → Occurs url (others active urls)
    → Occurs url urls × ((url == active) ≡ false)
unfolding others
others-listed active url [] o = absurd (Occurs-nil o)
others-listed active url (x ∷ urls) o = elim (Bool-cases (x == active)) [
  | inl skipped ↦ let (p, n) = others-listed active url urls (rw skipped at o) in (there p, n)
  | inr kept ↦ first_or_rest x urls (others-listed active url urls) kept (rw kept at o)
]
  where
    first_or_rest :
        (x : String) (urls : List String)
        → (Occurs url (others active urls) → Occurs url urls × ((url == active) ≡ false))
        → (x == active) ≡ false
        → Occurs url (x ∷ others active urls)
        → Occurs url (x ∷ urls) × ((url == active) ≡ false)
    first_or_rest x urls later n (here e) = (here e, rw e n)
    first_or_rest x urls later n (there o) = let (p, f) = later o in (there p, f)

others-IsDistinct :
    (active : String) (urls : List String) → IsDistinct urls → IsDistinct (others active urls)
unfolding others
others-IsDistinct active [] h = tt
others-IsDistinct active (x ∷ urls) (a, h) = elim (Bool-cases (x == active)) [
  | inl skipped ↦ rw skipped (others-IsDistinct active urls h)
  | inr kept ↦ rw kept (λ o. a (others-listed active x urls o).0, others-IsDistinct active urls h)
]

retry_order-IsDistinct :
    (s : PeerRuntime)
    → IsDistinct s.bootstrap_urls
    → IsDistinct (bootstrap_endpoints_in_retry_order s)
unfolding bootstrap_endpoints_in_retry_order
retry_order-IsDistinct s h = elim (Option-cases s.active_bootstrap_url) [
  | inl e ↦ rw e h
  | inr (active, e) ↦ rw e (
    λ o.
        ground
          (arith, (others-listed active active s.bootstrap_urls o).1, ==_refl {A = String} active),
    others-IsDistinct active s.bootstrap_urls h,
  )
]

module _ (pf : Platform) where
  normalize_bootstrap_urls-IsDistinct :
      (given : Option (List String)) (urls : List String)
      → normalize_bootstrap_urls pf given ≡ ok urls
      → IsDistinct urls
  unfolding normalize_bootstrap_urls
  normalize_bootstrap_urls-IsDistinct none urls h = let e = eq_of_ok [] urls h in rw (← e) tt
  normalize_bootstrap_urls-IsDistinct (some given) urls h =
      let (ys, _, h₁) =
        >>=-eq-ok (each (λ url. valid_operational_url pf (text url) "bootstrapUrl") given) _ h in
      let (single, h₂) = throw_if-ok (has_duplicates ys) _ _ h₁ in
      let e = eq_of_ok ys urls h₂ in rw (← e) (has_duplicates-IsDistinct ys single)

  fetch_bootstrap_key-IsDistinct :
      (respond : String → Result Json) (now : String) (s : PeerRuntime)
      → IsDistinct s.bootstrap_urls
      → IsDistinct (fetch_bootstrap_key pf respond now s).0.bootstrap_urls
  unfolding fetch_bootstrap_key adopt give_up fetch_from
  fetch_bootstrap_key-IsDistinct respond now s h = elim (List-cases s.bootstrap_urls) [
    | inl e ↦ rw (e, fetch_from) h
    | inr (url, urls, e) ↦ elim (fetch_bootstrap_key-Outcome pf respond now s url urls e) [
      | inl (f, r) ↦
          subst (λ (q : PeerRuntime × Option String). IsDistinct q.0.bootstrap_urls) (sym r)
            (remember_bootstrap_endpoints-IsDistinct s.bootstrap_urls f.manifest.bootstrap_nodes h)
      | inr (_, (causes, r, _)) ↦
          subst (λ (q : PeerRuntime × Option String). IsDistinct q.0.bootstrap_urls) (sym r) h
    ]
  ]

  Fetches-known :
      {s t : PeerRuntime}
      → IsDistinct s.bootstrap_urls
      → Fetches pf s t
      → IsDistinct t.bootstrap_urls
  Fetches-known h unfetched = h
  Fetches-known h (again {t} u respond now f e) =
      subst (λ (q : PeerRuntime). IsDistinct q.bootstrap_urls) e
        (fetch_bootstrap_key-IsDistinct respond now t (Fetches-known h f))

  -- A runtime whose endpoints are those that its constructor was given tries no endpoint twice in a
  -- fetch, whatever manifests it adopted in earlier fetches.
  pub Fetches-IsDistinct :
      {s t : PeerRuntime} (given : Option (List String))
      → normalize_bootstrap_urls pf given ≡ ok s.bootstrap_urls
      → Fetches pf s t
      → IsDistinct (bootstrap_endpoints_in_retry_order t)
  Fetches-IsDistinct {s} {t} given h f =
      retry_order-IsDistinct t
        (Fetches-known (normalize_bootstrap_urls-IsDistinct given s.bootstrap_urls h) f)
