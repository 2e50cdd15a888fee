-- ===== src/Peers/Bootstrap/Order.antt =====
-- The order of retries in packages/peer-runtime/src/index.ts.
use peer_hours.Prelude.{
  String, List, [], ◌∷◌, ◌≡◌, ◌==◌, text_equality, eq_of_==, Bool-cases, inl, inr, Occurs, here,
  there, ◌⊎◌, ◌∙◌, Option-cases,
}
use peer_hours.Peers.State.{PeerRuntime}
use peer_hours.Peers.Bootstrap.{others, bootstrap_endpoints_in_retry_order}

-- Each endpoint that is known is tried.
others-Occurs :
    (active url : String) (urls : List String)
    → Occurs url urls
    → (url ≡ active) ⊎ Occurs url (others active urls)
unfolding others
others-Occurs active url (x ∷ urls) (here e) = elim (Bool-cases (x == active)) [
  | inl same ↦ inl (e ∙ eq_of_== x active same)
  | inr other ↦ inr (rw other (here e))
]
others-Occurs active url (x ∷ urls) (there o) = elim (others-Occurs active url urls o) [
  | inl same ↦ inl same
  | inr found ↦ elim (Bool-cases (x == active)) [
    | inl skipped ↦ inr (rw skipped found)
    | inr kept ↦ inr (rw kept (there found))
  ]
]
others-Occurs active url [] o = elim o [ ]

pub bootstrap_endpoints_in_retry_order-Occurs :
    (s : PeerRuntime) (url : String)
    → Occurs url s.bootstrap_urls
    → Occurs url (bootstrap_endpoints_in_retry_order s)
unfolding bootstrap_endpoints_in_retry_order
bootstrap_endpoints_in_retry_order-Occurs s url o = elim (Option-cases s.active_bootstrap_url) [
  | inl e ↦ rw e o
  | inr (active, e) ↦ rw e (elim (others-Occurs active url s.bootstrap_urls o) [
    | inl same ↦ here same
    | inr found ↦ there found
  ])
]
