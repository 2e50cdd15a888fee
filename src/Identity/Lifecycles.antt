-- ===== src/Identity/Lifecycles.antt =====
-- The reduction of root-signed key lifecycles, in packages/timebank-identity/src/index.ts.
pub mod Reduced
pub mod Retired
use peer_hours.Prelude.{
  Bool, String, String-discrete, Option, List, [], ◌∷◌, map, contains, text_equality, Result, ok,
  err, throw_if, ◌>>=◌, ◌>>◌, IdentityRule, identity, conflicting_events, retired_key,
}
use peer_hours.Script.Map.{Map, values}
use peer_hours.Script.Sort.{sort}
use peer_hours.Script.Collation.{Collation}
use peer_hours.Script.Collect.{collect}
use peer_hours.Identity.Events.{
  MemberSigningKeyAuthorization, MemberSigningKeyAuthorizationEvent, activate, revoke, event_key,
  event_order, Event-discrete, reduce_events,
}
use peer_hours.Identity.Owned.{RootSignedLifecycle, LifecycleTerms, create_lifecycle}

-- The comparison of `rootSignedLifecycleFingerprint` texts.
instance unfoldable pub Lifecycle-discrete : Discrete RootSignedLifecycle
unfolding String-discrete Event-discrete
Lifecycle-discrete = hlevel (String-discrete, Event-discrete)

abbrev pub lifecycle_id_of : RootSignedLifecycle → String
lifecycle_id_of s = s.event.event_id

abbrev pub lifecycle_event : RootSignedLifecycle → MemberSigningKeyAuthorizationEvent
lifecycle_event s = s.event

-- The loop over the sorted statements, `retiredKeys` being the keys that were revoked so far.
unfoldable pub assert_not_retired :
    List String → List MemberSigningKeyAuthorizationEvent → Result (Unit {0})
assert_not_retired retired [] = ok tt
assert_not_retired retired (e ∷ events) = elim e.action [
  | revoke ↦ assert_not_retired (event_key e ∷ retired) events
  | activate pem ↦ do
    throw_if (contains retired (event_key e)) (identity retired_key)
    assert_not_retired retired events
]

module _ (fingerprint : String → Option String) (is_canonical : String → Bool)
    (hash : String → String) (is_signature : String → Bool)
    (verify_lifecycle : LifecycleTerms → String → String → Result Bool) where
  unfoldable pub lifecycles_by_id : List RootSignedLifecycle → Result (Map RootSignedLifecycle)
  unfolding Lifecycle-discrete
  lifecycles_by_id statements =
      collect (create_lifecycle fingerprint is_canonical hash is_signature verify_lifecycle)
        lifecycle_id_of (identity conflicting_events) [] statements

  module _ (c : Collation) where
    abbrev pub lifecycle_order : RootSignedLifecycle → RootSignedLifecycle → Bool
    lifecycle_order left right = event_order fingerprint is_canonical c left.event right.event

    unfoldable pub reduce_lifecycles :
        List RootSignedLifecycle → Result (List MemberSigningKeyAuthorization)
    reduce_lifecycles statements = do
      by_id ← lifecycles_by_id statements
      assert_not_retired [] (map lifecycle_event (sort lifecycle_order (values by_id)))
      reduce_events fingerprint is_canonical c (map lifecycle_event (values by_id))
