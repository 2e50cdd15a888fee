-- ===== src/Identity/Lifecycles/Reduced.antt =====
-- The reduction of root-signed lifecycles sees them as a set, and a revocation in it is final.
use mathlib.Core.Path.{subst}
use peer_hours.Prelude.{
  Bool, false, String, Option, some, ◌≡◌, ◌≢◌, refl, sym, ap, ◌∙◌, List, [], map, arith, Ordering,
  text_equality, Occurs, Occurs-map, map-Occurs, SameSet, Result, ok, >>=-eq-ok, eq_of_ok, identity,
  conflicting_events,
}
use peer_hours.Script.Map.{Map, get, values}
use peer_hours.Script.Map.Laws.{get_of_Occurs-values, Occurs-values_of_get}
use peer_hours.Script.Sort.{sort}
use peer_hours.Script.Sort.Laws.{sort-Occurs, Occurs-sort, map-sort}
use peer_hours.Script.Collation.{Collation}
use peer_hours.Script.Collect.{collect-IsKeyed, collect_same, get-collect_item, Occurs-values_iff}
use peer_hours.Script.Collect.Order.{Separates, sort-values_same, values_same}
use peer_hours.Script.Collect.Distinct.{values-collect_distinct, map-IsDistinct}
use peer_hours.Identity.Events.{
  MemberSigningKeyAuthorization, MemberSigningKeyAuthorizationEvent, revoke, ReducedAuthorization,
  Event-discrete, event_key, event_id_of, create_event, events_by_id, assert_not_reassigned,
  apply_events, event_order, reduced_order, authorization_of, reduce_events,
}
use peer_hours.Identity.Events.Reduced.{
  created_self, earlier_irrefl, earlier_trans, reduce_events_same, TellsEventsApart,
}
use peer_hours.Identity.Verifier.Indexed.{key_of}
use peer_hours.Identity.Owned.{
  LifecycleTerms, RootSignedLifecycle, canonical_lifecycle_payload, assert_root_signature,
  create_lifecycle,
}
use peer_hours.Identity.Lifecycles.{
  Lifecycle-discrete, lifecycle_id_of, lifecycle_event, assert_not_retired, lifecycles_by_id,
  lifecycle_order, reduce_lifecycles,
}
use peer_hours.Identity.Lifecycles.Retired.{key_of_reduced, revoked-IsOff, applied-IsKept}

map_same :
    {A B : Type 0} (f : A → B) (xs ys : List A) → SameSet xs ys → SameSet (map f xs) (map f ys)
map_same f xs ys same b = (
  λ o.
      let (a, p, e) = map-Occurs f xs o in
      subst (λ c. Occurs c (map f ys)) (sym e) (Occurs-map f ((same a).0 p)),
  λ o.
      let (a, p, e) = map-Occurs f ys o in
      subst (λ c. Occurs c (map f xs)) (sym e) (Occurs-map f ((same a).1 p)),
)

module _ (fingerprint : String → Option String) (is_canonical : String → Bool)
    (hash : String → String) (is_signature : String → Bool)
    (verify_lifecycle : LifecycleTerms → String → String → Result Bool) where
  abbrev create : RootSignedLifecycle → Result RootSignedLifecycle
  create = create_lifecycle fingerprint is_canonical hash is_signature verify_lifecycle

  created_event : (s u : RootSignedLifecycle) → create s ≡ ok u → u.event ≡ s.event
  unfolding create_lifecycle
  created_event s u h =
      let (payload, e, h₁) =
        >>=-eq-ok (canonical_lifecycle_payload fingerprint is_canonical hash is_signature s) _ h in
      let (done, f, h₂) =
        >>=-eq-ok
          (assert_root_signature fingerprint is_canonical hash is_signature verify_lifecycle payload
            s.root_public_key_pem s.signature)
          _ h₁ in
      let (event, g, h₃) = >>=-eq-ok (create_event fingerprint is_canonical s.event) _ h₂ in
      ap lifecycle_event (sym (eq_of_ok _ u h₃))
      ∙ created_self fingerprint is_canonical s.event event g

  module _ (c : Collation) where
    abbrev by_time : MemberSigningKeyAuthorizationEvent → MemberSigningKeyAuthorizationEvent → Bool
    by_time = event_order fingerprint is_canonical c

    abbrev of_values : Map RootSignedLifecycle → List MemberSigningKeyAuthorizationEvent
    of_values m = map lifecycle_event (values m)

    -- The two loops of the reduction run over the same events in the same order.
    reduced-parts :
        (ss : List RootSignedLifecycle) (r : List MemberSigningKeyAuthorization)
        → reduce_lifecycles fingerprint is_canonical hash is_signature verify_lifecycle c ss ≡ ok r
        → (m : Map RootSignedLifecycle) × (current : Map ReducedAuthorization) × (lifecycles_by_id
              fingerprint is_canonical hash is_signature verify_lifecycle ss
            ≡ ok m)
          × (assert_not_retired [] (sort by_time (of_values m)) ≡ ok tt)
          × (apply_events fingerprint is_canonical [] (sort by_time (of_values m)) ≡ ok current)
          × (r
              ≡ map
                  (authorization_of fingerprint is_canonical)
                  (sort (reduced_order fingerprint is_canonical c) (values current)))
    unfolding reduce_lifecycles reduce_events events_by_id lifecycles_by_id
    reduced-parts ss r h =
        let (m, e, h₁) =
          >>=-eq-ok
            (lifecycles_by_id fingerprint is_canonical hash is_signature verify_lifecycle ss) _ h in
        let (_, kept, h₂) =
          >>=-eq-ok
            (assert_not_retired [] (
              map lifecycle_event (
                sort (lifecycle_order fingerprint is_canonical hash is_signature verify_lifecycle c)
                  (values m))))
            _ h₁ in
        let (n, f, h₃) = >>=-eq-ok (events_by_id fingerprint is_canonical (of_values m)) _ h₂ in
        let (_, _, h₄) =
          >>=-eq-ok (assert_not_reassigned fingerprint is_canonical (values n)) _ h₃ in
        let (current, g, h₅) =
          >>=-eq-ok (apply_events fingerprint is_canonical [] (sort by_time (values n))) _ h₄ in
        let (w, u) =
          collect-IsKeyed create lifecycle_id_of (identity conflicting_events) ss [] m e (tt, tt) in
        let all : values n ≡ of_values m =
          values-collect_distinct event_id_of (create_event fingerprint is_canonical)
            (identity conflicting_events) (created_self fingerprint is_canonical) (of_values m) n
            (map-IsDistinct lifecycle_id_of lifecycle_event event_id_of (λ s. refl) m w u) f in
        (
          m,
          current,
          e,
          subst (λ es. assert_not_retired [] es ≡ ok tt)
              (map-sort lifecycle_event by_time (values m)) kept,
          subst (λ es. apply_events fingerprint is_canonical [] (sort by_time es) ≡ ok current) all
              g,
          sym (eq_of_ok _ r h₅),
        )

    -- If root-signed statements reduce, a key that any one of them revokes is inactive in the
    -- result, whatever the order of the statements and whichever other statements there are.
    pub reduce_lifecycles-revoked :
        (ss : List RootSignedLifecycle) (r : List MemberSigningKeyAuthorization)
        (s : RootSignedLifecycle) (a : MemberSigningKeyAuthorization)
        → reduce_lifecycles fingerprint is_canonical hash is_signature verify_lifecycle c ss ≡ ok r
        → Occurs s ss
        → s.event.action ≡ revoke
        → Occurs a r
        → key_of a ≡ event_key s.event
        → a.active ≡ false
    unfolding lifecycles_by_id
    reduce_lifecycles-revoked ss r s a h o act listed_there named =
        let (m, current, e, kept, applied, same) = reduced-parts ss r h in
        let (u, made, g) =
          get-collect_item create lifecycle_id_of (identity conflicting_events) ss [] m s e o in
        let event = created_event s u made in
        let listed : Occurs u.event (sort by_time (of_values m)) = Occurs-sort by_time (
          Occurs-map lifecycle_event
            (Occurs-values_of_get lifecycle_id_of m (lifecycle_id_of u) u g)) in
        let off =
          revoked-IsOff fingerprint is_canonical (sort by_time (of_values m)) [] [] current u.event
            kept applied listed (rw event act) in
        let (w, v) =
          applied-IsKept fingerprint is_canonical (sort by_time (of_values m)) [] current applied
            (tt, tt) in
        let (red, p, is) =
          map-Occurs (authorization_of fingerprint is_canonical) _ (rw same at listed_there) in
        let found : get current (key_of_reduced red) ≡ some red =
          get_of_Occurs-values key_of_reduced current red w v
            (sort-Occurs (reduced_order fingerprint is_canonical c) (values current) p) in
        let key : key_of_reduced red ≡ event_key u.event =
          ap key_of (sym is) ∙ named ∙ ap event_key (sym event) in
        ap (λ (b : MemberSigningKeyAuthorization). b.active) is
        ∙ off red (subst (λ k. get current k ≡ some red) key found)

    -- The collation tells the ids of different events apart.
    abbrev pub TellsStatementsApart : List RootSignedLifecycle → Type 0
    TellsStatementsApart ss =
        (s t : RootSignedLifecycle)
        → Occurs s ss
        → Occurs t ss
        → s.event.event_id ≢ t.event.event_id
        → c.locale_compare s.event.event_id t.event.event_id ≢ Ordering.eq

    abbrev earlier_statement : RootSignedLifecycle → RootSignedLifecycle → Bool
    earlier_statement =
        lifecycle_order fingerprint is_canonical hash is_signature verify_lifecycle c

    -- Two collected statements come from two given ones with their events.
    collected_apart :
        (ss : List RootSignedLifecycle) (m : Map RootSignedLifecycle) (a b : RootSignedLifecycle)
        → lifecycles_by_id fingerprint is_canonical hash is_signature verify_lifecycle ss ≡ ok m
        → TellsStatementsApart ss
        → Occurs a (values m)
        → Occurs b (values m)
        → a.event.event_id ≢ b.event.event_id
        → c.locale_compare a.event.event_id b.event.event_id ≢ Ordering.eq
    unfolding lifecycles_by_id
    collected_apart ss m a b h apart o p n =
        let source = λ (x : RootSignedLifecycle).
          (Occurs-values_iff create lifecycle_id_of (identity conflicting_events) ss m x h).0 in
        let (s, at, e) = source a o in
        let (t, there_too, f) = source b p in
        let first : a.event.event_id ≡ s.event.event_id = ap event_id_of (created_event s a e) in
        let second : b.event.event_id ≡ t.event.event_id = ap event_id_of (created_event t b f) in
        rw (first, second) (apart s t at there_too (λ q. n (first ∙ q ∙ sym second)))

    statements-Separates :
        (ss : List RootSignedLifecycle) (m : Map RootSignedLifecycle)
        → lifecycles_by_id fingerprint is_canonical hash is_signature verify_lifecycle ss ≡ ok m
        → TellsStatementsApart ss
        → Separates lifecycle_id_of earlier_statement (values m)
    statements-Separates ss m h apart a b o p n =
        let told = collected_apart ss m a b h apart o p n in
        ground (
          arith,
          c.swapped a.event.occurred_at b.event.occurred_at,
          c.swapped a.event.event_id b.event.event_id,
        )

    events_apart :
        (ss : List RootSignedLifecycle) (m : Map RootSignedLifecycle)
        → lifecycles_by_id fingerprint is_canonical hash is_signature verify_lifecycle ss ≡ ok m
        → TellsStatementsApart ss
        → TellsEventsApart fingerprint is_canonical c (of_values m)
    events_apart ss m h apart d e o p n =
        let (a, o', at) = map-Occurs lifecycle_event (values m) o in
        let (b, p', also) = map-Occurs lifecycle_event (values m) p in
        let first : d.event_id ≡ a.event.event_id = ap event_id_of at in
        let second : e.event_id ≡ b.event.event_id = ap event_id_of also in
        rw (first, second)
          (collected_apart ss m a b h apart o' p' (λ q. n (first ∙ q ∙ sym second)))

    -- If root-signed statements reduce, the same statements in any other order, and however often
    -- each is repeated, reduce too, and to the same authorizations in the same order. The collation
    -- is to tell the ids of different events apart.
    pub reduce_lifecycles_same :
        (ss ts : List RootSignedLifecycle) (r : List MemberSigningKeyAuthorization)
        → SameSet ss ts
        → TellsStatementsApart ss
        → reduce_lifecycles fingerprint is_canonical hash is_signature verify_lifecycle c ss ≡ ok r
        → reduce_lifecycles fingerprint is_canonical hash is_signature verify_lifecycle c ts ≡ ok r
    unfolding reduce_lifecycles lifecycles_by_id
    reduce_lifecycles_same ss ts r same apart h =
        let conflict = identity conflicting_events in
        let (m, e, h₁) =
          >>=-eq-ok
            (lifecycles_by_id fingerprint is_canonical hash is_signature verify_lifecycle ss) _ h in
        let (_, kept, h₂) =
          >>=-eq-ok
            (assert_not_retired [] (map lifecycle_event (sort earlier_statement (values m)))) _
            h₁ in
        let (n, g, _) = collect_same create lifecycle_id_of conflict ss ts m same e in
        let items = values_same lifecycle_id_of create conflict ss ts m n same e g in
        let sorted =
          sort-values_same lifecycle_id_of earlier_statement
            (λ s. earlier_irrefl fingerprint is_canonical c s.event)
            (λ s t u. earlier_trans fingerprint is_canonical c s.event t.event u.event) create
            conflict ss ts m n same e g (statements-Separates ss m e apart) in
        let reduced =
          reduce_events_same fingerprint is_canonical c (of_values m) (of_values n) r
            (map_same lifecycle_event (values m) (values n) items) (events_apart ss m e apart) h₂ in
        rw (g, ← sorted, kept) reduced
