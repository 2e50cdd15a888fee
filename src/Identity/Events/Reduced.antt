-- ===== src/Identity/Events/Reduced.antt =====
-- The reduction of signing key events sees them as a set.
use peer_hours.Prelude.{
  Bool, String, Option, ◌≡◌, ◌≢◌, ◌⊎◌, refl, true, List, [], ◌∷◌, arith, Ordering, Occurs, here,
  there, Occurs-nil, SameSet, ok, text_equality, inl, inr, >>=-eq-ok, identity, conflicting_events,
  reassigned_key,
}
use peer_hours.Script.Map.{Map, values}
use peer_hours.Script.Collation.{Collation}
use peer_hours.Script.Collect.{Occurs-values_iff, collect_same}
use peer_hours.Script.Collect.Order.{Separates, sort-values_same, values_same}
use peer_hours.Identity.Events.{
  MemberSigningKeyAuthorization, MemberSigningKeyAuthorizationEvent, activate, revoke,
  AuthorizationAction, Event-discrete, ActivationTerms-discrete, event_key, event_id_of, terms_key,
  create_event, events_by_id, activations, activation_terms, assert_not_reassigned, event_order,
  reduce_events,
}

pub action-cases : (a : AuthorizationAction) → ((pem : String) × (a ≡ activate pem)) ⊎ (a ≡ revoke)
action-cases (activate pem) = inl (pem, refl)
action-cases revoke = inr refl

module _ (fingerprint : String → Option String) (is_canonical : String → Bool) where
  pub created_self :
      (e v : MemberSigningKeyAuthorizationEvent)
      → create_event fingerprint is_canonical e ≡ ok v
      → v ≡ e
  unfolding create_event
  created_self e v h = ground arith

  -- An activation stands for an event.
  abbrev Activates : MemberSigningKeyAuthorizationEvent → String × String → Type 0
  Activates e x = (pem : String) × (e.action ≡ activate pem) × (x ≡ (event_key e, pem))

  abbrev acts : List MemberSigningKeyAuthorizationEvent → List (String × String)
  acts = activations fingerprint is_canonical

  activations-activate :
      (e : MemberSigningKeyAuthorizationEvent) (es : List MemberSigningKeyAuthorizationEvent)
      (pem : String)
      → e.action ≡ activate pem
      → acts (e ∷ es) ≡ (event_key e, pem) ∷ acts es
  unfolding activations
  activations-activate e es pem h = ground arith

  activations-revoke :
      (e : MemberSigningKeyAuthorizationEvent) (es : List MemberSigningKeyAuthorizationEvent)
      → e.action ≡ revoke
      → acts (e ∷ es) ≡ acts es
  unfolding activations
  activations-revoke e es h = ground arith

  from_cons :
      (es : List MemberSigningKeyAuthorizationEvent) (x y : String × String)
      → Occurs x (y ∷ acts es)
      → (x ≡ y) ⊎ Occurs x (acts es)
  from_cons es x y (here e) = inl e
  from_cons es x y (there o) = inr o

  activations-source :
      (es : List MemberSigningKeyAuthorizationEvent) (x : String × String)
      → Occurs x (acts es)
      → (e : MemberSigningKeyAuthorizationEvent) × Occurs e es × Activates e x
  unfolding activations
  activations-source [] x o = absurd (Occurs-nil o)
  activations-source (e ∷ es) x o = elim (action-cases e.action) [
    | inl (pem, a) ↦
        elim (from_cons es x (event_key e, pem) (rw (activations-activate e es pem a) at o)) [
          | inl same ↦ (e, here refl, (pem, a, same))
          | inr later ↦ let (v, q, w) = activations-source es x later in (v, there q, w)
        ]
    | inr r ↦
        let (v, q, w) = activations-source es x (rw (activations-revoke e es r) at o) in
        (v, there q, w)
  ]

  Occurs-activations :
      (es : List MemberSigningKeyAuthorizationEvent) (x : String × String)
      (e : MemberSigningKeyAuthorizationEvent)
      → Occurs e es
      → Activates e x
      → Occurs x (acts es)
  Occurs-activations [] x e o w = absurd (Occurs-nil o)
  Occurs-activations (y ∷ es) x e (here same) (pem, a, at) =
      rw (activations-activate y es pem (rw (← same) a)) (here (rw (← same) at))
  Occurs-activations (y ∷ es) x e (there o) w =
      let later = Occurs-activations es x e o w in
      elim (action-cases y.action) [
        | inl (pem, a) ↦ rw (activations-activate y es pem a) (there later)
        | inr r ↦ rw (activations-revoke y es r) later
      ]

  activations_same :
      (es fs : List MemberSigningKeyAuthorizationEvent)
      → SameSet es fs
      → SameSet (acts es) (acts fs)
  activations_same es fs same x = (
    λ o. let (e, q, w) = activations-source es x o in Occurs-activations fs x e ((same e).0 q) w,
    λ o. let (e, q, w) = activations-source fs x o in Occurs-activations es x e ((same e).1 q) w,
  )

  module _ (c : Collation) where
    -- The collation tells the ids of different events apart.
    abbrev pub TellsEventsApart : List MemberSigningKeyAuthorizationEvent → Type 0
    TellsEventsApart es =
        (d e : MemberSigningKeyAuthorizationEvent)
        → Occurs d es
        → Occurs e es
        → d.event_id ≢ e.event_id
        → c.locale_compare d.event_id e.event_id ≢ Ordering.eq

    abbrev pub earlier :
        MemberSigningKeyAuthorizationEvent → MemberSigningKeyAuthorizationEvent → Bool
    earlier = event_order fingerprint is_canonical c

    pub earlier_irrefl : (e : MemberSigningKeyAuthorizationEvent) → earlier e e ≡ true → ⊥
    earlier_irrefl e h =
        ground (arith, c.swapped e.occurred_at e.occurred_at, c.swapped e.event_id e.event_id)

    pub earlier_trans :
        (d e f : MemberSigningKeyAuthorizationEvent)
        → earlier d e ≡ true
        → earlier e f ≡ true
        → earlier d f ≡ true
    earlier_trans d e f h k = ground (
      arith,
      c.lt_trans d.occurred_at e.occurred_at f.occurred_at,
      c.eq_lt_trans d.occurred_at e.occurred_at f.occurred_at,
      c.lt_eq_trans d.occurred_at e.occurred_at f.occurred_at,
      c.eq_trans d.occurred_at e.occurred_at f.occurred_at,
      c.lt_trans d.event_id e.event_id f.event_id,
    )

    events-Separates :
        (es : List MemberSigningKeyAuthorizationEvent) (m : Map MemberSigningKeyAuthorizationEvent)
        → events_by_id fingerprint is_canonical es ≡ ok m
        → TellsEventsApart es
        → Separates event_id_of earlier (values m)
    unfolding events_by_id
    events-Separates es m h apart a b o p n =
        let source = λ (x : MemberSigningKeyAuthorizationEvent) (q : Occurs x (values m)).
          let (y, at, e) =
            (Occurs-values_iff (create_event fingerprint is_canonical) event_id_of
                (identity conflicting_events) es m x h).0
              q in
          let same = created_self y x e in let there_too : Occurs x es = rw same at in there_too in
        let told = apart a b (source a o) (source b p) n in
        ground (arith, c.swapped a.occurred_at b.occurred_at, c.swapped a.event_id b.event_id)

    -- If the events reduce, the same events in any other order, and however often each is repeated,
    -- reduce too, and to the same authorizations in the same order. The collation is to tell the
    -- ids of different events apart.
    pub reduce_events_same :
        (es fs : List MemberSigningKeyAuthorizationEvent) (r : List MemberSigningKeyAuthorization)
        → SameSet es fs
        → TellsEventsApart es
        → reduce_events fingerprint is_canonical c es ≡ ok r
        → reduce_events fingerprint is_canonical c fs ≡ ok r
    unfolding reduce_events events_by_id assert_not_reassigned
    reduce_events_same es fs r same apart h =
        let check = create_event fingerprint is_canonical in
        let conflict = identity conflicting_events in
        let (m, e, h₁) = >>=-eq-ok (events_by_id fingerprint is_canonical es) _ h in
        let (t, f, h₂) =
          >>=-eq-ok (assert_not_reassigned fingerprint is_canonical (values m)) _ h₁ in
        let (n, g, _) = collect_same check event_id_of conflict es fs m same e in
        let items = values_same event_id_of check conflict es fs m n same e g in
        let (_, k, _) =
          collect_same (activation_terms fingerprint is_canonical) terms_key
            (identity reassigned_key) (acts (values m)) (acts (values n)) t
            (activations_same (values m) (values n) items) f in
        let sorted =
          sort-values_same event_id_of earlier earlier_irrefl earlier_trans check conflict es fs m n
            same e g (events-Separates es m e apart) in
        rw (g, k, ← sorted) h₂
