-- ===== src/Identity/Lifecycles/Retired.antt =====
-- A revoked key is never active again.
use mathlib.Core.Path.{subst}
use peer_hours.Prelude.{
  Bool, true, false, String, Option, none, some, ◌≡◌, ◌⊎◌, inl, inr, ◌∙◌, refl, sym, ap, List, [],
  ◌∷◌, contains, arith, text_equality, ◌==◌, eq_of_==, ==_refl, Occurs, here, there, Occurs-nil,
  Result, ok, throw_if-ok, >>=-eq-ok, eq_of_ok, Bool-cases, Option-cases, identity, retired_key,
}
use peer_hours.Script.Map.{Map, get, set}
use peer_hours.Script.Map.Laws.{get-set, IsKeyed, HasUniqueKeys, set-IsKeyed, set-HasUniqueKeys}
use peer_hours.Identity.Events.{
  MemberSigningKeyAuthorization, MemberSigningKeyAuthorizationEvent, activate, revoke,
  ReducedAuthorization, event_key, key_for, create_authorization, apply_event, apply_events,
}
use peer_hours.Identity.Events.Reduced.{action-cases}
use peer_hours.Identity.Lifecycles.{assert_not_retired}

abbrev pub key_of_reduced : ReducedAuthorization → String
key_of_reduced r =
    key_for r.authorization.community_id r.authorization.member_id r.authorization.key_id

-- What stands under the key, if anything does, is inactive.
abbrev pub IsOff : Map ReducedAuthorization → String → Type 0
IsOff m k = (r : ReducedAuthorization) → get m k ≡ some r → r.authorization.active ≡ false

get-IsKeyed :
    (m : Map ReducedAuthorization) (k : String) (r : ReducedAuthorization)
    → IsKeyed key_of_reduced m
    → get m k ≡ some r
    → key_of_reduced r ≡ k
unfolding get
get-IsKeyed [] k r w g = absurd (ground arith)
get-IsKeyed ((j, s) ∷ m) k r (e, w) g = elim (Bool-cases (j == k)) [
  | inl same ↦ let found : s ≡ r = ground arith in rw (← found) (sym e ∙ eq_of_== j k same)
  | inr other ↦ get-IsKeyed m k r w (ground arith)
]

module _ (fingerprint : String → Option String) (is_canonical : String → Bool) where
  abbrev apply_one :
      Map ReducedAuthorization
      → MemberSigningKeyAuthorizationEvent
      → Result (Map ReducedAuthorization)
  apply_one = apply_event fingerprint is_canonical

  created_authorization :
      (a b : MemberSigningKeyAuthorization)
      → create_authorization fingerprint is_canonical a ≡ ok b
      → b ≡ a
  unfolding create_authorization
  created_authorization a b h = ground arith

  -- What an event leaves: nothing, or a write under its key.
  activated :
      (m n : Map ReducedAuthorization) (e : MemberSigningKeyAuthorizationEvent) (pem : String)
      → e.action ≡ activate pem
      → apply_one m e ≡ ok n
      → (r : ReducedAuthorization) × (n ≡ set m (event_key e) r) × (key_of_reduced r ≡ event_key e)
  unfolding apply_event
  activated m n e pem act h =
      let (a, f, g) =
        >>=-eq-ok
          (create_authorization fingerprint is_canonical (record {
            community_id = e.community_id;
            member_id = e.member_id;
            key_id = e.key_id;
            public_key_pem = pem;
            active = true;
          }))
          _ (rw (act, apply_event) at h) in
      let same = created_authorization _ a f in
      (
        record { authorization = a; occurred_at = e.occurred_at; event_id = e.event_id },
        sym (eq_of_ok _ n g),
        ap (λ (b : MemberSigningKeyAuthorization). key_for b.community_id b.member_id b.key_id)
            same,
      )

  revoked :
      (m n : Map ReducedAuthorization) (e : MemberSigningKeyAuthorizationEvent)
      → e.action ≡ revoke
      → apply_one m e ≡ ok n
      → ((get m (event_key e) ≡ none) × (n ≡ m))
        ⊎ ((known r : ReducedAuthorization) × (get m (event_key e) ≡ some known)
            × (n ≡ set m (event_key e) r)
            × (r.authorization ≡ record known.authorization { active = false }))
  unfolding apply_event
  revoked m n e act h = elim (Option-cases (get m (event_key e))) [
    | inl g ↦ inl (g, sym (eq_of_ok m n (rw (act, g, apply_event) at h)))
    | inr (known, g) ↦
        let off = record known.authorization { active = false } in
        let (a, f, done) =
          >>=-eq-ok (create_authorization fingerprint is_canonical off) _
            (rw (act, g, apply_event) at h) in
        inr (
          known,
          record { authorization = a; occurred_at = e.occurred_at; event_id = e.event_id },
          g,
          sym (eq_of_ok _ n done),
          created_authorization off a f,
        )
  ]

  -- Under a retired key nothing becomes active.
  step-IsOff :
      (m n : Map ReducedAuthorization) (e : MemberSigningKeyAuthorizationEvent) (k : String)
      → e.action ≡ revoke
      → apply_one m e ≡ ok n
      → IsOff m k ⊎ (event_key e ≡ k)
      → IsOff n k
  step-IsOff m n e k act h off r g = elim (revoked m n e act h) [
    | inl (missing, same) ↦ elim off [
      | inl before ↦ before r (rw same at g)
      | inr named ↦ absurd (ground (arith, named, missing, same))
    ]
    | inr (known, s, found, same, set_off) ↦ elim (Bool-cases (event_key e == k)) [
      | inl named ↦
          let found_off : s ≡ r = ground (arith, get-set m (event_key e) k s) in
          rw (← found_off, set_off) refl
      | inr other ↦ elim off [
        | inl before ↦ before r (ground (arith, get-set m (event_key e) k s))
        | inr named ↦ absurd (ground (arith, ==_refl k))
      ]
    ]
  ]

  step_on :
      (m n : Map ReducedAuthorization) (e : MemberSigningKeyAuthorizationEvent) (k pem : String)
      → e.action ≡ activate pem
      → apply_one m e ≡ ok n
      → (event_key e == k) ≡ false
      → IsOff m k
      → IsOff n k
  step_on m n e k pem act h other off r g =
      let (s, same, _) = activated m n e pem act h in
      off r (ground (arith, get-set m (event_key e) k s))

  abbrev pub apply_all :
      Map ReducedAuthorization
      → List MemberSigningKeyAuthorizationEvent
      → Result (Map ReducedAuthorization)
  apply_all = apply_events fingerprint is_canonical

  -- A retired key stays off through the events that the reduction takes.
  retired_stays :
      (es : List MemberSigningKeyAuthorizationEvent) (retired : List String)
      (m n : Map ReducedAuthorization) (k : String)
      → assert_not_retired retired es ≡ ok tt
      → apply_all m es ≡ ok n
      → contains retired k ≡ true
      → IsOff m k
      → IsOff n k
  unfolding assert_not_retired apply_events
  retired_stays [] retired m n k h g listed off = subst (λ z. IsOff z k) (eq_of_ok m n g) off
  retired_stays (e ∷ es) retired m n k h g listed off =
      let (m', f, rest) = >>=-eq-ok (apply_one m e) _ g in
      elim (action-cases e.action) [
        | inr act ↦
            retired_stays es (event_key e ∷ retired) m' n k (rw (act, assert_not_retired) at h) rest
              (ground arith) (step-IsOff m m' e k act f (inl off))
        | inl (pem, act) ↦
            let (new, h') =
              throw_if-ok (contains retired (event_key e)) (identity retired_key) _
                (rw (act, assert_not_retired) at h) in
            let other : (event_key e == k) ≡ false = elim (Bool-cases (event_key e == k)) [
              | inl same ↦ absurd (ground (arith, eq_of_== (event_key e) k same))
              | inr apart ↦ apart
            ] in
            retired_stays es retired m' n k h' rest listed (step_on m m' e k pem act f other off)
      ]

  pub revoked-IsOff :
      (es : List MemberSigningKeyAuthorizationEvent) (retired : List String)
      (m n : Map ReducedAuthorization) (e : MemberSigningKeyAuthorizationEvent)
      → assert_not_retired retired es ≡ ok tt
      → apply_all m es ≡ ok n
      → Occurs e es
      → e.action ≡ revoke
      → IsOff n (event_key e)
  unfolding assert_not_retired apply_events
  revoked-IsOff [] retired m n e h g o act = absurd (Occurs-nil o)
  revoked-IsOff (x ∷ es) retired m n e h g (here same) act =
      let (m', f, rest) = >>=-eq-ok (apply_one m x) _ g in
      let acts : x.action ≡ revoke =
        ap (λ (y : MemberSigningKeyAuthorizationEvent). y.action) (sym same) ∙ act in
      let named : event_key x ≡ event_key e = ap event_key (sym same) in
      retired_stays es (event_key x ∷ retired) m' n (event_key e)
        (rw (acts, assert_not_retired) at h) rest (rw (named, ==_refl (event_key e)) refl)
        (step-IsOff m m' x (event_key e) acts f (inr named))
  revoked-IsOff (x ∷ es) retired m n e h g (there o) act =
      let (m', f, rest) = >>=-eq-ok (apply_one m x) _ g in
      elim (action-cases x.action) [
        | inr acts ↦
            revoked-IsOff es (event_key x ∷ retired) m' n e (rw (acts, assert_not_retired) at h)
              rest o act
        | inl (pem, acts) ↦
            let (_, h') =
              throw_if-ok (contains retired (event_key x)) (identity retired_key) _
                (rw (acts, assert_not_retired) at h) in
            revoked-IsOff es retired m' n e h' rest o act
      ]

  abbrev pub IsKept : Map ReducedAuthorization → Type 0
  IsKept m = IsKeyed key_of_reduced m × HasUniqueKeys m

  set-IsKept :
      (m : Map ReducedAuthorization) (k : String) (r : ReducedAuthorization)
      → key_of_reduced r ≡ k
      → IsKept m
      → IsKept (set m k r)
  set-IsKept m k r e (w, u) = (
    subst (λ j. IsKeyed key_of_reduced (set m j r)) e (set-IsKeyed key_of_reduced m r w),
    set-HasUniqueKeys m k r u,
  )

  step-IsKept :
      (m n : Map ReducedAuthorization) (e : MemberSigningKeyAuthorizationEvent)
      → apply_one m e ≡ ok n
      → IsKept m
      → IsKept n
  step-IsKept m n e h w = elim (action-cases e.action) [
    | inl (pem, act) ↦
        let (r, same, named) = activated m n e pem act h in
        rw same (set-IsKept m (event_key e) r named w)
    | inr act ↦ elim (revoked m n e act h) [
      | inl (missing, same) ↦ rw same w
      | inr (known, r, found, same, off) ↦
          let named : key_of_reduced known ≡ event_key e =
            get-IsKeyed m (event_key e) known w.0 found in
          let kept : key_of_reduced r ≡ event_key e =
            ap (λ (b : MemberSigningKeyAuthorization). key_for b.community_id b.member_id b.key_id)
              off
            ∙ named in
          rw same (set-IsKept m (event_key e) r kept w)
    ]
  ]

  pub applied-IsKept :
      (es : List MemberSigningKeyAuthorizationEvent) (m n : Map ReducedAuthorization)
      → apply_all m es ≡ ok n
      → IsKept m
      → IsKept n
  unfolding apply_events
  applied-IsKept [] m n h w = subst IsKept (eq_of_ok m n h) w
  applied-IsKept (e ∷ es) m n h w =
      let (m', f, rest) = >>=-eq-ok (apply_one m e) _ h in
      applied-IsKept es m' n rest (step-IsKept m m' e f w)
