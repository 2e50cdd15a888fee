-- ===== src/Records/Json/Normal.antt =====
-- The normal form of a JSON value is its own normal form.
use peer_hours.Prelude.{
  ◌≡◌, refl, ap, sym, true, false, String, List, [], ◌∷◌, arith, Result, ok, throw_if, >>=-eq-ok,
  Occurs, here, there, inl, inr, ◌∙◌, Occurs-nil, Bool-cases, text_equality, ◌==◌, envelope,
  proto_key,
}
use peer_hours.Script.Order.{units_before}
use peer_hours.Script.Order.Laws.{units_before_irrefl, units_before_trans}
use peer_hours.Script.Sort.{sort}
use peer_hours.Script.Sort.Laws.{sort-Occurs, sort-sort}
use peer_hours.Records.Json.{
  Json, null, boolean, number, text, array, object, Items, nil, item, Members, end, member, by_key,
  collect_members, normalize_json, normalize_items, normalize_members,
}

by_key_asym : (a b : String × Result Json) → by_key a b ≡ true → by_key b a ≡ false
by_key_asym (j, v) (k, w) h = elim (Bool-cases (units_before k j)) [
  | inl back ↦ absurd (units_before_irrefl j (units_before_trans j k j h back))
  | inr e ↦ e
]

-- What a member's value normalizes to is normal.
abbrev IsFixed : List (String × Result Json) → Type 0
IsFixed ms =
    (k : String) (r : Result Json) (v : Json)
    → Occurs (k, r) ms
    → r ≡ ok v
    → normalize_json v ≡ ok v

-- The collected members normalize to the list they were collected from.
normalize_members-collect_members :
    (ms : List (String × Result Json)) (ns : Members)
    → IsFixed ms
    → collect_members ms ≡ ok ns
    → normalize_members ns ≡ ms
unfolding collect_members normalize_members
normalize_members-collect_members [] ns fixed h = let e : end ≡ ns = ground arith in rw (← e) refl
normalize_members-collect_members ((k, r) ∷ ms) ns fixed h =
    let (u, p, h₁) = >>=-eq-ok (throw_if (k == "__proto__") (envelope proto_key)) _ h in
    let (v, q, h₂) = >>=-eq-ok r _ h₁ in
    let (rest, f, h₃) = >>=-eq-ok (collect_members ms) _ h₂ in
    let e : member k v rest ≡ ns = ground arith in
    let later = normalize_members-collect_members ms rest (λ j s w o. fixed j s w (there o)) f in
    rw (← e, later, fixed k r v (here refl) q, q) refl

mutual
  unfolding normalize_json normalize_items normalize_members

  normalize_json-normal : (j k : Json) → normalize_json j ≡ ok k → normalize_json k ≡ ok k
  normalize_json-normal null k h = ground arith
  normalize_json-normal (boolean b) k h = ground arith
  normalize_json-normal (number n) k h = ground arith
  normalize_json-normal (text s) k h = ground arith
  normalize_json-normal (array items) k h =
      let (normalized, e, f) = >>=-eq-ok (normalize_items items) _ h in
      let again = normalize_items-normal items normalized e in
      let g : array normalized ≡ k = ground arith in rw (← g, again) refl
  normalize_json-normal (object members) k h =
      let listed = sort by_key (normalize_members members) in
      let (normalized, e, f) = >>=-eq-ok (collect_members listed) _ h in
      let g : object normalized ≡ k = ground arith in
      let fixed : IsFixed listed = λ j r v o.
        members-IsFixed members j r v (sort-Occurs by_key (normalize_members members) o) in
      let same : normalize_members normalized ≡ listed =
        normalize_members-collect_members listed normalized fixed e in
      rw (← g, same, sort-sort by_key by_key_asym (normalize_members members), e) refl

  normalize_items-normal : (xs ys : Items) → normalize_items xs ≡ ok ys → normalize_items ys ≡ ok ys
  normalize_items-normal nil ys h = ground arith
  normalize_items-normal (item j rest) ys h =
      let (v, e, h₁) = >>=-eq-ok (normalize_json j) _ h in
      let (vs, f, h₂) = >>=-eq-ok (normalize_items rest) _ h₁ in
      let g : item v vs ≡ ys = ground arith in
      rw (← g, normalize_json-normal j v e, normalize_items-normal rest vs f) refl

  members-IsFixed : (ms : Members) → IsFixed (normalize_members ms)
  members-IsFixed end k r v o h = absurd (Occurs-nil o)
  members-IsFixed (member j value rest) k r v (here e) h =
      normalize_json-normal value v (sym (ap (λ (p : String × Result Json). p.1) e) ∙ h)
  members-IsFixed (member j value rest) k r v (there o) h = members-IsFixed rest k r v o h

-- Normalizing twice is normalizing once: a value that normalizes without error gives a value that
-- normalizes to itself.
pub normalize_json_again : (j k : Json) → normalize_json j ≡ ok k → normalize_json k ≡ ok k
normalize_json_again = normalize_json-normal
