-- ===== src/Records/Timebank/Reduced.antt =====
-- The reduction of a kind's records sees them as a set, and gives what they decode to.
use peer_hours.Prelude.{
  Bool, String, ◌≡◌, ◌≢◌, ◌↔◌, refl, Error, false, List, [], arith, Ordering, Occurs, SameSet,
  Result, ok, text_equality, ◌!=◌, >>=-eq-ok, throw_if-ok, ==_refl, eq_of_==, eq_of_ok, mapping,
  MappingRule,
}
use peer_hours.Script.Text.{is_blank}
use peer_hours.Script.Map.{Map, values}
use peer_hours.Script.Sort.{sort}
use peer_hours.Script.Sort.Laws.{sort-Occurs, Occurs-sort}
use peer_hours.Script.Collation.{Collation, before, before_irrefl, before_trans}
use peer_hours.Script.Collect.{collect, collect_same, Occurs-values_iff}
use peer_hours.Script.Collect.Order.{Separates, sort-values_same}
use peer_hours.Records.Json.{Json}
use peer_hours.Records.Timebank.{RecordForm, decode_record, decode_own, by_id, reduce_records}

module _ (is_canonical : String → Bool) {T : Type 0} (form : RecordForm T) where
  decode_own_iff :
      (community : String) (j : Json) (t : T)
      → (decode_own is_canonical form community j ≡ ok t)
        ↔ ((decode_record is_canonical form j ≡ ok t) × (form.community_of t ≡ community))
  unfolding decode_own
  decode_own_iff community j t = (
    λ h.
        let (u, e, f) = >>=-eq-ok (decode_record is_canonical form j) _ h in
        let (own, g) =
          throw_if-ok (form.community_of u != community)
            (mapping (MappingRule.foreign_record form.label)) _ f in
        let same : u ≡ t = eq_of_ok u t g in
        (rw (← same) e, rw (← same) (eq_of_== (form.community_of u) community (ground arith))),
    λ (e, f). rw (e, f, ==_refl community) refl,
  )

  module _ (c : Collation) (id_of : T → String) ⦃d : Discrete T⦄ (community : String) where
    -- The collation tells the different ids of the decoded records apart.
    abbrev pub TellsValuesApart : List Json → Type 0
    TellsValuesApart js =
        (i j : Json) (t u : T)
        → Occurs i js
        → Occurs j js
        → decode_record is_canonical form i ≡ ok t
        → decode_record is_canonical form j ≡ ok u
        → id_of t ≢ id_of u
        → c.locale_compare (id_of t) (id_of u) ≢ Ordering.eq

    abbrev own : Json → Result T
    own = decode_own is_canonical form community

    abbrev clash : Error
    clash = mapping (MappingRule.conflicting form.label)

    abbrev earlier : T → T → Bool
    earlier = by_id is_canonical form c id_of

    reduce-parts :
        (js : List Json) (r : List T)
        → reduce_records is_canonical form c id_of js community ≡ ok r
        → (is_blank community ≡ false)
          × ((m : Map T) × (collect own id_of clash [] js ≡ ok m) × (sort earlier (values m) ≡ r))
    unfolding reduce_records
    reduce-parts js r h =
        let (named, f) =
          throw_if-ok (is_blank community) (mapping (MappingRule.required "Community id")) _ h in
        let (m, e, g) = >>=-eq-ok (collect own id_of clash [] js) _ f in
        (named, (m, e, eq_of_ok (sort earlier (values m)) r g))

    -- The reduction gives exactly what the records decode to, each of the given community.
    pub reduce_records_iff :
        (js : List Json) (r : List T) (t : T)
        → reduce_records is_canonical form c id_of js community ≡ ok r
        → Occurs t r ↔ (
            (j : Json) × Occurs j js
            × (decode_record is_canonical form j ≡ ok t)
            × (form.community_of t ≡ community))
    reduce_records_iff js r t h =
        let (named, (m, e, s)) = reduce-parts js r h in
        let known = Occurs-values_iff own id_of clash js m t e in
        (
          λ o.
              let (j, at, f) = known.0 (sort-Occurs earlier (values m) (rw s o)) in
              let (decoded, ours) = (decode_own_iff community j t).0 f in (j, at, decoded, ours),
          λ (j, at, decoded, ours). rw (← s) (
              Occurs-sort earlier
                (known.1 (j, at, (decode_own_iff community j t).1 (decoded, ours)))),
        )

    values-Separates :
        (js : List Json) (m : Map T)
        → collect own id_of clash [] js ≡ ok m
        → TellsValuesApart js
        → Separates id_of earlier (values m)
    unfolding before
    values-Separates js m h apart a b o p n =
        let source = λ (t : T). (Occurs-values_iff own id_of clash js m t h).0 in
        let (i, at, e) = source a o in
        let (j, at', e') = source b p in
        let told =
          apart i j a b at at' ((decode_own_iff community i a).0 e).0
            ((decode_own_iff community j b).0 e').0 n in
        ground (arith, c.swapped (id_of a) (id_of b))

    -- If a community's records of one kind reduce, the same records in any other order, and however
    -- often each is repeated, reduce too, and to the same values in the same order. The collation
    -- is to tell the different ids apart.
    pub reduce_records_same :
        (js ks : List Json) (r : List T)
        → SameSet js ks
        → TellsValuesApart js
        → reduce_records is_canonical form c id_of js community ≡ ok r
        → reduce_records is_canonical form c id_of ks community ≡ ok r
    unfolding reduce_records
    reduce_records_same js ks r same apart h =
        let (named, (m, e, s)) = reduce-parts js r h in
        let (n, g, _) = collect_same own id_of clash js ks m same e in
        let sorted =
          sort-values_same id_of earlier (λ t. before_irrefl c (id_of t))
            (λ t u v. before_trans c (id_of t) (id_of u) (id_of v)) own clash js ks m n same e g
            (values-Separates js m e apart) in
        rw (named, g, ← sorted, s) refl
