-- ===== src/Peers/Manifest/Bounded.antt =====
-- What the parsers of packages/peer-runtime/src/index.ts bound.
use peer_hours.Prelude.{
  ℕ, ltb, ◌≤◌, false, List, [], ◌∷◌, length, map, String, Option, none, some, ◌≡◌, refl, Result, ok,
  throw_if-ok, >>=-eq-ok, eq_of_ok, arith, text_equality, contains-Occurs, Occurs,
}
use peer_hours.Records.Json.{Json, null, boolean, number, text, array, object, field}
use peer_hours.Peers.Receipts.{Platform, normalize_community_receipt_node, CommunityReceiptNode}
use peer_hours.Peers.Manifest.{
  CommunityManifest, max_bootstrap_nodes, has_duplicates, each, valid_bootstrap_nodes,
  valid_receipt_nodes, receipt_nodes_of, parse_community_manifest, as_array, as_json_record,
  valid_operational_url,
}

pub length-each {ℓ κ} :
    {A : Type ℓ} {B : Type κ} (f : A → Result B) (xs : List A) (ys : List B)
    → each f xs ≡ ok ys
    → length ys ≡ length xs
unfolding each
length-each f [] ys h = let e = eq_of_ok [] ys h in rw (← e) refl
length-each f (x ∷ xs) ys h =
    let (y, _, h₁) = >>=-eq-ok (f x) _ h in
    let (zs, g, h₂) = >>=-eq-ok (each f xs) _ h₁ in
    let e = eq_of_ok (y ∷ zs) ys h₂ in rw (← e) (omega (arith, length-each f xs zs g))

-- No item stands twice.
abbrev pub IsDistinct : List String → Type 0
IsDistinct [] = Unit
IsDistinct (x ∷ xs) = ¬ (Occurs x xs) × IsDistinct xs

pub has_duplicates-IsDistinct : (xs : List String) → has_duplicates xs ≡ false → IsDistinct xs
unfolding has_duplicates
has_duplicates-IsDistinct [] h = tt
has_duplicates-IsDistinct (x ∷ xs) h =
    (λ o. ground (arith, contains-Occurs o), has_duplicates-IsDistinct xs (ground arith))

abbrev pub IsBounded : List String → Type 0
IsBounded xs = (length xs ≤ 16) × IsDistinct xs

le_of_ltb : (n m : ℕ) → ltb n m ≡ false → m ≤ n
le_of_ltb n m h = ground arith

length-map {ℓ κ} :
    {A : Type ℓ} {B : Type κ} (f : A → B) (xs : List A) → length (map f xs) ≡ length xs
length-map f [] = refl
length-map f (x ∷ xs) = omega (arith, length-map f xs)

module _ (pf : Platform) where
  bootstrap_nodes-IsBounded :
      (value : Option Json) (nodes : List String)
      → valid_bootstrap_nodes pf value ≡ ok nodes
      → IsBounded nodes
  unfolding valid_bootstrap_nodes
  bootstrap_nodes-IsBounded value nodes h =
      let (values, _, h₁) = >>=-eq-ok (as_array value "bootstrapNodes") _ h in
      let (few, h₂) = throw_if-ok (ltb max_bootstrap_nodes (length values)) _ _ h₁ in
      let (ys, each_ok, h₃) =
        >>=-eq-ok (each (λ node. valid_operational_url pf node "bootstrapNodes") values) _ h₂ in
      let (single, h₄) = throw_if-ok (has_duplicates ys) _ _ h₃ in
      let e = eq_of_ok ys nodes h₄ in
      let n =
        length-each (λ node. valid_operational_url pf node "bootstrapNodes") values ys each_ok in
      let l = le_of_ltb 16 (length values) few in
      rw (← e) (omega arith, has_duplicates-IsDistinct ys single)

  receipt_nodes-IsBounded :
      (value : Option Json) (nodes : List CommunityReceiptNode)
      → receipt_nodes_of pf value ≡ ok nodes
      → IsBounded (map (λ n. n.node_id) nodes) × IsBounded (map (λ n. n.receipt_url) nodes)
  receipt_nodes-IsBounded value nodes h =
      let (values, _, h₁) = >>=-eq-ok (as_array value "receiptNodes") _ h in
      let (few, h₂) = throw_if-ok (ltb max_bootstrap_nodes (length values)) _ _ h₁ in
      let (ys, each_ok, h₃) =
        >>=-eq-ok (each (λ node. normalize_community_receipt_node pf node "receiptNodes") values) _
          h₂ in
      let (ids, h₄) = throw_if-ok (has_duplicates (map (λ n. n.node_id) ys)) _ _ h₃ in
      let (urls, h₅) = throw_if-ok (has_duplicates (map (λ n. n.receipt_url) ys)) _ _ h₄ in
      let e = eq_of_ok ys nodes h₅ in
      let n =
        length-each (λ node. normalize_community_receipt_node pf node "receiptNodes") values ys
          each_ok in
      let l = le_of_ltb 16 (length values) few in
      rw (← e) (
        (
          omega (arith, length-map (λ (n : CommunityReceiptNode). n.node_id) ys),
          has_duplicates-IsDistinct _ ids,
        ),
        (
          omega (arith, length-map (λ (n : CommunityReceiptNode). n.receipt_url) ys),
          has_duplicates-IsDistinct _ urls,
        ),
      )

  valid_receipt_nodes-IsBounded :
      (value : Option Json) (nodes : List CommunityReceiptNode)
      → valid_receipt_nodes pf value ≡ ok nodes
      → IsBounded (map (λ n. n.node_id) nodes) × IsBounded (map (λ n. n.receipt_url) nodes)
  unfolding valid_receipt_nodes
  valid_receipt_nodes-IsBounded none nodes h =
      let e = eq_of_ok [] nodes h in rw (← e) ((omega arith, tt), (omega arith, tt))
  valid_receipt_nodes-IsBounded (some null) nodes h =
      let e = eq_of_ok [] nodes h in rw (← e) ((omega arith, tt), (omega arith, tt))
  valid_receipt_nodes-IsBounded (some (boolean b)) nodes h =
      receipt_nodes-IsBounded (some (boolean b)) nodes h
  valid_receipt_nodes-IsBounded (some (number n)) nodes h =
      receipt_nodes-IsBounded (some (number n)) nodes h
  valid_receipt_nodes-IsBounded (some (text s)) nodes h =
      receipt_nodes-IsBounded (some (text s)) nodes h
  valid_receipt_nodes-IsBounded (some (array xs)) nodes h =
      receipt_nodes-IsBounded (some (array xs)) nodes h
  valid_receipt_nodes-IsBounded (some (object ms)) nodes h =
      receipt_nodes-IsBounded (some (object ms)) nodes h

  -- A manifest that parses has at most 16 bootstrap nodes and at most 16 receipt nodes, no
  -- bootstrap node twice, and no node identity and no receipt URL twice.
  pub parse_community_manifest-IsBounded :
      (value : Json) (m : CommunityManifest)
      → parse_community_manifest pf value ≡ ok m
      → IsBounded m.bootstrap_nodes
        × IsBounded (map (λ n. n.node_id) m.receipt_nodes)
        × IsBounded (map (λ n. n.receipt_url) m.receipt_nodes)
  unfolding parse_community_manifest
  parse_community_manifest-IsBounded value m h =
      let (payload, _, h₁) = >>=-eq-ok (as_json_record value) _ h in
      let a : valid_bootstrap_nodes pf (field payload "bootstrapNodes") ≡ ok m.bootstrap_nodes =
        ground arith in
      let b : valid_receipt_nodes pf (field payload "receiptNodes") ≡ ok m.receipt_nodes =
        ground arith in
      let (ids, urls) =
        valid_receipt_nodes-IsBounded (field payload "receiptNodes") m.receipt_nodes b in
      (bootstrap_nodes-IsBounded (field payload "bootstrapNodes") m.bootstrap_nodes a, ids, urls)
