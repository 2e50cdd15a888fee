-- ===== src/Peers/Receipts/Pinned.antt =====
-- What a receipt that verifies is: packages/peer-runtime/src/replication-receipt.ts.
use peer_hours.Prelude.{
  true, ◌&&◌, String, Option, none, some, List, [], ◌∷◌, Occurs, here, there, ◌≡◌, refl, inl, inr,
  ◌==◌, text_equality, eq_of_==, Bool-cases, ok, Result-cases, arith,
}
use peer_hours.Identity.Verifier.{or_false}
use peer_hours.Records.Json.{Json}
use peer_hours.Peers.Receipts.{
  CommunityReceiptNode, ReceiptTerms, SignedReplicationReceipt, Platform, Expected, is_expected,
  lowered, is_trusted, normalize_receipt, verify_normalized, verify_replication_receipt,
}

is_trusted-Occurs :
    (nodes : List CommunityReceiptNode) (r : ReceiptTerms)
    → is_trusted nodes r ≡ true
    → (n : CommunityReceiptNode) × Occurs n nodes
      × (n.node_id ≡ r.node_id)
      × (n.public_key ≡ r.public_key)
unfolding is_trusted
is_trusted-Occurs [] r h = cc
is_trusted-Occurs (n ∷ nodes) r h =
    elim (Bool-cases (n.node_id == r.node_id && n.public_key == r.public_key)) [
      | inl same ↦ (
        n,
        here refl,
        eq_of_== n.node_id r.node_id (ground arith),
        eq_of_== n.public_key r.public_key (ground arith),
      )
      | inr other ↦
          let (m, o, e, f) = is_trusted-Occurs nodes r (ground arith) in (m, there o, e, f)
    ]

-- A value that is expected is the actual one.
abbrev pub Meets : Option String → String → Type 0
Meets none actual = Unit
Meets (some expected) actual = actual ≡ expected

is_expected-Meets : (o : Option String) (s : String) → is_expected o s ≡ true → Meets o s
is_expected-Meets none s h = tt
is_expected-Meets (some t) s h = eq_of_== s t h

module _ (pf : Platform) where
  -- A receipt that verifies reads as a receipt that names a node among those that are trusted, with
  -- its public key, and the node's signature verifies under this key for the community, the
  -- transfer, the digest and the time of the receipt; the community, the transfer and the digest
  -- are those that were expected, where any were.
  pub verify_replication_receipt-IsPinned :
      (value : Option Json) (nodes : List CommunityReceiptNode) (expected : Expected)
      → verify_replication_receipt pf value nodes expected ≡ true
      → (r : SignedReplicationReceipt) × (normalize_receipt pf value ≡ ok r)
        × Meets expected.community_id r.community_id
        × Meets expected.transfer_id r.transfer_id
        × Meets (lowered expected.transfer_digest) r.transfer_digest
        × ((n : CommunityReceiptNode) × Occurs n nodes
            × (n.node_id ≡ r.node_id)
            × (n.public_key ≡ r.public_key))
        × (pf.verify r.terms r.public_key r.signature ≡ ok true)
  unfolding verify_replication_receipt
  verify_replication_receipt-IsPinned value nodes expected h =
      elim (Result-cases (normalize_receipt pf value)) [
        | inr (x, e) ↦ absurd (ground arith)
        | inl (r, e) ↦
            let v : or_false (verify_normalized pf r nodes expected) ≡ true =
              rw (e, or_false) at h in
            let a : is_expected expected.community_id r.community_id ≡ true = ground arith in
            let b : is_expected expected.transfer_id r.transfer_id ≡ true = ground arith in
            let c : is_expected (lowered expected.transfer_digest) r.transfer_digest ≡ true =
              ground arith in
            let d : is_trusted nodes r.terms ≡ true = ground arith in
            let f : pf.verify r.terms r.public_key r.signature ≡ ok true = ground arith in
            (
              r,
              e,
              is_expected-Meets expected.community_id r.community_id a,
              is_expected-Meets expected.transfer_id r.transfer_id b,
              is_expected-Meets (lowered expected.transfer_digest) r.transfer_digest c,
              is_trusted-Occurs nodes r.terms d,
              f,
            )
      ]
