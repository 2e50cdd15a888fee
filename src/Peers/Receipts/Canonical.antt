-- ===== src/Peers/Receipts/Canonical.antt =====
-- The canonical form of a JSON value that a digest is taken of: canonicalJson of
-- packages/peer-runtime/src/replication-receipt.ts.
use peer_hours.Prelude.{
  not, String, List, [], ◌∷◌, Result, ok, throw_if, ◌>>=◌, ◌>>◌, receipt, bad_number,
}
use peer_hours.Script.Number.{is_finite}
use peer_hours.Script.Sort.{sort}
use peer_hours.Records.Json.{
  Json, null, boolean, number, text, array, object, Items, nil, item, Members, end, member, by_key,
}

-- The members up to the first error, as `map` meets them.
unfoldable pub joined_members : List (String × Result Json) → Result Members
joined_members [] = ok end
joined_members ((key, value) ∷ rest) = do
  canonical ← value
  members ← joined_members rest
  ok (member key canonical members)

unfoldable mutual
  pub canonical_json : Json → Result Json
  canonical_json null = ok null
  canonical_json (boolean b) = ok (boolean b)
  canonical_json (text s) = ok (text s)
  canonical_json (number n) = do throw_if (not (is_finite n)) (receipt bad_number); ok (number n)
  canonical_json (array items) = do canonical ← canonical_items items; ok (array canonical)
  canonical_json (object members) = do
    canonical ← joined_members (sort by_key (canonical_members members))
    ok (object canonical)

  pub canonical_items : Items → Result Items
  canonical_items nil = ok nil
  canonical_items (item value rest) = do
    canonical ← canonical_json value
    items ← canonical_items rest
    ok (item canonical items)

  pub canonical_members : Members → List (String × Result Json)
  canonical_members end = []
  canonical_members (member key value rest) = (key, canonical_json value) ∷ canonical_members rest
