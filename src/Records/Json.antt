-- ===== src/Records/Json.antt =====
-- JSON values and their normal form: `normalizeJson` of packages/timebank-records/src/envelope.ts.
-- An object is the list of its members, and `field` reads the first one of a name: the keys of a
-- JavaScript object are distinct. The objects of the records are plain, so the tests for accessors
-- and for other prototypes are left out.
pub mod Normal
use peer_hours.Prelude.{
  Bool, not, String, String-discrete, Option, none, some, List, [], ◌∷◌, if◌then◌else◌, ◌==◌,
  text_equality, Result, ok, throw_if, ◌>>=◌, ◌>>◌, envelope, bad_number, proto_key,
}
use peer_hours.Script.Number.{Number, Number-discrete, is_finite}
use peer_hours.Script.Order.{units_before}
use peer_hours.Script.Sort.{sort}

mutual
  pub data Json : Type 0 where
    null : Json
    boolean : Bool → Json
    number : Number → Json
    text : String → Json
    array : Items → Json
    object : Members → Json

  pub data Items : Type 0 where
    nil : Items
    item : Json → Items → Items

  pub data Members : Type 0 where
    end : Members
    member : String → Json → Members → Members

instance unfoldable pub Json-discrete : Discrete Json
unfolding String-discrete Number-discrete
Json-discrete = hlevel (String-discrete, Number-discrete)

-- A property of an object; a missing one is undefined.
unfoldable pub field : Members → String → Option Json
field end k = none
field (member j v ms) k = if j == k then some v else field ms k

-- `Object.keys(value).sort()` compares the code units of the keys.
abbrev pub by_key : String × Result Json → String × Result Json → Bool
by_key (j, v) (k, w) = units_before j k

-- The members in their sorted order, up to the first error.
unfoldable pub collect_members : List (String × Result Json) → Result Members
collect_members [] = ok end
collect_members ((key, value) ∷ rest) = do
  throw_if (key == "__proto__") (envelope proto_key)
  normalized ← value
  members ← collect_members rest
  ok (member key normalized members)

unfoldable mutual
  pub normalize_json : Json → Result Json
  normalize_json null = ok null
  normalize_json (boolean b) = ok (boolean b)
  normalize_json (number n) = do throw_if (not (is_finite n)) (envelope bad_number); ok (number n)
  normalize_json (text s) = ok (text s)
  normalize_json (array items) = do normalized ← normalize_items items; ok (array normalized)
  normalize_json (object members) = do
    normalized ← collect_members (sort by_key (normalize_members members))
    ok (object normalized)

  pub normalize_items : Items → Result Items
  normalize_items nil = ok nil
  normalize_items (item value rest) = do
    normalized ← normalize_json value
    items ← normalize_items rest
    ok (item normalized items)

  -- Each member with what its value normalizes to.
  pub normalize_members : Members → List (String × Result Json)
  normalize_members end = []
  normalize_members (member key value rest) = (key, normalize_json value) ∷ normalize_members rest
