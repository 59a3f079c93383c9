-- ===== src/Contracts/Json/Order.antt =====
-- The canonical form (canonicalize of json.ts) and the order in which an object has its keys.
use browser_cortex.Common.{
  ◌≡◌, ◌≢◌, ◌↔◌, Option, none, some, refl, sym, ap, ap₂, ◌∙◌, ◌⊎◌, inl, inr, true, false, List, [],
  ◌∷◌, ◌++◌, map, Text, arith, text_le, leb, Bool-cases,
}
use browser_cortex.Contracts.Json.{
  JsonValue, array, object, Items, no_items, item, Fields, no_fields, field, item_count,
  field_count, CanonicalizeLimits, behind, assert_json_value, canonicalize, serialize,
  serialize_items, serialize_fields, insert_key, sort_keys, members, join_commas, member,
}
use browser_cortex.Contracts.Schemas.{utf8_byte_length}
use browser_cortex.Contracts.Json.Fits.{
  height, height_items, height_fields, entry_count, entry_count_items, entry_count_fields, IsClean,
  AreCleanItems, AreCleanFields, assert_json_value_iff,
}

-- Two values that differ in the order of the keys of their objects only, at any depth. The keys of
-- one object differ.
mutual
  pub data Same : JsonValue → JsonValue → Type 0 where
    same : (v : JsonValue) → Same v v
    arrays : (xs ys : Items) → SameItems xs ys → Same (array xs) (array ys)
    objects : (fs gs : Fields) → SameFields fs gs → Same (object fs) (object gs)

  pub data SameItems : Items → Items → Type 0 where
    none_left : SameItems no_items no_items
    both :
        (v w : JsonValue) (xs ys : Items)
        → Same v w
        → SameItems xs ys
        → SameItems (item v xs) (item w ys)

  pub data SameFields : Fields → Fields → Type 0 where
    no_more : SameFields no_fields no_fields
    under :
        (key : Text) (v w : JsonValue) (fs gs : Fields)
        → Same v w
        → SameFields fs gs
        → SameFields (field key v fs) (field key w gs)
    swapped :
        (key key' : Text) (v w : JsonValue) (fs : Fields)
        → key ≢ key'
        → SameFields (field key v (field key' w fs)) (field key' w (field key v fs))
    through : (fs gs hs : Fields) → SameFields fs gs → SameFields gs hs → SameFields fs hs

text_le_total : (a b : Text) → text_le a b ≡ false → text_le b a ≡ true
unfolding text_le
text_le_total [] b h = absurd (cc)
text_le_total (x ∷ a) [] h = refl
text_le_total (x ∷ a) (y ∷ b) h = ground (arith, text_le_total a b)

text_le_antisym : (a b : Text) → text_le a b ≡ true → text_le b a ≡ true → a ≡ b
unfolding text_le
text_le_antisym [] [] h k = refl
text_le_antisym [] (y ∷ b) h k = absurd (cc)
text_le_antisym (x ∷ a) [] h k = absurd (cc)
text_le_antisym (x ∷ a) (y ∷ b) h k =
    ap₂ ◌∷◌ (ground arith) (text_le_antisym a b (ground arith) (ground arith))

text_le_trans : (a b c : Text) → text_le a b ≡ true → text_le b c ≡ true → text_le a c ≡ true
unfolding text_le
text_le_trans [] b c h k = refl
text_le_trans (x ∷ a) [] c h k = absurd (cc)
text_le_trans (x ∷ a) (y ∷ b) [] h k = absurd (cc)
text_le_trans (x ∷ a) (y ∷ b) (z ∷ c) h k = ground (arith, text_le_trans a b c)

text_le-cases :
    (a b : Text)
    → a ≢ b
    → ((text_le a b ≡ true) × (text_le b a ≡ false))
      ⊎ ((text_le a b ≡ false) × (text_le b a ≡ true))
text_le-cases a b d = elim (Bool-cases (text_le a b)) [
  | inl below ↦ elim (Bool-cases (text_le b a)) [
    | inl above ↦ absurd (d (text_le_antisym a b below above))
    | inr not_above ↦ inl (below, not_above)
  ]
  | inr not_below ↦ inr (not_below, text_le_total a b not_below)
]

-- Keys that are put into a sorted list, the smaller one last or first.
insert_ordered :
    (e f : Text × Text) (rest : List (Text × Text))
    → text_le e.0 f.0 ≡ true
    → text_le f.0 e.0 ≡ false
    → insert_key e (insert_key f rest) ≡ insert_key f (insert_key e rest)
unfolding insert_key
insert_ordered e f [] h k = ground arith
insert_ordered e f (g ∷ rest) h k = elim (Bool-cases (text_le f.0 g.0)) [
  | inl below ↦ ground (arith, text_le_trans e.0 f.0 g.0 h below)
  | inr above ↦ ground (arith, insert_ordered e f rest h k)
]

insert_swap :
    (e f : Text × Text) (rest : List (Text × Text))
    → e.0 ≢ f.0
    → insert_key e (insert_key f rest) ≡ insert_key f (insert_key e rest)
insert_swap e f rest d = elim (text_le-cases e.0 f.0 d) [
  | inl (h, k) ↦ insert_ordered e f rest h k
  | inr (k, h) ↦ sym (insert_ordered f e rest h k)
]

abbrev array_text : List Text → Text
array_text ts = b'[' ∷ (join_commas ts ++ b']' ∷ [])

abbrev sorted_text : List (Text × Text) → Text
sorted_text es = b'{' ∷ (join_commas (map member es) ++ b'}' ∷ [])

mutual
  unfolding serialize members sort_keys

  -- Two values that differ in the order of keys only have the same text.
  pub serialize-Same : (v w : JsonValue) → Same v w → serialize v ≡ serialize w
  serialize-Same _ _ (same v) = refl
  serialize-Same _ _ (arrays xs ys h) = ap array_text (serialize_items-Same xs ys h)
  serialize-Same _ _ (objects fs gs h) = ap sorted_text (sort-Same fs gs h)

  serialize_items-Same : (xs ys : Items) → SameItems xs ys → serialize_items xs ≡ serialize_items ys
  serialize_items-Same _ _ none_left = refl
  serialize_items-Same _ _ (both v w xs' ys' h k) =
      ap₂ ◌∷◌ (serialize-Same v w h) (serialize_items-Same xs' ys' k)

  sort-Same :
      (fs gs : Fields)
      → SameFields fs gs
      → sort_keys (serialize_fields fs) ≡ sort_keys (serialize_fields gs)
  sort-Same _ _ no_more = refl
  sort-Same _ _ (under key v w fs' gs' h k) =
      ap₂ (λ t es. insert_key (key, t) es) (serialize-Same v w h) (sort-Same fs' gs' k)
  sort-Same _ _ (swapped key key' v w rest d) =
      insert_swap (key, serialize v) (key', serialize w) (sort_keys (serialize_fields rest)) d
  sort-Same _ _ (through fs gs' gs h k) = sort-Same fs gs' h ∙ sort-Same gs' gs k

mutual
  unfolding height

  height-Same : (v w : JsonValue) → Same v w → height v ≡ height w
  height-Same _ _ (same v) = refl
  height-Same _ _ (arrays xs ys h) = height_items-Same xs ys h
  height-Same _ _ (objects fs gs h) = height_fields-Same fs gs h

  height_items-Same : (xs ys : Items) → SameItems xs ys → height_items xs ≡ height_items ys
  height_items-Same _ _ none_left = refl
  height_items-Same _ _ (both v w xs ys h k) =
      omega (arith, height-Same v w h, height_items-Same xs ys k)

  height_fields-Same : (fs gs : Fields) → SameFields fs gs → height_fields fs ≡ height_fields gs
  height_fields-Same _ _ no_more = refl
  height_fields-Same _ _ (under key v w fs gs h k) =
      omega (arith, height-Same v w h, height_fields-Same fs gs k)
  height_fields-Same _ _ (swapped key key' v w rest d) = omega arith
  height_fields-Same fs hs (through fs' gs hs' h k) =
      height_fields-Same fs' gs h ∙ height_fields-Same gs hs' k

mutual
  unfolding entry_count item_count field_count

  entry_count-Same : (v w : JsonValue) → Same v w → entry_count v ≡ entry_count w
  entry_count-Same _ _ (same v) = refl
  entry_count-Same _ _ (arrays xs ys h) = omega (arith, entry_count_items-Same xs ys h)
  entry_count-Same _ _ (objects fs gs h) = omega (arith, entry_count_fields-Same fs gs h)

  entry_count_items-Same :
      (xs ys : Items)
      → SameItems xs ys
      → (item_count xs ≡ item_count ys) × (entry_count_items xs ≡ entry_count_items ys)
  entry_count_items-Same _ _ none_left = (refl, refl)
  entry_count_items-Same _ _ (both v w xs ys h k) =
      let (a, b) = entry_count_items-Same xs ys k in
      (omega (arith, a), omega (arith, b, entry_count-Same v w h))

  entry_count_fields-Same :
      (fs gs : Fields)
      → SameFields fs gs
      → (field_count fs ≡ field_count gs) × (entry_count_fields fs ≡ entry_count_fields gs)
  entry_count_fields-Same _ _ no_more = (refl, refl)
  entry_count_fields-Same _ _ (under key v w fs gs h k) =
      let (a, b) = entry_count_fields-Same fs gs k in
      (omega (arith, a), omega (arith, b, entry_count-Same v w h))
  entry_count_fields-Same _ _ (swapped key key' v w rest d) = (refl, omega arith)
  entry_count_fields-Same _ _ (through fs gs hs h k) =
      let (a, b) = entry_count_fields-Same fs gs h in
      let (c, d) = entry_count_fields-Same gs hs k in (a ∙ c, b ∙ d)

mutual
  unfolding IsClean

  IsClean-Same :
      (limits : CanonicalizeLimits) (v w : JsonValue)
      → Same v w
      → IsClean limits v ↔ IsClean limits w
  IsClean-Same limits _ _ (same v) = (λ c. c, λ c. c)
  IsClean-Same limits _ _ (arrays xs ys h) = AreCleanItems-Same limits xs ys h
  IsClean-Same limits _ _ (objects fs gs h) = AreCleanFields-Same limits fs gs h

  AreCleanItems-Same :
      (limits : CanonicalizeLimits) (xs ys : Items)
      → SameItems xs ys
      → AreCleanItems limits xs ↔ AreCleanItems limits ys
  AreCleanItems-Same limits _ _ none_left = (λ c. c, λ c. c)
  AreCleanItems-Same limits _ _ (both v w xs ys h k) =
      let (a, b) = IsClean-Same limits v w h in
      let (a', b') = AreCleanItems-Same limits xs ys k in
      (λ c. (a c.0, a' c.1), λ c. (b c.0, b' c.1))

  AreCleanFields-Same :
      (limits : CanonicalizeLimits) (fs gs : Fields)
      → SameFields fs gs
      → AreCleanFields limits fs ↔ AreCleanFields limits gs
  AreCleanFields-Same limits _ _ no_more = (λ c. c, λ c. c)
  AreCleanFields-Same limits _ _ (under key v w fs gs h k) =
      let (a, b) = IsClean-Same limits v w h in
      let (a', b') = AreCleanFields-Same limits fs gs k in
      (λ c. (c.0, a c.1, a' c.2), λ c. (c.0, b c.1, b' c.2))
  AreCleanFields-Same limits _ _ (swapped key key' v w rest d) =
      (λ c. (c.2.0, c.2.1, (c.0, c.1, c.2.2)), λ c. (c.2.0, c.2.1, (c.0, c.1, c.2.2)))
  AreCleanFields-Same limits _ _ (through fs gs hs h k) =
      let (a, b) = AreCleanFields-Same limits fs gs h in
      let (a', b') = AreCleanFields-Same limits gs hs k in (λ c. a' (a c), λ c. b (b' c))

-- A test that returns for one value and for another alike has one result.
one_result :
    (a b : Option (Unit {0})) → (a ≡ some tt → b ≡ some tt) → (b ≡ some tt → a ≡ some tt) → a ≡ b
one_result none none h k = refl
one_result (some a) (some b) h k = refl
one_result none (some b) h k = k refl
one_result (some a) none h k = sym (h refl)

assert_json_value-Same :
    (limits : CanonicalizeLimits) (v w : JsonValue)
    → Same v w
    → assert_json_value limits v ≡ assert_json_value limits w
assert_json_value-Same limits v w h =
    let (a, b) = assert_json_value_iff limits v in
    let (a', b') = assert_json_value_iff limits w in
    let (c, c') = IsClean-Same limits v w h in
    let e = height-Same v w h in
    let e' = entry_count-Same v w h in
    one_result _ _ (λ r. let p = a r in b' (omega (arith, e, p.0), omega (arith, e', p.1), c p.2))
      (λ r. let p = a' r in b (omega (arith, e, p.0), omega (arith, e', p.1), c' p.2))

-- Two values that differ only in the order of the keys of their objects, at any depth, have the same
-- canonical text, or canonicalize throws for both.
pub canonicalize-Same :
    (limits : CanonicalizeLimits) (v w : JsonValue)
    → Same v w
    → canonicalize limits v ≡ canonicalize limits w
unfolding canonicalize
canonicalize-Same limits v w h =
    ap₂
      (λ checked serialized. elim checked [
        | none ↦ none
        | some _ ↦ behind (leb (utf8_byte_length serialized) limits.max_bytes) (some serialized)
      ])
      (assert_json_value-Same limits v w h) (serialize-Same v w h)
