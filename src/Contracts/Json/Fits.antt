-- ===== src/Contracts/Json/Fits.antt =====
-- What the check of a JSON value (assertJsonValue of json.ts) asks, read off the value.
use browser_cortex.Common.{
  ℕ, suc, ◌+◌, ◌≤◌, max, ◌≡◌, ◌↔◌, refl, Bool, true, false, Option, none, some, arith, length, leb,
  ◌∙◌, ap,
}
use browser_cortex.Contracts.Json.{
  JsonValue, null, undefined, boolean, number, string, array, object, Items, no_items, item, Fields,
  no_fields, field, item_count, field_count, CanonicalizeLimits, behind, then_visit, is_finite,
  is_clean_key, visit, visit_items, visit_fields, assert_json_value, returned,
}

-- How deep a value nests: a primitive value not at all.
unfoldable mutual
  pub height : JsonValue → ℕ
  height (array xs) = height_items xs
  height (object fs) = height_fields fs
  height _ = 0

  pub height_items : Items → ℕ
  height_items no_items = 0
  height_items (item v xs) = max (suc (height v)) (height_items xs)

  pub height_fields : Fields → ℕ
  height_fields no_fields = 0
  height_fields (field key v fs) = max (suc (height v)) (height_fields fs)

-- All items of all arrays and all fields of all objects.
unfoldable mutual
  unfolding item_count field_count

  pub entry_count : JsonValue → ℕ
  entry_count (array xs) = item_count xs + entry_count_items xs
  entry_count (object fs) = field_count fs + entry_count_fields fs
  entry_count _ = 0

  pub entry_count_items : Items → ℕ
  entry_count_items no_items = 0
  entry_count_items (item v xs) = entry_count v + entry_count_items xs

  pub entry_count_fields : Fields → ℕ
  entry_count_fields no_fields = 0
  entry_count_fields (field key v fs) = entry_count v + entry_count_fields fs

-- Every string and key within its bound, no key that is forbidden, every number finite, and nothing
-- that JSON does not have.
unfoldable mutual
  unfolding is_finite is_clean_key

  pub IsClean : CanonicalizeLimits → JsonValue → Type 0
  IsClean limits null = Unit
  IsClean limits undefined = ⊥
  IsClean limits (boolean b) = Unit
  IsClean limits (number n) = is_finite n ≡ true
  IsClean limits (string s) = length s ≤ limits.max_string_characters
  IsClean limits (array xs) = AreCleanItems limits xs
  IsClean limits (object fs) = AreCleanFields limits fs

  pub AreCleanItems : CanonicalizeLimits → Items → Type 0
  AreCleanItems limits no_items = Unit
  AreCleanItems limits (item v xs) = IsClean limits v × AreCleanItems limits xs

  pub AreCleanFields : CanonicalizeLimits → Fields → Type 0
  AreCleanFields limits no_fields = Unit
  AreCleanFields limits (field key v fs) =
      (is_clean_key limits key ≡ true) × IsClean limits v × AreCleanFields limits fs

behind-eq-some {ℓ} :
    {A : Type ℓ} (test : Bool) (rest : Option A) (a : A)
    → behind test rest ≡ some a
    → (test ≡ true) × (rest ≡ some a)
behind-eq-some true rest a h = (refl, h)
behind-eq-some false rest a h = absurd (cc)

then_visit-eq-some :
    (first : Option ℕ) (rest : ℕ → Option ℕ) (m : ℕ)
    → then_visit first rest ≡ some m
    → (n : ℕ) × (first ≡ some n) × (rest n ≡ some m)
then_visit-eq-some (some n) rest m h = (n, refl, h)
then_visit-eq-some none rest m h = absurd (cc)

-- What a visit that returns `after` has found, for a value of the given height and count.
abbrev Within : CanonicalizeLimits → ℕ → ℕ → ℕ → ℕ → ℕ → Type 0
Within limits height count depth before after =
    (depth + height ≤ limits.max_depth)
    × (before + count ≤ limits.max_entries)
    × (after ≡ before + count)

leaf-Within :
    (limits : CanonicalizeLimits) (depth before after : ℕ)
    → before ≤ limits.max_entries
    → behind (leb depth limits.max_depth) (some before) ≡ some after
    → Within limits 0 0 depth before after
leaf-Within limits depth before after b h = (ground arith, omega arith, ground arith)

mutual
  unfolding visit height entry_count IsClean

  visit-Within :
      (limits : CanonicalizeLimits) (v : JsonValue) (depth n m : ℕ)
      → n ≤ limits.max_entries
      → visit limits v depth n ≡ some m
      → Within limits (height v) (entry_count v) depth n m × IsClean limits v
  visit-Within limits null depth n m b h = (leaf-Within limits depth n m b h, tt)
  visit-Within limits undefined depth n m b h = absurd (cc)
  visit-Within limits (boolean c) depth n m b h = (leaf-Within limits depth n m b h, tt)
  visit-Within limits (number c) depth n m b h =
      ((ground arith, omega arith, ground arith), ground arith)
  visit-Within limits (string s) depth n m b h =
      ((ground arith, omega arith, ground arith), ground arith)
  visit-Within limits (array xs) depth n m b h =
      let (d, h') = behind-eq-some _ _ m h in
      let (e, h'') = behind-eq-some _ _ m h' in
      let (w, c) =
        visit_items-Within limits xs depth (n + item_count xs) m (ground arith) (ground arith)
          h'' in
      ((w.0, omega (arith, w.1), omega (arith, w.2)), c)
  visit-Within limits (object fs) depth n m b h =
      let (d, h') = behind-eq-some _ _ m h in
      let (e, h'') = behind-eq-some _ _ m h' in
      let (w, c) =
        visit_fields-Within limits fs depth (n + field_count fs) m (ground arith) (ground arith)
          h'' in
      ((w.0, omega (arith, w.1), omega (arith, w.2)), c)

  visit_items-Within :
      (limits : CanonicalizeLimits) (xs : Items) (depth n m : ℕ)
      → n ≤ limits.max_entries
      → depth ≤ limits.max_depth
      → visit_items limits xs (suc depth) n ≡ some m
      → Within limits (height_items xs) (entry_count_items xs) depth n m × AreCleanItems limits xs
  visit_items-Within limits no_items depth n m b d h =
      ((omega arith, omega arith, ground arith), tt)
  visit_items-Within limits (item v xs) depth n m b d h =
      let (k, first, rest) = then_visit-eq-some _ _ m h in
      let (w, c) = visit-Within limits v (suc depth) n k b first in
      let (w', c') = visit_items-Within limits xs depth k m (omega (arith, w)) d rest in
      ((omega (arith, w, w'), omega (arith, w, w'), omega (arith, w, w')), (c, c'))

  visit_fields-Within :
      (limits : CanonicalizeLimits) (fs : Fields) (depth n m : ℕ)
      → n ≤ limits.max_entries
      → depth ≤ limits.max_depth
      → visit_fields limits fs (suc depth) n ≡ some m
      → Within limits (height_fields fs) (entry_count_fields fs) depth n m
        × AreCleanFields limits fs
  visit_fields-Within limits no_fields depth n m b d h =
      ((omega arith, omega arith, ground arith), tt)
  visit_fields-Within limits (field key v fs) depth n m b d h =
      let (k', h') = behind-eq-some _ _ m h in
      let (k, first, rest) = then_visit-eq-some _ _ m h' in
      let (w, c) = visit-Within limits v (suc depth) n k b first in
      let (w', c') = visit_fields-Within limits fs depth k m (omega (arith, w)) d rest in
      ((omega (arith, w, w'), omega (arith, w, w'), omega (arith, w, w')), (k', c, c'))

behind-true {ℓ} :
    {A : Type ℓ} (test : Bool) (rest : Option A) → test ≡ true → behind test rest ≡ rest
behind-true true rest h = refl
behind-true false rest h = absurd (cc)

leb-true : (a b : ℕ) → a ≤ b → leb a b ≡ true
leb-true a b h = ground arith

mutual
  unfolding visit height entry_count IsClean

  visit-returns :
      (limits : CanonicalizeLimits) (v : JsonValue) (depth n : ℕ)
      → depth + height v ≤ limits.max_depth
      → n + entry_count v ≤ limits.max_entries
      → IsClean limits v
      → visit limits v depth n ≡ some (n + entry_count v)
  visit-returns limits null depth n d b c = ground arith
  visit-returns limits undefined depth n d b c = absurd c
  visit-returns limits (boolean t) depth n d b c = ground arith
  visit-returns limits (number t) depth n d b c = ground arith
  visit-returns limits (string s) depth n d b c = ground arith
  visit-returns limits (array xs) depth n d b c =
      behind-true _ _ (leb-true depth limits.max_depth (omega arith))
      ∙ behind-true _ _ (leb-true (n + item_count xs) limits.max_entries (omega arith))
      ∙ visit_items-returns limits xs depth (n + item_count xs) d (omega arith) c
      ∙ ap some (omega arith)
  visit-returns limits (object fs) depth n d b c =
      behind-true _ _ (leb-true depth limits.max_depth (omega arith))
      ∙ behind-true _ _ (leb-true (n + field_count fs) limits.max_entries (omega arith))
      ∙ visit_fields-returns limits fs depth (n + field_count fs) d (omega arith) c
      ∙ ap some (omega arith)

  visit_items-returns :
      (limits : CanonicalizeLimits) (xs : Items) (depth n : ℕ)
      → depth + height_items xs ≤ limits.max_depth
      → n + entry_count_items xs ≤ limits.max_entries
      → AreCleanItems limits xs
      → visit_items limits xs (suc depth) n ≡ some (n + entry_count_items xs)
  visit_items-returns limits no_items depth n d b c = ground arith
  visit_items-returns limits (item v xs) depth n d b c =
      ap (λ o. then_visit o (λ k. visit_items limits xs (suc depth) k))
        (visit-returns limits v (suc depth) n (omega arith) (omega arith) c.0)
      ∙ visit_items-returns limits xs depth (n + entry_count v) (omega arith) (omega arith) c.1
      ∙ ap some (omega arith)

  visit_fields-returns :
      (limits : CanonicalizeLimits) (fs : Fields) (depth n : ℕ)
      → depth + height_fields fs ≤ limits.max_depth
      → n + entry_count_fields fs ≤ limits.max_entries
      → AreCleanFields limits fs
      → visit_fields limits fs (suc depth) n ≡ some (n + entry_count_fields fs)
  visit_fields-returns limits no_fields depth n d b c = ground arith
  visit_fields-returns limits (field key v fs) depth n d b c =
      behind-true _ _ c.0
      ∙ ap (λ o. then_visit o (λ k. visit_fields limits fs (suc depth) k))
          (visit-returns limits v (suc depth) n (omega arith) (omega arith) c.1)
      ∙ visit_fields-returns limits fs depth (n + entry_count v) (omega arith) (omega arith) c.2
      ∙ ap some (omega arith)

returns_zero :
    (limits : CanonicalizeLimits) (v : JsonValue)
    → (height v ≤ limits.max_depth) × (entry_count v ≤ limits.max_entries) × IsClean limits v
    → visit limits v 0 0 ≡ some (entry_count v)
returns_zero limits v c =
    visit-returns limits v 0 0 (omega (arith, c.0)) (omega (arith, c.1)) c.2 ∙ ap some (omega arith)

within_zero :
    (limits : CanonicalizeLimits) (v : JsonValue) (m : ℕ)
    → visit limits v 0 0 ≡ some m
    → (height v ≤ limits.max_depth) × (entry_count v ≤ limits.max_entries) × IsClean limits v
within_zero limits v m e =
    let (w, c) = visit-Within limits v 0 0 m (omega arith) e in
    (omega (arith, w.0), omega (arith, w.1), c)

some_of_returned : (o : Option ℕ) → returned o ≡ some tt → (m : ℕ) × (o ≡ some m)
some_of_returned none h = absurd (cc)
some_of_returned (some m) h = (m, refl)

-- assertJsonValue returns exactly when the value nests no deeper than the limit, has no more items
-- and fields in all than the limit, and every string, key and number in it is allowed.
pub assert_json_value_iff :
    (limits : CanonicalizeLimits) (v : JsonValue)
    → (assert_json_value limits v ≡ some tt)
      ↔ ((height v ≤ limits.max_depth) × (entry_count v ≤ limits.max_entries) × IsClean limits v)
unfolding assert_json_value
assert_json_value_iff limits v = (
  λ h. let (m, e) = some_of_returned (visit limits v 0 0) h in within_zero limits v m e,
  λ c. ap returned (returns_zero limits v c),
)
