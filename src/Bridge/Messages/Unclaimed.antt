-- ===== src/Bridge/Messages/Unclaimed.antt =====
-- What a message that was parsed (parseBridgeMessage of messages.ts) does not carry.
use browser_cortex.Common.{
  ℕ, suc, ◌+◌, ◌≤◌, ◌≡◌, refl, ap, ◌∙◌, sym, Bool, true, false, ◌&&◌, ◌||◌, Option, none, some,
  Text, arith, leb,
}
use browser_cortex.Contracts.Limits
use browser_cortex.Contracts.Errors.{ok, bind-eq-ok}
use browser_cortex.Contracts.Json.{
  JsonValue, null, undefined, boolean, number, string, array, object, Items, no_items, item, Fields,
  no_fields, field, default_limits, canonicalize,
}
use browser_cortex.Contracts.Json.Fits.{
  height, height_items, height_fields, entry_count, IsClean, assert_json_value_iff,
}
use browser_cortex.Bridge.Messages.{
  is_message, is_authority_key, contains_authority_claim, claims_in_items, claims_in_fields,
  payload_of, check_payload, message_limits, check_size, checked, sized, parse_versioned,
  parse_bridge_message,
}
use browser_cortex.Contracts.Json.Shapes.{is_object}

open_guard :
    (depth : ℕ) (claims : Bool)
    → depth ≤ Limits.json_depth
    → (leb depth Limits.json_depth && claims) ≡ false
    → claims ≡ false
open_guard depth claims d h = ground arith

neither : (a b : Bool) → (a || b) ≡ false → (a ≡ false) × (b ≡ false)
neither a b h = (ground arith, ground arith)

checked-eq-ok :
    (o : Option (Unit {0})) (claims : Bool)
    → checked o claims ≡ ok tt
    → (o ≡ some tt) × (claims ≡ false)
checked-eq-ok none claims h = absurd (cc)
checked-eq-ok (some _) true h = absurd (cc)
checked-eq-ok (some _) false h = (refl, refl)

sized-eq-ok :
    (o : Option Text) (message m : JsonValue)
    → sized o message ≡ ok m
    → (m ≡ message) × ((t : Text) × (o ≡ some t))
sized-eq-ok none message m h = absurd (cc)
sized-eq-ok (some t) message m h = (cc, (t, refl))

parse_versioned-eq-ok :
    (schema : JsonValue → Bool) (input m : JsonValue)
    → parse_versioned schema input ≡ ok m
    → (m ≡ input) × (schema input ≡ true)
unfolding parse_versioned
parse_versioned-eq-ok schema input m h = ground arith

module _ (lower : Text → Text) where
  -- No key of an object, at any depth, is one that claims authority.
  unfoldable mutual
    unfolding is_authority_key

    pub IsUnclaimed : JsonValue → Type 0
    IsUnclaimed (array xs) = AreUnclaimedItems xs
    IsUnclaimed (object fs) = AreUnclaimedFields fs
    IsUnclaimed _ = Unit

    pub AreUnclaimedItems : Items → Type 0
    AreUnclaimedItems no_items = Unit
    AreUnclaimedItems (item v xs) = IsUnclaimed v × AreUnclaimedItems xs

    pub AreUnclaimedFields : Fields → Type 0
    AreUnclaimedFields no_fields = Unit
    AreUnclaimedFields (field key v fs) =
        (is_authority_key lower key ≡ false) × IsUnclaimed v × AreUnclaimedFields fs

  mutual
    unfolding contains_authority_claim IsUnclaimed height

    no_claim-IsUnclaimed :
        (v : JsonValue) (depth : ℕ)
        → depth + height v ≤ Limits.json_depth
        → contains_authority_claim lower v depth ≡ false
        → IsUnclaimed v
    no_claim-IsUnclaimed null depth d h = tt
    no_claim-IsUnclaimed undefined depth d h = tt
    no_claim-IsUnclaimed (boolean b) depth d h = tt
    no_claim-IsUnclaimed (number n) depth d h = tt
    no_claim-IsUnclaimed (string s) depth d h = tt
    no_claim-IsUnclaimed (array xs) depth d h =
        no_claims-AreUnclaimed xs depth d (open_guard depth _ (omega arith) h)
    no_claim-IsUnclaimed (object fs) depth d h =
        no_claims-AreUnclaimedFields fs depth d (open_guard depth _ (omega arith) h)

    no_claims-AreUnclaimed :
        (xs : Items) (depth : ℕ)
        → depth + height_items xs ≤ Limits.json_depth
        → claims_in_items lower xs (suc depth) ≡ false
        → AreUnclaimedItems xs
    no_claims-AreUnclaimed no_items depth d h = tt
    no_claims-AreUnclaimed (item v xs) depth d h =
        let (first, rest) = neither _ _ h in
        (
          no_claim-IsUnclaimed v (suc depth) (omega arith) first,
          no_claims-AreUnclaimed xs depth (omega arith) rest,
        )

    no_claims-AreUnclaimedFields :
        (fs : Fields) (depth : ℕ)
        → depth + height_fields fs ≤ Limits.json_depth
        → claims_in_fields lower fs (suc depth) ≡ false
        → AreUnclaimedFields fs
    no_claims-AreUnclaimedFields no_fields depth d h = tt
    no_claims-AreUnclaimedFields (field key v fs) depth d h =
        let (here, rest) = neither _ _ h in
        let (own, first) = neither _ _ here in
        (
          own,
          no_claim-IsUnclaimed v (suc depth) (omega arith) first,
          no_claims-AreUnclaimedFields fs depth (omega arith) rest,
        )

  -- What a payload that passes its checks is.
  check_payload-IsUnclaimed :
      (payload : JsonValue)
      → check_payload lower (some payload) ≡ ok tt
      → IsUnclaimed payload
        × (height payload ≤ Limits.json_depth)
        × (entry_count payload ≤ Limits.json_entries)
        × IsClean default_limits payload
  unfolding check_payload
  check_payload-IsUnclaimed payload h =
      let (e, c) = checked-eq-ok _ _ h in
      let (a, b) = assert_json_value_iff default_limits payload in
      let fits = a e in
      (no_claim-IsUnclaimed payload 0 (omega (arith, fits.0)) c, fits.0, fits.1, fits.2)

  -- A message that parses carries, in its payload and at any depth, no key that claims an approval, a
  -- grant or trust; the payload is clean JSON within the limits, the message has the shape of its
  -- type, and its canonical text fits an extension message.
  pub parse_bridge_message-IsUnclaimed :
      (input message payload : JsonValue)
      → parse_bridge_message lower input ≡ ok message
      → payload_of message ≡ some payload
      → (message ≡ input)
        × (is_object is_message message ≡ true)
        × IsUnclaimed payload
        × (height payload ≤ Limits.json_depth)
        × IsClean default_limits payload
        × ((t : Text) × (canonicalize message_limits message ≡ some t))
  unfolding parse_bridge_message check_size
  parse_bridge_message-IsUnclaimed input message payload h p =
      let (u, first, rest) = bind-eq-ok _ _ _ h in
      let (parsed, second, third) = bind-eq-ok _ _ _ rest in
      let (same, shape) = parse_versioned-eq-ok (is_object is_message) input parsed second in
      let (same', text) = sized-eq-ok _ parsed message third in
      let e : message ≡ input = same' ∙ same in
      let claims =
        check_payload-IsUnclaimed payload
          (ap (check_payload lower) (sym p ∙ ap payload_of e) ∙ first) in
      (
        e,
        ap (is_object is_message) e ∙ shape,
        claims.0,
        claims.1,
        claims.3,
        (text.0, ap (canonicalize message_limits) same' ∙ text.1),
      )
