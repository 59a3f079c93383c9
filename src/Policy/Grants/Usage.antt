-- ===== src/Policy/Grants/Usage.antt =====
-- How often the store of grants.ts allows requests on one grant, over any sequence of calls.
use mathlib.Core.Option
use browser_cortex.Common.{
  ℕ, ◌+◌, ◌≤◌, ◌<◌, ◌≡◌, refl, sym, ap, ◌∙◌, subst, Bool, true, false, Option, none, some, List, [],
  ◌∷◌, Text, Number, nat, arith, ◌===◌, ===_iff, if◌then◌else◌, some_injective,
  safe_natural-eq-some,
}
use browser_cortex.Common.Map
use browser_cortex.Common.Map.{get-set, get-delete}
use browser_cortex.Contracts.Errors.{Result, ok, err}
use browser_cortex.Policy.Grants.{
  Grant, Request, Denial, Decision, allowed, denied, Store, Options, evaluate_capability, count_use,
  authorize_found, authorize, decide_next, find_from,
}
use browser_cortex.Policy.Grants.Evaluate.{evaluate_capability-allowed_iff}

abbrev pub used : Text → Store → ℕ
used id s = Option.get_or (Map.get id s.usage) 0

abbrev pub consumes : Options → Bool
consumes options = Option.get_or options.consume true

-- 1 if the answer allows a request on this grant, else 0.
abbrev pub allowances : Text → Result Decision → ℕ
allowances id (ok (allowed grant left)) = if grant === id then 1 else 0
allowances id (ok (denied reason)) = 0
allowances id (err code) = 0

-- Each grant is stored under its own identifier.
abbrev pub IsKeyed : Store → Type 0
IsKeyed s = (j : Text) (g : Grant) → Map.get j s.grants ≡ some g → g.grant_id ≡ j

-- The grant `id` is stored, with this limit, and its use count is within it.
pub record IsWithin (id : Text) (limit : ℕ) (s : Store) : Type 0 where
  pub grant : Grant
  pub stored : Map.get id s.grants ≡ some grant
  pub limited : grant.usage_limit ≡ limit
  pub bounded : used id s ≤ limit

-- What a call may do to the grants and the use counts.
pub record Spends (id : Text) (limit : ℕ) (s after : Store) (spent : ℕ) : Type 0 where
  pub grants : after.grants ≡ s.grants
  pub counted : spent + used id s ≤ used id after
  pub bounded : used id after ≤ limit

count_use-Spends :
    (id key : Text) (limit : ℕ) (g : Grant) (consume : Bool) (answer : Result Decision) (s : Store)
    → g.grant_id ≡ key
    → (key ≡ id → g.usage_limit ≡ limit)
    → used id s ≤ limit
    → ((i : Text) (left : ℕ)
        → answer ≡ ok (allowed i left)
        → (i ≡ g.grant_id) × (used key s < g.usage_limit))
    → Spends id limit s
        (count_use key (used key s) consume answer s).1
        (if consume then allowances id (count_use key (used key s) consume answer s).0 else 0)
unfolding count_use
count_use-Spends id key limit g true (ok (allowed i left)) s keyed same bounded sound =
    let (named, unused) = sound i left refl in
    record {
      grants = refl;
      counted =
          ground (arith, get-set key id (used key s + 1) s.usage, ===_iff key id, ===_iff i id);
      bounded = ground (arith, get-set key id (used key s + 1) s.usage, ===_iff key id, same);
    }
count_use-Spends id key limit g false (ok (allowed i left)) s keyed same bounded sound = record {
  grants = refl;
  counted = omega arith;
  bounded = bounded;
}
count_use-Spends id key limit g true (ok (denied reason)) s keyed same bounded sound = record {
  grants = refl;
  counted = omega arith;
  bounded = bounded;
}
count_use-Spends id key limit g false (ok (denied reason)) s keyed same bounded sound = record {
  grants = refl;
  counted = omega arith;
  bounded = bounded;
}
count_use-Spends id key limit g true (err code) s keyed same bounded sound = record {
  grants = refl;
  counted = omega arith;
  bounded = bounded;
}
count_use-Spends id key limit g false (err code) s keyed same bounded sound = record {
  grants = refl;
  counted = omega arith;
  bounded = bounded;
}

authorize_found-Spends :
    (id key : Text) (limit : ℕ) (clock : Number) (found : Option Grant) (request : Request)
    (options : Options) (s : Store)
    → Map.get key s.grants ≡ found
    → IsKeyed s
    → IsWithin id limit s
    → Spends id limit s (authorize_found clock key found request options s).1 (
        if consumes options
        then allowances id (authorize_found clock key found request options s).0
        else 0)
unfolding authorize_found
authorize_found-Spends id key limit clock none request options s found keyed w = record {
  grants = refl;
  counted = ground arith;
  bounded = w.bounded;
}
authorize_found-Spends id key limit clock (some g) request options s found keyed w =
    count_use-Spends id key limit g (consumes options)
      (evaluate_capability g request (nat (used key s)) (Option.get_or options.now clock)) s
      (keyed key g found)
      (λ e.
        ap (λ (x : Grant). x.usage_limit)
          (some_injective
            (sym found ∙ subst (λ k. Map.get k s.grants ≡ some w.grant) (sym e) w.stored))
        ∙ w.limited)
      w.bounded
      (λ i left e.
        let a = (evaluate_capability-allowed_iff g request _ _ i left).0 e in
        let (same, safe) = safe_natural-eq-some (nat (used key s)) a.used a.counted in
        (a.named, omega (arith, a.unused, a.remaining, (let q : used key s ≡ a.used = cc in q))))

pub authorize-Spends :
    (id key : Text) (limit : ℕ) (clock : Number) (request : Request) (options : Options) (s : Store)
    → IsKeyed s
    → IsWithin id limit s
    → Spends id limit s
        (authorize clock key request options s).1
        (if consumes options then allowances id (authorize clock key request options s).0 else 0)
unfolding authorize
authorize-Spends id key limit clock request options s keyed w =
    authorize_found-Spends id key limit clock (Map.get key s.grants) request options s refl keyed w

pub IsKeyed-of_grants : (s after : Store) → after.grants ≡ s.grants → IsKeyed s → IsKeyed after
IsKeyed-of_grants s after same keyed j g e = keyed j g (subst (λ m. Map.get j m ≡ some g) same e)

pub IsWithin-of_Spends :
    (id : Text) (limit : ℕ) (s after : Store) (spent : ℕ)
    → Spends id limit s after spent
    → IsWithin id limit s
    → IsWithin id limit after
IsWithin-of_Spends id limit s after spent p w = record {
  grant = w.grant;
  stored = subst (λ m. Map.get id m ≡ some w.grant) (sym p.grants) w.stored;
  limited = w.limited;
  bounded = p.bounded;
}

-- One round of the loop, and then the rest of it.
decide_next-Spends :
    (id : Text) (limit : ℕ) (consume : Bool) (s after : Store) (answer : Result Decision)
    (rest : Denial → Store → Result Decision × Store)
    → Spends id limit s after (if consume then allowances id answer else 0)
    → ((reason : Denial)
        → answer ≡ ok (denied reason)
        → Spends id limit after
            (rest reason after).1
            (if consume then allowances id (rest reason after).0 else 0))
    → Spends id limit s
        (decide_next (answer, after) rest).1
        (if consume then allowances id (decide_next (answer, after) rest).0 else 0)
unfolding decide_next
decide_next-Spends id limit consume s after (ok (allowed i left)) rest first later = first
decide_next-Spends id limit consume s after (err code) rest first later = first
decide_next-Spends id limit consume s after (ok (denied reason)) rest first later =
    let p = later reason refl in
    record {
      grants = p.grants ∙ first.grants;
      counted = ground (arith, first.counted, p.counted);
      bounded = p.bounded;
    }

pub find_from-Spends :
    (id : Text) (limit : ℕ) (clock : Number) (request : Request) (options : Options)
    (entries : List (Text × Grant)) (last : Denial) (s : Store)
    → IsKeyed s
    → IsWithin id limit s
    → Spends id limit s (find_from clock request options entries last s).1 (
        if consumes options
        then allowances id (find_from clock request options entries last s).0
        else 0)
unfolding find_from
find_from-Spends id limit clock request options [] last s keyed w = record {
  grants = refl;
  counted = ground arith;
  bounded = w.bounded;
}
find_from-Spends id limit clock request options ((key, g) ∷ rest) last s keyed w =
    let (answer, after) = authorize clock g.grant_id request options s in
    let first = authorize-Spends id g.grant_id limit clock request options s keyed w in
    decide_next-Spends id limit (consumes options) s after answer
      (λ reason t. find_from clock request options rest reason t) first
      (λ reason e.
        find_from-Spends id limit clock request options rest reason after
          (IsKeyed-of_grants s after first.grants keyed)
          (IsWithin-of_Spends id limit s after _ first w))
