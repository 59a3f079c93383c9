-- ===== src/Policy/Grants/Calls.antt =====
-- Sequences of calls on the store of grants.ts, and the uses of one grant.
use browser_cortex.Common.{
  ℕ, ◌+◌, ◌≤◌, ◌≡◌, ◌≢◌, refl, sym, ap, ◌∙◌, subst, true, false, inl, inr, Option, none, some, List,
  [], ◌∷◌, Text, Number, arith, ◌===◌, ===_iff, if◌then◌else◌, All, Bool-cases, some_injective,
}
use browser_cortex.Common.Map
use browser_cortex.Common.Map.{get-set, get-delete, get_of_not_has}
use browser_cortex.Contracts.Errors.{Result, ok, err}
use browser_cortex.Policy.Grants.{
  Grant, Request, grant_not_found, Store, Options, parse_grant, store_grant, add_parsed, add,
  revoke_found, revoke, remove, authorize, find_and_authorize,
}
use browser_cortex.Policy.Grants.Usage.{
  used, consumes, allowances, IsKeyed, IsWithin, Spends, authorize-Spends, find_from-Spends,
  IsKeyed-of_grants, IsWithin-of_Spends,
}

-- A call of one of the methods, with what `Date.now()` gives it.
pub data Call : Type 0 where
  adding : Grant → Call
  revoking : Text → Call
  removing : Text → Call
  authorizing : Number → Text → Request → Options → Call
  finding : Number → Request → Options → Call

unfoldable pub step : Call → Store → Store
step (adding g) s = (add g s).1
step (revoking id) s = (revoke id s).1
step (removing id) s = (remove id s).1
step (authorizing clock id request options) s = (authorize clock id request options s).1
step (finding clock request options) s = (find_and_authorize clock request options s).1

-- 1 if the call allows a request on this grant and counts it, else 0.
unfoldable pub spent : Text → Call → Store → ℕ
spent id (adding g) s = 0
spent id (revoking other) s = 0
spent id (removing other) s = 0
spent id (authorizing clock other request options) s =
    if consumes options then allowances id (authorize clock other request options s).0 else 0
spent id (finding clock request options) s =
    if consumes options then allowances id (find_and_authorize clock request options s).0 else 0

unfoldable pub total_spent : Text → List Call → Store → ℕ
total_spent id [] s = 0
total_spent id (call ∷ calls) s = spent id call s + total_spent id calls (step call s)

-- The grant is not removed by the call.
abbrev pub Keeps : Text → Call → Type 0
Keeps id (removing other) = other ≢ id
Keeps id (adding g) = Unit
Keeps id (revoking other) = Unit
Keeps id (authorizing clock other request options) = Unit
Keeps id (finding clock request options) = Unit

store_grant-IsKeyed : (g : Grant) (s : Store) → IsKeyed s → IsKeyed (store_grant g s).1
unfolding store_grant
store_grant-IsKeyed g s keyed j h e =
    ground (arith, get-set g.grant_id j g s.grants, ===_iff g.grant_id j, keyed j h)

free_ne :
    (id : Text) (limit : ℕ) (g : Grant) (s : Store)
    → IsWithin id limit s
    → Map.has g.grant_id s.grants ≡ false
    → g.grant_id ≢ id
free_ne id limit g s w free e =
    let held : Map.get g.grant_id s.grants ≡ some w.grant =
      subst (λ k. Map.get k s.grants ≡ some w.grant) (sym e) w.stored in
    let missing = get_of_not_has g.grant_id s.grants free in cc

store_grant-used :
    (id : Text) (limit : ℕ) (g : Grant) (s : Store)
    → IsWithin id limit s
    → used id (store_grant g s).1 ≡ used id s
unfolding store_grant
store_grant-used id limit g s w = elim (Bool-cases (Map.has g.grant_id s.grants)) [
  | inl taken ↦ rw taken
  | inr free ↦
      let other = free_ne id limit g s w free in
      ground (arith, get-set g.grant_id id 0 s.usage, ===_iff g.grant_id id)
]

store_grant-IsWithin :
    (id : Text) (limit : ℕ) (g : Grant) (s : Store)
    → IsWithin id limit s
    → IsWithin id limit (store_grant g s).1
unfolding store_grant
store_grant-IsWithin id limit g s w = elim (Bool-cases (Map.has g.grant_id s.grants)) [
  | inl taken ↦ rw taken w
  | inr free ↦
      let other = free_ne id limit g s w free in
      rw free (record {
        grant = w.grant;
        stored = ground (arith, w.stored, get-set g.grant_id id g s.grants, ===_iff g.grant_id id);
        limited = w.limited;
        bounded = ground (arith, w.bounded, get-set g.grant_id id 0 s.usage, ===_iff g.grant_id id);
      })
]

revoke_found-IsKeyed :
    (id : Text) (found : Option Grant) (s : Store)
    → Map.get id s.grants ≡ found
    → IsKeyed s
    → IsKeyed (revoke_found id found s).1
unfolding revoke_found
revoke_found-IsKeyed id none s e keyed j h f = keyed j h f
revoke_found-IsKeyed id (some g) s e keyed j h f = ground (
  arith,
  get-set id j (record g { revoked = true }) s.grants,
  ===_iff id j,
  keyed j h,
  keyed id g,
)

revoke_found-IsWithin :
    (id other : Text) (limit : ℕ) (found : Option Grant) (s : Store)
    → Map.get other s.grants ≡ found
    → IsWithin id limit s
    → IsWithin id limit (revoke_found other found s).1
unfolding revoke_found
revoke_found-IsWithin id other limit none s e w = w
revoke_found-IsWithin id other limit (some g) s e w = elim (Bool-cases (other === id)) [
  | inl same ↦ record {
    grant = record g { revoked = true };
    stored = rw get-set (rw same);
    limited =
        ap (λ (x : Grant). x.usage_limit)
          (some_injective (
            sym e
            ∙ subst (λ k. Map.get k s.grants ≡ some w.grant) (sym ((===_iff other id).0 same))
                w.stored))
        ∙ w.limited;
    bounded = w.bounded;
  }
  | inr differs ↦ record {
    grant = w.grant;
    stored = rw get-set (rw differs w.stored);
    limited = w.limited;
    bounded = w.bounded;
  }
]

add_parsed-IsKeyed : (g : Result Grant) (s : Store) → IsKeyed s → IsKeyed (add_parsed g s).1
unfolding add_parsed
add_parsed-IsKeyed (ok g) s keyed = store_grant-IsKeyed g s keyed
add_parsed-IsKeyed (err code) s keyed = keyed

add_parsed-IsWithin :
    (id : Text) (limit : ℕ) (g : Result Grant) (s : Store)
    → IsWithin id limit s
    → IsWithin id limit (add_parsed g s).1
unfolding add_parsed
add_parsed-IsWithin id limit (ok g) s w = store_grant-IsWithin id limit g s w
add_parsed-IsWithin id limit (err code) s w = w

delete-IsKeyed : (id : Text) (s : Store) → IsKeyed s → IsKeyed (remove id s).1
unfolding remove
delete-IsKeyed id s keyed j g e = ground (arith, get-delete id j s.grants, ===_iff id j, keyed j g)

delete-IsWithin :
    (id other : Text) (limit : ℕ) (s : Store)
    → other ≢ id
    → IsWithin id limit s
    → IsWithin id limit (remove other s).1
unfolding remove
delete-IsWithin id other limit s differs w = record {
  grant = w.grant;
  stored = ground (arith, w.stored, get-delete other id s.grants, ===_iff other id);
  limited = w.limited;
  bounded = ground (arith, w.bounded, get-delete other id s.usage, ===_iff other id);
}

add_parsed-used :
    (id : Text) (limit : ℕ) (g : Result Grant) (s : Store)
    → IsWithin id limit s
    → used id (add_parsed g s).1 ≡ used id s
unfolding add_parsed
add_parsed-used id limit (ok g) s w = store_grant-used id limit g s w
add_parsed-used id limit (err code) s w = refl

revoke_found-used :
    (id other : Text) (found : Option Grant) (s : Store)
    → used id (revoke_found other found s).1 ≡ used id s
unfolding revoke_found
revoke_found-used id other none s = refl
revoke_found-used id other (some g) s = refl

delete-used : (id other : Text) (s : Store) → other ≢ id → used id (remove other s).1 ≡ used id s
unfolding remove
delete-used id other s differs = ground (arith, get-delete other id s.usage, ===_iff other id)

-- What a call does to a grant that it keeps.
record Kept (id : Text) (limit : ℕ) (s after : Store) (paid : ℕ) : Type 0 where
  keyed : IsKeyed after
  within : IsWithin id limit after
  counted : paid + used id s ≤ used id after

Kept-of_Spends :
    (id : Text) (limit : ℕ) (s after : Store) (paid : ℕ)
    → IsKeyed s
    → IsWithin id limit s
    → Spends id limit s after paid
    → Kept id limit s after paid
Kept-of_Spends id limit s after paid keyed w p = record {
  keyed = IsKeyed-of_grants s after p.grants keyed;
  within = IsWithin-of_Spends id limit s after paid p w;
  counted = p.counted;
}

step-Kept :
    (id : Text) (limit : ℕ) (call : Call) (s : Store)
    → Keeps id call
    → IsKeyed s
    → IsWithin id limit s
    → Kept id limit s (step call s) (spent id call s)
unfolding step spent find_and_authorize add revoke
step-Kept id limit (adding g) s k keyed w = record {
  keyed = add_parsed-IsKeyed (parse_grant g) s keyed;
  within = add_parsed-IsWithin id limit (parse_grant g) s w;
  counted = omega (arith, add_parsed-used id limit (parse_grant g) s w);
}
step-Kept id limit (revoking other) s k keyed w = record {
  keyed = revoke_found-IsKeyed other (Map.get other s.grants) s refl keyed;
  within = revoke_found-IsWithin id other limit (Map.get other s.grants) s refl w;
  counted = omega (arith, revoke_found-used id other (Map.get other s.grants) s);
}
step-Kept id limit (removing other) s k keyed w = record {
  keyed = delete-IsKeyed other s keyed;
  within = delete-IsWithin id other limit s k w;
  counted = omega (arith, delete-used id other s k);
}
step-Kept id limit (authorizing clock other request options) s k keyed w =
    Kept-of_Spends id limit s _ _ keyed w
      (authorize-Spends id other limit clock request options s keyed w)
step-Kept id limit (finding clock request options) s k keyed w =
    Kept-of_Spends id limit s _ _ keyed w
      (find_from-Spends id limit clock request options s.grants grant_not_found s keyed w)

-- Over any calls that do not remove the grant, the requests that it is counted for and the uses
-- counted before stay together within its limit, by whichever method they come and whatever the
-- calls do to other grants.
pub total_spent-le :
    (id : Text) (limit : ℕ) (calls : List Call) (s : Store)
    → All (Keeps id) calls
    → IsKeyed s
    → IsWithin id limit s
    → total_spent id calls s + used id s ≤ limit
unfolding total_spent
total_spent-le id limit [] s k keyed w = omega (arith, w.bounded)
total_spent-le id limit (call ∷ calls) s k keyed w =
    let p = step-Kept id limit call s k.0 keyed w in
    omega (arith, p.counted, total_spent-le id limit calls (step call s) k.1 p.keyed p.within)
