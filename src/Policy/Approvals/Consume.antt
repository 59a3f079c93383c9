-- ===== src/Policy/Approvals/Consume.antt =====
-- When `consume` of approvals.ts approves, and what it leaves in the store.
use browser_cortex.Common.{
  ℕ, ◌+◌, ◌≤◌, ◌<◌, ◌≡◌, refl, ◌↔◌, true, inl, inr, ap, Bool-cases, Option, none, some, Text,
  Number, arith, safe_natural,
}
use mathlib.Core.Option
use browser_cortex.Common.Map
use browser_cortex.Common.Map.{get-set, get-delete}
use browser_cortex.Contracts.Errors.{Result, ok, err}
use browser_cortex.Policy.Approvals.{
  StoredApproval, Store, approved, refused, unknown_handle, is_handle, consume_record,
  consume_found, consume_as, consume,
}
use browser_cortex.Policy.Approvals.ConstantTime.{constant_time_equal_iff}

-- All that stands between a handle and an approval that leaves `left` more uses.
pub record Grants {Binding : Type 0} (fingerprint : Binding → Result Text) (handle : Text)
    (binding : Binding) (now : Number) (records : Store) (left : ℕ) : Type 0 where
  pub well_formed : is_handle handle ≡ true
  pub stored : StoredApproval
  pub found : Map.get handle records ≡ some stored
  pub time : ℕ
  pub timestamp : safe_natural now ≡ some time
  pub issued : stored.issued_at ≤ time
  pub unexpired : time < stored.expires_at
  pub unused : stored.uses < stored.max_uses
  pub bound : fingerprint binding ≡ ok stored.binding_fingerprint
  pub remaining : left + stored.uses + 1 ≡ stored.max_uses

consume_record_approved :
    (handle incoming : Text) (now left : ℕ) (r : StoredApproval) (records : Store)
    → (consume_record handle incoming now r records).0 ≡ approved left
    → (r.issued_at ≤ now)
      × (now < r.expires_at)
      × (r.uses < r.max_uses)
      × (r.binding_fingerprint ≡ incoming)
      × (left + r.uses + 1 ≡ r.max_uses)
unfolding consume_record
consume_record_approved handle incoming now left r records e =
    ground (arith, constant_time_equal_iff r.binding_fingerprint incoming)

consume_record_approves :
    (handle incoming : Text) (now left : ℕ) (r : StoredApproval) (records : Store)
    → r.issued_at ≤ now
    → now < r.expires_at
    → r.uses < r.max_uses
    → r.binding_fingerprint ≡ incoming
    → left + r.uses + 1 ≡ r.max_uses
    → (consume_record handle incoming now r records).0 ≡ approved left
unfolding consume_record
consume_record_approves handle incoming now left r records a b c d e =
    ground (arith, constant_time_equal_iff r.binding_fingerprint incoming)

consume_found_approved :
    (handle incoming : Text) (now : Option ℕ) (left : ℕ) (found : Option StoredApproval)
    (records : Store)
    → (consume_found handle incoming now found records).0 ≡ approved left
    → (t : ℕ) × (r : StoredApproval) × (now ≡ some t)
      × (found ≡ some r)
      × ((consume_record handle incoming t r records).0 ≡ approved left)
unfolding consume_found
consume_found_approved handle incoming now left none records e = absurd (cc)
consume_found_approved handle incoming none left (some r) records e = absurd (cc)
consume_found_approved handle incoming (some t) left (some r) records e = (t, r, refl, refl, e)

ok-injective {ℓ} : {A : Type ℓ} {a b : A} → ok a ≡ ok b → a ≡ b
ok-injective e = cc

module _ {Binding : Type 0} (fingerprint : Binding → Result Text) (clock : Number) (handle : Text)
    (binding : Binding) (now : Option Number) (records : Store) (left : ℕ) where
  sound_as :
      (digest : Result Text)
      → fingerprint binding ≡ digest
      → is_handle handle ≡ true
      → (consume_as handle digest (Option.get_or now clock) records).0 ≡ ok (approved left)
      → Grants fingerprint handle binding (Option.get_or now clock) records left
  unfolding consume_as
  sound_as (err code) known h e = absurd (cc)
  sound_as (ok incoming) known h e =
      let (t, r, time, found, granted) =
        consume_found_approved handle incoming _ left _ records (ok-injective e) in
      let (a, b, c, d, f) = consume_record_approved handle incoming t left r records granted in
      record {
        well_formed = h;
        stored = r;
        found = found;
        time = t;
        timestamp = time;
        issued = a;
        unexpired = b;
        unused = c;
        bound = rw d known;
        remaining = f;
      }

  -- `consume` approves, with `left` uses remaining, exactly when the handle is well formed and
  -- stored, the time is a timestamp at which the record is live, a use is left, the fingerprint of
  -- the binding is the stored one, and `left` is what remains after this use.
  pub consume-approved_iff :
      ((consume fingerprint clock handle binding now records).0 ≡ ok (approved left))
      ↔ Grants fingerprint handle binding (Option.get_or now clock) records left
  unfolding consume
  consume-approved_iff = (
    λ e. elim (Bool-cases (is_handle handle)) [
      | inl good ↦ sound_as (fingerprint binding) refl good (rw good at e)
      | inr bad ↦
          absurd (let e' : ok (refused unknown_handle) ≡ ok (approved left) = rw bad at e in cc)
    ],
    λ g.
        rw (g.well_formed, g.bound)
          (unfold consume_as consume_found in
            rw (g.timestamp, g.found)
              (ap ok (
                consume_record_approves handle g.stored.binding_fingerprint g.time left g.stored
                  records g.issued g.unexpired g.unused refl g.remaining))),
  )
