-- ===== src/Policy/Approvals/Bounds.antt =====
-- One call of the store in approvals.ts: the uses of a handle, and the records.
use browser_cortex.Common.{
  ℕ, ◌+◌, ◌-◌, ◌≤◌, ◌<◌, ◌≡◌, ◌≢◌, refl, inl, inr, Option, none, some, Text, arith, ===_iff,
  max_safe_integer, ltb, ===_refl, Bool-cases,
}
use browser_cortex.Common.Map
use browser_cortex.Common.Map.{get-set, get-delete}
use browser_cortex.Common.Map.Distinct.{
  Values, Distinct, Values_get, Values-set, Values-delete, Distinct-set, Distinct-delete,
}
use browser_cortex.Contracts.Limits
use browser_cortex.Contracts.Errors.{Result, ok, err}
use browser_cortex.Policy.Approvals.{
  StoredApproval, Store, Decision, approved, refused, consume_record, consume_found, store_issued,
}

-- What `issue` gives a record, and the other methods keep.
pub record IsValid (r : StoredApproval) : Type 0 where
  pub unused : r.uses < r.max_uses
  pub bounded : r.max_uses ≤ Limits.approval_uses
  pub lasting : r.issued_at < r.expires_at
  pub brief : r.expires_at ≤ r.issued_at + Limits.approval_lifetime_ms
  pub safe : r.expires_at ≤ max_safe_integer

pub record IsSound (records : Store) : Type 0 where
  pub valid : Values IsValid records
  pub distinct : Distinct records

-- The uses that the store still has for a handle.
abbrev pub uses_left : Option StoredApproval → ℕ
uses_left none = 0
uses_left (some r) = r.max_uses - r.uses

abbrev pub approvals_of : Result Decision → ℕ
approvals_of (ok (approved left)) = 1
approvals_of (ok (refused reason)) = 0
approvals_of (err code) = 0

consume_record_uses :
    (handle incoming : Text) (now : ℕ) (r : StoredApproval) (records : Store)
    → Map.get handle records ≡ some r
    → approvals_of (ok (consume_record handle incoming now r records).0)
        + uses_left (Map.get handle (consume_record handle incoming now r records).1)
      ≤ r.max_uses - r.uses
unfolding consume_record
consume_record_uses handle incoming now r records found = ground (
  arith,
  get-delete handle handle records,
  get-set handle handle (record r { uses = r.uses + 1 }) records,
  ===_iff handle handle,
)

consume_record_others :
    (handle incoming j : Text) (now : ℕ) (r : StoredApproval) (records : Store)
    → handle ≢ j
    → Map.get j (consume_record handle incoming now r records).1 ≡ Map.get j records
unfolding consume_record
consume_record_others handle incoming j now r records other = ground (
  arith,
  get-delete handle j records,
  get-set handle j (record r { uses = r.uses + 1 }) records,
  ===_iff handle j,
)

consume_record-IsSound :
    (handle incoming : Text) (now : ℕ) (r : StoredApproval) (records : Store)
    → IsValid r
    → IsSound records
    → IsSound (consume_record handle incoming now r records).1
unfolding consume_record
consume_record-IsSound handle incoming now r records v s = ground (
  arith,
  Values-delete IsValid handle records,
  Distinct-delete handle records,
  Values-set IsValid handle (record r { uses = r.uses + 1 }) records,
  Distinct-set handle (record r { uses = r.uses + 1 }) records,
)

pub consume_found_uses :
    (handle incoming : Text) (now : Option ℕ) (found : Option StoredApproval) (records : Store)
    → Map.get handle records ≡ found
    → approvals_of (ok (consume_found handle incoming now found records).0)
        + uses_left (Map.get handle (consume_found handle incoming now found records).1)
      ≤ uses_left found
unfolding consume_found
consume_found_uses handle incoming now none records e = rw e (omega arith)
consume_found_uses handle incoming none (some r) records e =
    rw get-delete (rw (===_refl handle) (omega arith))
consume_found_uses handle incoming (some t) (some r) records e =
    consume_record_uses handle incoming t r records e

pub consume_found_others :
    (handle incoming j : Text) (now : Option ℕ) (found : Option StoredApproval) (records : Store)
    → handle ≢ j
    → Map.get j (consume_found handle incoming now found records).1 ≡ Map.get j records
unfolding consume_found
consume_found_others handle incoming j now none records other = refl
consume_found_others handle incoming j none (some r) records other =
    ground (arith, get-delete handle j records, ===_iff handle j)
consume_found_others handle incoming j (some t) (some r) records other =
    consume_record_others handle incoming j t r records other

pub consume_found-IsSound :
    (handle incoming : Text) (now : Option ℕ) (found : Option StoredApproval) (records : Store)
    → Map.get handle records ≡ found
    → IsSound records
    → IsSound (consume_found handle incoming now found records).1
unfolding consume_found
consume_found-IsSound handle incoming now none records e s = s
consume_found-IsSound handle incoming none (some r) records e s = record {
  valid = Values-delete IsValid handle records s.valid;
  distinct = Distinct-delete handle records s.distinct;
}
consume_found-IsSound handle incoming (some t) (some r) records e s =
    consume_record-IsSound handle incoming t r records
      (Values_get IsValid handle r records s.valid e) s

pub store_issued-IsSound :
    (now lifetime_ms max_uses : ℕ) (digest handle : Text) (records : Store)
    → 0 < lifetime_ms
    → lifetime_ms ≤ Limits.approval_lifetime_ms
    → 0 < max_uses
    → max_uses ≤ Limits.approval_uses
    → IsSound records
    → IsSound (store_issued now lifetime_ms max_uses digest handle records).1
unfolding store_issued
store_issued-IsSound now lifetime_ms max_uses digest handle records a b c d s =
    elim (Bool-cases (ltb max_safe_integer (now + lifetime_ms))) [
      | inl late ↦ rw late s
      | inr fits ↦ rw fits (record {
        valid =
            Values-set IsValid handle _ records
              (record {
                unused = c;
                bounded = d;
                lasting = omega arith;
                brief = omega arith;
                safe = ground arith;
              })
              s.valid;
        distinct = Distinct-set handle _ records s.distinct;
      })
    ]
