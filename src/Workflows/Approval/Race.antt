-- ===== src/Workflows/Approval/Race.antt =====
-- Two calls of `consume` in approval.ts that overlap.
use browser_cortex.Common.{ℕ, ◌<◌, ◌≡◌, refl, true, false, some, Text, arith, ===_iff}
use browser_cortex.Common.Map
use browser_cortex.Workflows.Approval.{
  Binding, Handle, Broker, Outcome, done, failed, begin_found, consume_begin, consume_finish,
}

-- A handle that a call may consume at this time for this binding.
pub record Consumable (fingerprint : Binding → Text) (id : Text) (now : ℕ) (expected : Binding)
    (broker : Broker) : Type 0 where
  pub handle : Handle
  pub found : Map.get id broker ≡ some handle
  pub approved : handle.approved ≡ true
  pub fresh : handle.consumed ≡ false
  pub unexpired : now < handle.expires_at
  pub bound : fingerprint handle.binding ≡ fingerprint expected

-- Both calls have passed their checks; the first finishes, and then the second.
finish_both :
    (Binding → Text)
    → Text
    → Binding
    → Outcome Binding
    → Outcome Binding
    → Broker
    → Outcome (Unit {0}) × Outcome (Unit {0}) × Broker
finish_both fingerprint id expected (done a) (done b) broker =
    let (one, b₃) = consume_finish fingerprint id a expected broker in
    let (two, b₄) = consume_finish fingerprint id b expected b₃ in (one, two, b₄)
finish_both fingerprint id expected (done a) (failed f) broker =
    let (one, b₃) = consume_finish fingerprint id a expected broker in (one, failed f, b₃)
finish_both fingerprint id expected (failed f) (done b) broker =
    let (two, b₃) = consume_finish fingerprint id b expected broker in (failed f, two, b₃)
finish_both fingerprint id expected (failed f) (failed g) broker = (failed f, failed g, broker)

-- Two calls of `consume` of which both reach their `await` before either goes on.
pub overlap :
    (Binding → Text)
    → Text
    → Binding
    → ℕ
    → ℕ
    → Broker
    → Outcome (Unit {0}) × Outcome (Unit {0}) × Broker
overlap fingerprint id expected first second broker =
    let (answer, b₁) = consume_begin id first broker in
    let (answer', b₂) = consume_begin id second b₁ in
    finish_both fingerprint id expected answer answer' b₂

module _ (fingerprint : Binding → Text) (id : Text) (now : ℕ) (expected : Binding) (broker : Broker)
    (c : Consumable fingerprint id now expected broker) where
  pub begin-Consumable : consume_begin id now broker ≡ (done c.handle.binding, broker)
  unfolding consume_begin
  begin-Consumable =
      rw c.found (unfold begin_found in ground (arith, c.approved, c.fresh, c.unexpired))

pub finish_bound :
    (fingerprint : Binding → Text) (id : Text) (actual expected : Binding) (broker : Broker)
    → fingerprint actual ≡ fingerprint expected
    → consume_finish fingerprint id actual expected broker ≡ (done tt, Map.delete id broker)
unfolding consume_finish
finish_bound fingerprint id actual expected broker same =
    rw ((===_iff (fingerprint actual) (fingerprint expected)).1 same)

-- Two overlapping calls both consume a handle that is meant for one use, for every approved handle
-- that is unexpired at both times and bound to what both expect.
pub overlap_consumes_twice :
    (fingerprint : Binding → Text) (id : Text) (first second : ℕ) (expected : Binding)
    (broker : Broker)
    → Consumable fingerprint id first expected broker
    → Consumable fingerprint id second expected broker
    → ((overlap fingerprint id expected first second broker).0 ≡ done tt)
      × ((overlap fingerprint id expected first second broker).1 ≡ done tt)
unfolding overlap
overlap_consumes_twice fingerprint id first second expected broker c d =
    rw (begin-Consumable fingerprint id first expected broker c) (
      rw (begin-Consumable fingerprint id second expected broker d) (
        unfold finish_both in
        rw (finish_bound fingerprint id c.handle.binding expected broker c.bound) (
          rw (finish_bound fingerprint id d.handle.binding expected (Map.delete id broker) d.bound)
            (refl, refl))))
