-- ===== src/Workflows/Approval/Sequential.antt =====
-- Calls of `consume` in approval.ts that do not overlap.
use browser_cortex.Common.{
  ℕ, ◌<◌, ◌≡◌, ◌≢◌, refl, ap, ◌∙◌, ◌↔◌, true, false, Option, none, some, Text, arith, ===_iff,
  ===_refl,
}
use browser_cortex.Common.Map
use browser_cortex.Common.Map.{get-set, get-delete}
use browser_cortex.Workflows.Approval.{
  Binding, Handle, Broker, Outcome, done, failed, begin_found, consume_begin, consume_finish,
  finish_begun, consume,
}
use browser_cortex.Workflows.Approval.Race.{Consumable, begin-Consumable, finish_bound}

begin_found_done :
    (id : Text) (now : ℕ) (found : Option Handle) (actual : Binding) (broker : Broker)
    → (begin_found id now found broker).0 ≡ done actual
    → (handle : Handle) × (found ≡ some handle)
      × (handle.approved ≡ true)
      × (handle.consumed ≡ false)
      × (now < handle.expires_at)
      × (handle.binding ≡ actual)
      × ((begin_found id now found broker).1 ≡ broker)
unfolding begin_found
begin_found_done id now none actual broker e = absurd (cc)
begin_found_done id now (some h) actual broker e =
    (h, refl, ground arith, ground arith, ground arith, ground arith, ground arith)

finish_begun_done :
    (fingerprint : Binding → Text) (id : Text) (expected : Binding)
    (begun : Outcome Binding × Broker) (after : Broker)
    → finish_begun fingerprint id expected begun ≡ (done tt, after)
    → (actual : Binding) × (begun.0 ≡ done actual)
      × (fingerprint actual ≡ fingerprint expected)
      × (after ≡ Map.delete id begun.1)
unfolding finish_begun consume_finish
finish_begun_done fingerprint id expected (done actual, broker) after e = (
  actual,
  refl,
  ground (arith, ===_iff (fingerprint actual) (fingerprint expected)),
  ground arith,
)
finish_begun_done fingerprint id expected (failed f, broker) after e = absurd (cc)

-- `consume` succeeds exactly on a handle that is stored, approved, not consumed, unexpired and
-- bound to a binding of the expected fingerprint; and then the handle is gone.
pub consume_iff :
    (fingerprint : Binding → Text) (now : ℕ) (id : Text) (expected : Binding)
    (broker after : Broker)
    → (consume fingerprint now id expected broker ≡ (done tt, after))
      ↔ (Consumable fingerprint id now expected broker × (after ≡ Map.delete id broker))
unfolding consume
consume_iff fingerprint now id expected broker after = (
  λ e.
      let (actual, begun, same, left) =
        finish_begun_done fingerprint id expected (consume_begin id now broker) after e in
      let (handle, found, approved, fresh, unexpired, bound, kept) =
        begin_found_done id now (Map.get id broker) actual broker (unfold consume_begin in begun) in
      (
        record {
          handle = handle;
          found = found;
          approved = approved;
          fresh = fresh;
          unexpired = unexpired;
          bound = ap fingerprint bound ∙ same;
        },
        left ∙ ap (Map.delete id) (unfold consume_begin in kept),
      ),
  λ (c, left). rw (begin-Consumable fingerprint id now expected broker c) (
      unfold finish_begun in
      rw (finish_bound fingerprint id c.handle.binding expected broker c.bound) (rw left)),
)

-- After a successful `consume`, no call of `consume` on that handle succeeds, at any time and for
-- any binding.
pub consume_once :
    (fingerprint : Binding → Text) (now later : ℕ) (id : Text) (expected other : Binding)
    (broker after last : Broker)
    → consume fingerprint now id expected broker ≡ (done tt, after)
    → consume fingerprint later id other after ≢ (done tt, last)
consume_once fingerprint now later id expected other broker after last first second =
    let (c, left) = (consume_iff fingerprint now id expected broker after).0 first in
    let (d, _) = (consume_iff fingerprint later id other after last).0 second in
    ground (arith, d.found, left, get-delete id id broker, ===_refl id)
