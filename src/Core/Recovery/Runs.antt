-- ===== src/Core/Recovery/Runs.antt =====
-- Sequences of calls on `LocalRecoveryController` (recovery.ts).
use browser_cortex.Common.{
  ℕ, suc, ◌+◌, ◌≡◌, refl, sym, ap, ◌∙◌, subst, Bool, true, false, not, List, [], ◌∷◌, if◌then◌else◌,
  if_intro, any, arith,
}
use browser_cortex.Contracts.Errors.{ErrorCode}
use browser_cortex.Core.Recovery.{
  Mode, full, reduced, failing, closed, Controller, fresh, is_reduced_mode_error, is_full,
  is_closed, snapshot, ready, failed, dispose,
}

pub data Call : Type 0 where
  readies disposes : Call
  fails : ErrorCode → Call

unfoldable pub step : Call → Controller → Controller
unfolding ready failed dispose
step readies c = (ready c).1
step (fails code) c = (failed code c).1
step disposes c = (dispose c).1

unfoldable pub run : List Call → Controller → Controller
unfolding step
run [] c = c
run (call ∷ calls) c = run calls (step call c)

pub is_disposes : Call → Bool
is_disposes disposes = true
is_disposes _ = false

-- The failures before the first disposal.
abbrev pub failures : List Call → ℕ
failures [] = 0
failures (readies ∷ calls) = failures calls
failures (fails code ∷ calls) = suc (failures calls)
failures (disposes ∷ calls) = 0

-- Whether the last call is `ready`, no call is a disposal, and, when there is no call, `before`.
abbrev pub ends_ready : Bool → List Call → Bool
ends_ready before [] = before
ends_ready before (readies ∷ calls) = ends_ready true calls
ends_ready before (fails code ∷ calls) = ends_ready false calls
ends_ready before (disposes ∷ calls) = false

abbrev pub is_disposed_by : List Call → Bool
is_disposed_by calls = any is_disposes calls

ready_closed : (c : Controller) → is_closed c.mode ≡ true → (ready c).1 ≡ c
unfolding ready
ready_closed c h = ground arith

failed_closed :
    (code : ErrorCode) (c : Controller) → is_closed c.mode ≡ true → (failed code c).1 ≡ c
unfolding failed
failed_closed code c h = ground arith

ready_open :
    (c : Controller)
    → is_closed c.mode ≡ false
    → ((ready c).1.mode ≡ full) × ((ready c).1.worker_generation ≡ c.worker_generation)
unfolding ready
ready_open c h = ground arith

failed_open :
    (code : ErrorCode) (c : Controller)
    → is_closed c.mode ≡ false
    → ((failed code c).1.mode ≡ (if is_reduced_mode_error code then reduced else failing))
      × ((failed code c).1.worker_generation ≡ suc c.worker_generation)
unfolding failed
failed_open code c h = ground arith

abbrev StaysClosed : List Call → ℕ → Controller → Type 0
StaysClosed calls count c =
    (is_closed (run calls c).mode ≡ true) × ((run calls c).worker_generation ≡ count)

run-closed :
    (calls : List Call) (c : Controller)
    → is_closed c.mode ≡ true
    → StaysClosed calls c.worker_generation c
unfolding run step is_closed
run-closed [] c h = (h, refl)
run-closed (readies ∷ calls) c h =
    subst (StaysClosed calls c.worker_generation) (sym (ready_closed c h)) (run-closed calls c h)
run-closed (fails code ∷ calls) c h =
    subst (StaysClosed calls c.worker_generation) (sym (failed_closed code c h))
      (run-closed calls c h)
run-closed (disposes ∷ calls) c h = unfold dispose in run-closed calls (dispose c).1 refl

-- What a run comes to from a controller that is not disposed.
abbrev Follows : List Call → Controller → Controller → Type 0
Follows calls c after =
    (is_full after.mode ≡ ends_ready (is_full c.mode) calls)
    × (is_closed after.mode ≡ is_disposed_by calls)
    × (after.worker_generation ≡ c.worker_generation + failures calls)

fail_mode :
    (code : ErrorCode)
    → (is_full (if is_reduced_mode_error code then reduced else failing) ≡ false)
      × (is_closed (if is_reduced_mode_error code then reduced else failing) ≡ false)
unfolding is_full is_closed
fail_mode code =
    if_intro (λ m. (is_full m ≡ false) × (is_closed m ≡ false)) (is_reduced_mode_error code) reduced
      failing (λ e. (refl, refl)) (λ e. (refl, refl))

closed_not_full : (m : Mode) → is_closed m ≡ true → is_full m ≡ false
unfolding is_full is_closed
closed_not_full full h = absurd (cc)
closed_not_full reduced h = refl
closed_not_full failing h = refl
closed_not_full closed h = refl

disposed_closed : (c : Controller) → is_closed (dispose c).1.mode ≡ true
unfolding dispose is_closed
disposed_closed c = refl

dispose_count : (c : Controller) → (dispose c).1.worker_generation ≡ c.worker_generation
unfolding dispose
dispose_count c = refl

-- The state behind the first of several calls, when that call leaves the mode `m`.
follow_on :
    (m : Mode) (before : Bool) (calls : List Call) (c : Controller)
    → c.mode ≡ m
    → is_full m ≡ before
    → Follows calls c (run calls c)
    → (is_full (run calls c).mode ≡ ends_ready before calls)
      × (is_closed (run calls c).mode ≡ is_disposed_by calls)
      × ((run calls c).worker_generation ≡ c.worker_generation + failures calls)
follow_on m before calls c e f (a, b, g) =
    (a ∙ ap (λ x. ends_ready x calls) (ap is_full e ∙ f), b, g)

run-Follows :
    (calls : List Call) (c : Controller) → is_closed c.mode ≡ false → Follows calls c (run calls c)
unfolding run step is_disposes
run-Follows [] c h = (refl, h, omega arith)
run-Follows (readies ∷ calls) c h =
    let (mode, count) = ready_open c h in
    let (a, b, g) =
      follow_on full true calls (ready c).1 mode (unfold is_full in refl)
        (run-Follows calls (ready c).1 (ap is_closed mode ∙ (unfold is_closed in refl))) in
    (a, b, omega (arith, g, count))
run-Follows (fails code ∷ calls) c h =
    let (mode, count) = failed_open code c h in
    let (not_full, not_closed) = fail_mode code in
    let (a, b, g) =
      follow_on (if is_reduced_mode_error code then reduced else failing) false calls
        (failed code c).1 mode not_full
        (run-Follows calls (failed code c).1 (ap is_closed mode ∙ not_closed)) in
    (a, b, omega (arith, g, count))
run-Follows (disposes ∷ calls) c h =
    let (shut, count) = run-closed calls (dispose c).1 (disposed_closed c) in
    (
      closed_not_full (run calls (dispose c).1).mode shut,
      shut,
      omega (arith, count, dispose_count c),
    )

-- After any calls on a new controller, the snapshot offers generation exactly when the last call is
-- `ready` and none is `dispose`, offers deterministic tools exactly when none is `dispose`, and
-- counts the failures before the first `dispose`.
pub run-snapshot :
    (calls : List Call)
    → ((snapshot (run calls fresh)).generation_available ≡ ends_ready false calls)
      × ((snapshot (run calls fresh)).deterministic_tools_available ≡ not (is_disposed_by calls))
      × ((snapshot (run calls fresh)).worker_generation ≡ failures calls)
unfolding snapshot
run-snapshot calls =
    let (a, b, g) = run-Follows calls fresh (unfold is_closed in refl) in
    (a ∙ ap (λ x. ends_ready x calls) (unfold is_full in refl), ap not b, omega (arith, g))
