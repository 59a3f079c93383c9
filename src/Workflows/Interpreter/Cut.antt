-- ===== src/Workflows/Interpreter/Cut.antt =====
-- A list of actions (interpreter.ts) that is cut off: the writes among what is left, and what the
-- store holds then.
use browser_cortex.Common.{
  ℕ, zero, suc, ◌+◌, ◌≤◌, ◌<◌, ◌≡◌, refl, false, Option, none, some, List, [], ◌∷◌, ◌++◌, Text,
  arith, length, take, drop, All, Pairs, All-append, All-map_of, if◌then◌else◌, if_intro,
}
use browser_cortex.Workflows.Interpreter.{Effect, Idempotency, Checkpoint}
use browser_cortex.Workflows.Interpreter.Execute.{Action, saved, consumed, started}
use browser_cortex.Workflows.Interpreter.Steps.{
  frontier, is_non_idempotent_write, Steps, stay, save, consume, write, work,
}

-- The indices of the steps whose write was started with the idempotency "none", in order. A write
-- that is declared "read-only" takes no key either and is not among them.
unfoldable pub non_idempotent_writes : List Action → List ℕ
non_idempotent_writes [] = []
non_idempotent_writes (saved cp ∷ actions) = non_idempotent_writes actions
non_idempotent_writes (consumed handle ∷ actions) = non_idempotent_writes actions
non_idempotent_writes (started index effect idempotency key ∷ actions) =
    let rest = non_idempotent_writes actions in
    if is_non_idempotent_write effect idempotency then index ∷ rest else rest

-- What the store holds after some actions.
unfoldable pub last_saved : Option Checkpoint → List Action → Option Checkpoint
last_saved stored [] = stored
last_saved stored (saved cp ∷ actions) = last_saved (some cp) actions
last_saved stored (consumed handle ∷ actions) = last_saved stored actions
last_saved stored (started index effect idempotency key ∷ actions) = last_saved stored actions

unfoldable pub stored_frontier : Option Checkpoint → ℕ
unfolding frontier
stored_frontier none = 0
stored_frontier (some cp) = frontier cp

-- What the actions up to a cut leave in the store, `last_saved`, says of the writes among them.
abbrev pub Cut : ℕ → ℕ → Option Checkpoint → List Action → Type 0
Cut total b stored actions =
    All (λ i. (b ≤ i) × (i < stored_frontier (last_saved stored actions)))
      (non_idempotent_writes actions)
    × Pairs ◌<◌ (non_idempotent_writes actions)
    × (b ≤ stored_frontier (last_saved stored actions))
    × (stored_frontier (last_saved stored actions) ≤ total)

write-Cut :
    (total b i : ℕ) (stored : Option Checkpoint) (actions : List Action) (e : Effect)
    (k : Idempotency) (key : Option Text)
    → b ≤ i
    → Cut total (suc i) stored actions
    → Cut total b stored (started i e k key ∷ actions)
unfolding non_idempotent_writes last_saved
write-Cut total b i stored actions e k key h c =
    let others =
      All-map_of _ (λ j. (b ≤ j) × (j < stored_frontier (last_saved stored actions)))
        (non_idempotent_writes actions) (λ j p. (omega (arith, p.0), p.1)) c.0 in
    let above = All-map_of _ (λ j. i < j) (non_idempotent_writes actions) (λ j p. p.0) c.0 in
    (
      if_intro (All (λ j. (b ≤ j) × (j < stored_frontier (last_saved stored actions))))
          (is_non_idempotent_write e k) _ _ (λ _. ((h, omega (arith, c.2)), others)) (λ _. others),
      if_intro (Pairs ◌<◌) (is_non_idempotent_write e k) _ _ (λ _. (above, c.1)) (λ _. c.1),
      omega (arith, c.2),
      c.3,
    )

work-Cut :
    (total b i : ℕ) (stored : Option Checkpoint) (actions : List Action) (e : Effect)
    (k : Idempotency) (key : Option Text)
    → is_non_idempotent_write e k ≡ false
    → Cut total b stored actions
    → Cut total b stored (started i e k key ∷ actions)
unfolding non_idempotent_writes last_saved
work-Cut total b i stored actions e k key h c = (
  if_intro (All (λ j. (b ≤ j) × (j < stored_frontier (last_saved stored actions))))
      (is_non_idempotent_write e k) _ _ (λ y. absurd (cc)) (λ _. c.0),
  if_intro (Pairs ◌<◌) (is_non_idempotent_write e k) _ _ (λ y. absurd (cc)) (λ _. c.1),
  c.2,
  c.3,
)

pub Steps-Cut :
    (total b f : ℕ) (actions : List Action) (b' f' : ℕ) (stored : Option Checkpoint) (cut : ℕ)
    → Steps total b f actions b' f'
    → b ≤ f
    → f ≤ total
    → stored_frontier stored ≡ f
    → Cut total b stored (take cut actions)
unfolding non_idempotent_writes last_saved stored_frontier
Steps-Cut total b f actions b' f' stored zero h le l e =
    (tt, tt, omega (arith, e), omega (arith, e))
Steps-Cut _ _ _ _ _ _ stored (suc cut) (stay total b f) le l e =
    (tt, tt, omega (arith, e), omega (arith, e))
Steps-Cut _ _ _ _ _ _ stored (suc cut) (save total b f b' f' cp rest h r steps) le l e =
    Steps-Cut total b (frontier cp) rest b' f' (some cp) cut steps h r refl
Steps-Cut _ _ _ _ _ _ stored (suc cut) (consume total b f b' f' handle rest steps) le l e =
    Steps-Cut total b f rest b' f' stored cut steps le l e
Steps-Cut _ _ _ _ _ _ stored (suc cut) (write total b f b' f' i u k key rest h r steps) le l e =
    write-Cut total b i stored (take cut rest) u k key h
      (Steps-Cut total (suc i) f rest b' f' stored cut steps r l e)
Steps-Cut _ _ _ _ _ _ stored (suc cut) (work total b f b' f' i u k key rest h steps) le l e =
    work-Cut total b i stored (take cut rest) u k key h
      (Steps-Cut total b f rest b' f' stored cut steps le l e)

pub length-drop :
    {A : Type 0} (n : ℕ) (xs : List A) → n ≤ length xs → n + length (drop n xs) ≡ length xs
length-drop zero xs h = omega arith
length-drop (suc n) [] h = absurd (omega arith)
length-drop (suc n) (x ∷ xs) h = omega (arith, length-drop n xs)

pub non_idempotent_writes-append :
    (xs ys : List Action)
    → non_idempotent_writes (xs ++ ys) ≡ non_idempotent_writes xs ++ non_idempotent_writes ys
unfolding non_idempotent_writes
non_idempotent_writes-append [] ys = refl
non_idempotent_writes-append (saved cp ∷ xs) ys = non_idempotent_writes-append xs ys
non_idempotent_writes-append (consumed handle ∷ xs) ys = non_idempotent_writes-append xs ys
non_idempotent_writes-append (started i e k key ∷ xs) ys =
    ground (arith, non_idempotent_writes-append xs ys)

pub Pairs-append :
    (g : ℕ) (xs ys : List ℕ)
    → All (λ i. i < g) xs
    → All (λ i. g ≤ i) ys
    → Pairs ◌<◌ xs
    → Pairs ◌<◌ ys
    → Pairs ◌<◌ (xs ++ ys)
Pairs-append g [] ys a b h k = k
Pairs-append g (x ∷ xs) ys a b h k = (
  All-append (λ j. x < j) xs ys h.0
      (All-map_of (λ i. g ≤ i) (λ j. x < j) ys (λ j p. omega (arith, p, a.0)) b),
  Pairs-append g xs ys a.1 b h.1 k,
)
