-- ===== src/Privacy/Redaction/Merge.antt =====
-- The positions that the merged spans of `mergeSensitiveSpans` (redaction.ts) cover.
use browser_cortex.Common.{
  ℕ, ◌≤◌, ◌<◌, ◌≡◌, refl, ap, ◌∙◌, Bool, false, ◌&&◌, ◌||◌, Option, none, some, List, [], ◌∷◌, Text,
  length, map, ltb, leb, arith, All, Pairs, any, Bool-cases, inl, inr, safe_natural,
}
use browser_cortex.Contracts.Errors.{ok}
use browser_cortex.Privacy.Redaction.{
  InputSpan, Span, Merged, check_bounds, check_span, check_spans, precedes, insert_span, sort_spans,
  opened, extend, merge_from, merge_sorted, frozen, merge_sensitive_spans,
}

abbrev pub within : ℕ → ℕ → ℕ → Bool
within from to i = leb from i && ltb i to

-- Whether a position of the text lies in one of the spans.
pub covered : ℕ → List Span → Bool
covered i [] = false
covered i (s ∷ spans) = within s.start s.end i || covered i spans

unfoldable pub covered_merged : ℕ → List Merged → Bool
covered_merged i [] = false
covered_merged i (m ∷ merged) = within m.start m.end i || covered_merged i merged

-- Spans in the order of their starts.
abbrev pub IsSorted : List Span → Type 0
IsSorted spans = Pairs (λ (a b : Span). a.start ≤ b.start) spans

abbrev From : ℕ → List Span → Type 0
From low spans = All (λ (s : Span). low ≤ s.start) spans

From-le : (low high : ℕ) (spans : List Span) → low ≤ high → From high spans → From low spans
From-le low high [] h f = tt
From-le low high (s ∷ spans) h f = (omega arith, From-le low high spans h f.1)

insert-From :
    (low : ℕ) (a : Span) (spans : List Span)
    → low ≤ a.start
    → From low spans
    → From low (insert_span a spans)
unfolding insert_span
insert-From low a [] h f = (h, tt)
insert-From low a (b ∷ spans) h f = ground (arith, insert-From low a spans)

insert-IsSorted : (a : Span) (spans : List Span) → IsSorted spans → IsSorted (insert_span a spans)
unfolding insert_span precedes
insert-IsSorted a [] h = (tt, tt)
insert-IsSorted a (b ∷ spans) h =
    ground
      (arith, From-le a.start b.start spans, insert-From b.start a spans, insert-IsSorted a spans)

pub sort-IsSorted : (spans : List Span) → IsSorted (sort_spans spans)
unfolding sort_spans
sort-IsSorted [] = tt
sort-IsSorted (a ∷ spans) = insert-IsSorted a (sort_spans spans) (sort-IsSorted spans)

covered-insert :
    (i : ℕ) (a : Span) (spans : List Span)
    → covered i (insert_span a spans) ≡ (within a.start a.end i || covered i spans)
unfolding covered insert_span
covered-insert i a [] = refl
covered-insert i a (b ∷ spans) = ground (arith, covered-insert i a spans)

covered-sort : (i : ℕ) (spans : List Span) → covered i (sort_spans spans) ≡ covered i spans
unfolding covered sort_spans
covered-sort i [] = refl
covered-sort i (a ∷ spans) =
    rw covered-insert (ap (λ b. within a.start a.end i || b) (covered-sort i spans))

covered-merge :
    (i : ℕ) (m : Merged) (spans : List Span)
    → From m.start spans
    → IsSorted spans
    → covered_merged i (merge_from m spans) ≡ (within m.start m.end i || covered i spans)
unfolding covered covered_merged merge_from extend
covered-merge i m [] f h = ground arith
covered-merge i m (s ∷ spans) f h = elim (Bool-cases (ltb m.end s.start)) [
  | inl apart ↦ rw apart (rw (covered-merge i (opened s) spans h.0 h.1))
  | inr joined ↦ rw joined (rw (covered-merge i (extend m s) spans f.1 h.1) (ground arith))
]

covered-frozen :
    (i : ℕ) (merged : List Merged) → covered_merged i (map frozen merged) ≡ covered_merged i merged
unfolding covered_merged frozen
covered-frozen i [] = refl
covered-frozen i (m ∷ merged) = ap (λ b. within m.start m.end i || b) (covered-frozen i merged)

-- What the caller's spans cover; a number that is no natural number gives no position.
abbrev pub covers_input : ℕ → Option ℕ → Option ℕ → Bool
covers_input i (some from) (some to) = within from to i
covers_input i none to = false
covers_input i (some from) none = false

abbrev pub covered_input : ℕ → List InputSpan → Bool
covered_input i input = any (λ s. covers_input i (safe_natural s.start) (safe_natural s.end)) input

pub check_bounds-eq-ok :
    (size : ℕ) (from to : Option ℕ) (span : InputSpan) (s : Span)
    → check_bounds size from to span ≡ ok s
    → (from ≡ some s.start)
      × (to ≡ some s.end)
      × (s.category ≡ span.category)
      × (s.severity ≡ span.severity)
      × (s.start < s.end)
      × (s.end ≤ size)
unfolding check_bounds
check_bounds-eq-ok size (some a) (some b) span s h = ground arith
check_bounds-eq-ok size (some a) none span s h = absurd (cc)
check_bounds-eq-ok size none b span s h = absurd (cc)

-- The sequence of checked spans, by its first.
pub check_spans-cons :
    (size : ℕ) (a : InputSpan) (input : List InputSpan) (spans : List Span)
    → check_spans size (a ∷ input) ≡ ok spans
    → (s : Span) × (rest : List Span) × (check_span size a ≡ ok s)
      × (check_spans size input ≡ ok rest)
      × (spans ≡ s ∷ rest)
unfolding check_spans
check_spans-cons size a input spans h = ground arith

covered-checked :
    (size i : ℕ) (input : List InputSpan) (spans : List Span)
    → check_spans size input ≡ ok spans
    → covered i spans ≡ covered_input i input
unfolding covered check_spans
covered-checked size i [] spans h = ground arith
covered-checked size i (a ∷ input) spans h =
    let (s, rest, first, others, e) = check_spans-cons size a input spans h in
    let (from, to, _, _, _, _) =
      check_bounds-eq-ok size (safe_natural a.start) (safe_natural a.end) a s
        (unfold check_span in first) in
    rw e (rw (covered-checked size i input rest others) (rw from (rw to refl)))

pub merge_sensitive_spans-eq-ok :
    (text : Text) (input : List InputSpan) (merged : List Merged)
    → merge_sensitive_spans text input ≡ ok merged
    → (spans : List Span) × (check_spans (length text) input ≡ ok spans)
      × (merged ≡ map frozen (merge_sorted (sort_spans spans)))
unfolding merge_sensitive_spans
merge_sensitive_spans-eq-ok text input merged h = ground arith

covered-merge_sorted :
    (i : ℕ) (spans : List Span)
    → IsSorted spans
    → covered_merged i (merge_sorted spans) ≡ covered i spans
unfolding covered covered_merged merge_sorted
covered-merge_sorted i [] h = refl
covered-merge_sorted i (s ∷ spans) h = covered-merge i (opened s) spans h.0 h.1

-- When `mergeSensitiveSpans` returns, a position of the text lies in one of the merged spans exactly
-- when it lies in one of the given spans.
pub merge_sensitive_spans-covered :
    (text : Text) (input : List InputSpan) (merged : List Merged) (i : ℕ)
    → merge_sensitive_spans text input ≡ ok merged
    → covered_merged i merged ≡ covered_input i input
merge_sensitive_spans-covered text input merged i h =
    let (spans, checked, e) = merge_sensitive_spans-eq-ok text input merged h in
    ap (covered_merged i) e
    ∙ covered-frozen i (merge_sorted (sort_spans spans))
    ∙ covered-merge_sorted i (sort_spans spans) (sort-IsSorted spans)
    ∙ covered-sort i spans
    ∙ covered-checked (length text) i input spans checked
