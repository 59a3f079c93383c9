-- ===== src/Privacy/Redaction/Apart.antt =====
-- The merged spans of `mergeSensitiveSpans` (redaction.ts): their order and their bounds.
use browser_cortex.Common.{
  ℕ, ◌≤◌, ◌<◌, ◌≡◌, List, [], ◌∷◌, Text, length, map, ltb, subst, arith, All, Pairs, Bool-cases,
  inl, inr, safe_natural,
}
use browser_cortex.Contracts.Errors.{ok}
use browser_cortex.Privacy.Redaction.{
  InputSpan, Span, Merged, check_span, check_spans, insert_span, sort_spans, opened, extend,
  merge_from, merge_sorted, frozen, merge_sensitive_spans,
}
use browser_cortex.Privacy.Redaction.Merge.{
  IsSorted, sort-IsSorted, check_bounds-eq-ok, check_spans-cons, merge_sensitive_spans-eq-ok,
}

-- A span of the text that is not empty.
abbrev Fits : ℕ → ℕ → ℕ → Type 0
Fits size start end = (start < end) × (end ≤ size)

abbrev SpansFit : ℕ → List Span → Type 0
SpansFit size spans = All (λ (s : Span). Fits size s.start s.end) spans

abbrev pub MergedFit : ℕ → List Merged → Type 0
MergedFit size merged = All (λ (m : Merged). Fits size m.start m.end) merged

abbrev Above : ℕ → List Merged → Type 0
Above low merged = All (λ (m : Merged). low < m.start) merged

-- Each merged span ends before every later one begins.
abbrev pub AreApart : List Merged → Type 0
AreApart merged = Pairs (λ (a b : Merged). a.end < b.start) merged

check_spans-fit :
    (size : ℕ) (input : List InputSpan) (spans : List Span)
    → check_spans size input ≡ ok spans
    → SpansFit size spans
unfolding check_spans
check_spans-fit size [] spans h = let e : [] ≡ spans = cc in subst (SpansFit size) e tt
check_spans-fit size (a ∷ input) spans h =
    let (s, rest, first, others, e) = check_spans-cons size a input spans h in
    let (_, _, _, _, from_end, within) =
      check_bounds-eq-ok size (safe_natural a.start) (safe_natural a.end) a s
        (unfold check_span in first) in
    rw e ((from_end, within), check_spans-fit size input rest others)

insert-fit :
    (size : ℕ) (a : Span) (spans : List Span)
    → Fits size a.start a.end
    → SpansFit size spans
    → SpansFit size (insert_span a spans)
unfolding insert_span
insert-fit size a [] f h = (f, tt)
insert-fit size a (b ∷ spans) f h = ground (arith, insert-fit size a spans)

sort-fit : (size : ℕ) (spans : List Span) → SpansFit size spans → SpansFit size (sort_spans spans)
unfolding sort_spans
sort-fit size [] h = tt
sort-fit size (a ∷ spans) h = insert-fit size a (sort_spans spans) h.0 (sort-fit size spans h.1)

merge-Above :
    (low : ℕ) (m : Merged) (spans : List Span)
    → low < m.start
    → All (λ (s : Span). m.start ≤ s.start) spans
    → IsSorted spans
    → Above low (merge_from m spans)
unfolding merge_from extend
merge-Above low m [] h f o = (h, tt)
merge-Above low m (s ∷ spans) h f o = elim (Bool-cases (ltb m.end s.start)) [
  | inl apart ↦ rw apart (h, merge-Above low (opened s) spans (omega (arith, h, f.0)) o.0 o.1)
  | inr joined ↦ rw joined (merge-Above low (extend m s) spans h f.1 o.1)
]

merge-AreApart :
    (m : Merged) (spans : List Span)
    → All (λ (s : Span). m.start ≤ s.start) spans
    → IsSorted spans
    → AreApart (merge_from m spans)
unfolding merge_from extend
merge-AreApart m [] f o = (tt, tt)
merge-AreApart m (s ∷ spans) f o = elim (Bool-cases (ltb m.end s.start)) [
  | inl apart ↦ rw apart (
    merge-Above m.end (opened s) spans (ground arith) o.0 o.1,
    merge-AreApart (opened s) spans o.0 o.1,
  )
  | inr joined ↦ rw joined (merge-AreApart (extend m s) spans f.1 o.1)
]

merge-fit :
    (size : ℕ) (m : Merged) (spans : List Span)
    → Fits size m.start m.end
    → SpansFit size spans
    → MergedFit size (merge_from m spans)
unfolding merge_from extend
merge-fit size m [] f h = (f, tt)
merge-fit size m (s ∷ spans) f h = elim (Bool-cases (ltb m.end s.start)) [
  | inl apart ↦ rw apart (f, merge-fit size (opened s) spans h.0 h.1)
  | inr joined ↦ rw joined (merge-fit size (extend m s) spans (ground arith) h.1)
]

merge_sorted-AreApart : (spans : List Span) → IsSorted spans → AreApart (merge_sorted spans)
unfolding merge_sorted
merge_sorted-AreApart [] o = tt
merge_sorted-AreApart (s ∷ spans) o = merge-AreApart (opened s) spans o.0 o.1

merge_sorted-fit :
    (size : ℕ) (spans : List Span) → SpansFit size spans → MergedFit size (merge_sorted spans)
unfolding merge_sorted
merge_sorted-fit size [] h = tt
merge_sorted-fit size (s ∷ spans) h = merge-fit size (opened s) spans h.0 h.1

-- Freezing keeps the bounds.
frozen-All :
    (P : ℕ → ℕ → Type 0) (merged : List Merged)
    → All (λ (m : Merged). P m.start m.end) merged
    → All (λ (m : Merged). P m.start m.end) (map frozen merged)
unfolding frozen
frozen-All P [] h = tt
frozen-All P (m ∷ merged) h = (h.0, frozen-All P merged h.1)

frozen-AreApart : (merged : List Merged) → AreApart merged → AreApart (map frozen merged)
unfolding frozen
frozen-AreApart [] h = tt
frozen-AreApart (m ∷ merged) h =
    (frozen-All (λ start end. m.end < start) merged h.0, frozen-AreApart merged h.1)

-- When `mergeSensitiveSpans` returns, each merged span is not empty and ends within the text, and
-- each ends before every later one begins.
pub merge_sensitive_spans-AreApart :
    (text : Text) (input : List InputSpan) (merged : List Merged)
    → merge_sensitive_spans text input ≡ ok merged
    → AreApart merged × MergedFit (length text) merged
merge_sensitive_spans-AreApart text input merged h =
    let (spans, checked, e) = merge_sensitive_spans-eq-ok text input merged h in
    rw e (
      frozen-AreApart (merge_sorted (sort_spans spans))
          (merge_sorted-AreApart (sort_spans spans) (sort-IsSorted spans)),
      frozen-All (Fits (length text)) (merge_sorted (sort_spans spans)) (
          merge_sorted-fit (length text) (sort_spans spans)
            (sort-fit (length text) spans (check_spans-fit (length text) input spans checked))),
    )
