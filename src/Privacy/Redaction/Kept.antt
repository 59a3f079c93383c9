-- ===== src/Privacy/Redaction/Kept.antt =====
-- The merged spans of `mergeSensitiveSpans` (redaction.ts): what is kept of each given span.
use browser_cortex.Common.{
  ℕ, ◌≤◌, ◌≡◌, refl, sym, Bool, true, false, ◌&&◌, ◌||◌, Option, none, some, List, [], ◌∷◌, Text,
  ◌===◌, ===_refl, includes, includes-append, length, map, ltb, leb, subst, arith, All, All-map_of,
  any, every, Bool-cases, inl, inr, safe_natural,
}
use browser_cortex.Contracts.Errors.{ok}
use browser_cortex.Privacy.Redaction.{
  Severity, InputSpan, Span, Merged, severity_rank, check_span, check_spans, insert_span,
  sort_spans, opened, extend, merge_from, merge_sorted, frozen, insert_text, sort_texts,
  merge_sensitive_spans,
}
use browser_cortex.Privacy.Redaction.Merge.{
  IsSorted, sort-IsSorted, check_bounds-eq-ok, check_spans-cons, merge_sensitive_spans-eq-ok,
}

-- A merged span covers the bounds, names the category, and is at least as severe.
abbrev pub keeps : ℕ → ℕ → Text → Severity → Merged → Bool
keeps start end category severity m =
    leb m.start start
    && leb end m.end
    && includes m.categories category
    && leb (severity_rank severity) (severity_rank m.severity)

abbrev keeps_span : Span → Merged → Bool
keeps_span s m = keeps s.start s.end s.category s.severity m

abbrev Kept : List Merged → Span → Type 0
Kept merged s = any (keeps_span s) merged ≡ true

opened-keeps : (s : Span) → keeps_span s (opened s) ≡ true
unfolding severity_rank includes
opened-keeps s = ground (arith, ===_refl s.category)

extend-keeps : (s a : Span) (m : Merged) → keeps_span s m ≡ true → keeps_span s (extend m a) ≡ true
unfolding extend
extend-keeps s a m h = ground (arith, includes-append m.categories a.category s.category)

extend-keeps_self : (s : Span) (m : Merged) → m.start ≤ s.start → keeps_span s (extend m s) ≡ true
unfolding extend
extend-keeps_self s m h =
    ground (arith, includes-append m.categories s.category s.category, ===_refl s.category)

-- What a merged span keeps stays kept.
merge-Kept :
    (s : Span) (m : Merged) (spans : List Span)
    → keeps_span s m ≡ true
    → Kept (merge_from m spans) s
unfolding merge_from
merge-Kept s m [] h = ground arith
merge-Kept s m (a ∷ spans) h = ground (arith, merge-Kept s (extend m a) spans, extend-keeps s a m)

any-later :
    (p : Merged → Bool) (m : Merged) (merged : List Merged)
    → any p merged ≡ true
    → any p (m ∷ merged) ≡ true
any-later p m merged h = ground arith

merge_from-apart :
    (m : Merged) (s : Span) (spans : List Span)
    → ltb m.end s.start ≡ true
    → merge_from m (s ∷ spans) ≡ m ∷ merge_from (opened s) spans
unfolding merge_from
merge_from-apart m s spans apart = rw apart refl

merge_from-joined :
    (m : Merged) (s : Span) (spans : List Span)
    → ltb m.end s.start ≡ false
    → merge_from m (s ∷ spans) ≡ merge_from (extend m s) spans
unfolding merge_from
merge_from-joined m s spans joined = rw joined refl

extend-start : (m : Merged) (s : Span) → (extend m s).start ≡ m.start
unfolding extend
extend-start m s = refl

merge-All_Kept :
    (m : Merged) (spans : List Span)
    → All (λ (s : Span). m.start ≤ s.start) spans
    → IsSorted spans
    → All (Kept (merge_from m spans)) spans
merge-All_Kept m [] f o = tt
merge-All_Kept m (s ∷ spans) f o = elim (Bool-cases (ltb m.end s.start)) [
  | inl apart ↦
      subst (λ merged. All (Kept merged) (s ∷ spans)) (sym (merge_from-apart m s spans apart))
        (
          any-later (keeps_span s) m (merge_from (opened s) spans)
              (merge-Kept s (opened s) spans (opened-keeps s)),
          All-map_of (Kept (merge_from (opened s) spans)) (Kept (m ∷ merge_from (opened s) spans))
              spans (λ a kept. any-later (keeps_span a) m (merge_from (opened s) spans) kept)
              (merge-All_Kept (opened s) spans o.0 o.1),
        )
  | inr joined ↦
      subst (λ merged. All (Kept merged) (s ∷ spans)) (sym (merge_from-joined m s spans joined))
        (
          merge-Kept s (extend m s) spans (extend-keeps_self s m f.0),
          merge-All_Kept (extend m s) spans (rw (extend-start m s) f.1) o.1,
        )
]

merge_sorted-All_Kept : (spans : List Span) → IsSorted spans → All (Kept (merge_sorted spans)) spans
unfolding merge_sorted
merge_sorted-All_Kept [] o = tt
merge_sorted-All_Kept (s ∷ spans) o =
    (merge-Kept s (opened s) spans (opened-keeps s), merge-All_Kept (opened s) spans o.0 o.1)

module _ (P : Span → Type 0) where
  All_of_insert : (a : Span) (spans : List Span) → All P (insert_span a spans) → P a × All P spans
  unfolding insert_span
  All_of_insert a [] h = h
  All_of_insert a (b ∷ spans) h = ground (arith, All_of_insert a spans)

  All_of_sort : (spans : List Span) → All P (sort_spans spans) → All P spans
  unfolding sort_spans
  All_of_sort [] h = tt
  All_of_sort (a ∷ spans) h =
      let (first, rest) = All_of_insert a (sort_spans spans) h in (first, All_of_sort spans rest)

includes-insert :
    (a b : Text) (texts : List Text)
    → includes (insert_text a texts) b ≡ (a === b || includes texts b)
unfolding insert_text includes
includes-insert a b [] = refl
includes-insert a b (c ∷ texts) = ground (arith, includes-insert a b texts)

includes-sort : (b : Text) (texts : List Text) → includes (sort_texts texts) b ≡ includes texts b
unfolding sort_texts includes
includes-sort b [] = refl
includes-sort b (a ∷ texts) =
    ground (arith, includes-insert a b (sort_texts texts), includes-sort b texts)

frozen-Kept : (merged : List Merged) (s : Span) → Kept merged s → Kept (map frozen merged) s
unfolding frozen
frozen-Kept [] s h = h
frozen-Kept (m ∷ merged) s h =
    ground (arith, frozen-Kept merged s, includes-sort s.category m.categories)

abbrev keeps_bounds : Option ℕ → Option ℕ → Text → Severity → Merged → Bool
keeps_bounds (some start) (some end) category severity m = keeps start end category severity m
keeps_bounds none end category severity m = false
keeps_bounds (some start) none category severity m = false

-- Whether a given span is kept by one of the merged spans.
abbrev pub is_kept : List Merged → InputSpan → Bool
is_kept merged a =
    any (λ m. keeps_bounds (safe_natural a.start) (safe_natural a.end) a.category a.severity m)
      merged

checked-is_kept :
    (size : ℕ) (merged : List Merged) (input : List InputSpan) (spans : List Span)
    → check_spans size input ≡ ok spans
    → All (Kept merged) spans
    → every (is_kept merged) input ≡ true
unfolding check_spans
checked-is_kept size merged [] spans h kept = refl
checked-is_kept size merged (a ∷ input) spans h kept =
    let (s, rest, first, others, e) = check_spans-cons size a input spans h in
    let (from, to, category, severity, _, _) =
      check_bounds-eq-ok size (safe_natural a.start) (safe_natural a.end) a s
        (unfold check_span in first) in
    let all : All (Kept merged) (s ∷ rest) = subst (All (Kept merged)) e kept in
    let here : is_kept merged a ≡ true =
      rw from (rw to (rw (sym category) (rw (sym severity) all.0))) in
    rw here (checked-is_kept size merged input rest others all.1)

-- When `mergeSensitiveSpans` returns, each given span lies within one merged span that names its
-- category and is at least as severe.
pub merge_sensitive_spans-kept :
    (text : Text) (input : List InputSpan) (merged : List Merged)
    → merge_sensitive_spans text input ≡ ok merged
    → every (is_kept merged) input ≡ true
merge_sensitive_spans-kept text input merged h =
    let (spans, checked, e) = merge_sensitive_spans-eq-ok text input merged h in
    let sorted : All (Kept (merge_sorted (sort_spans spans))) spans =
      All_of_sort (Kept (merge_sorted (sort_spans spans))) spans
        (merge_sorted-All_Kept (sort_spans spans) (sort-IsSorted spans)) in
    checked-is_kept (length text) merged input spans checked (
      rw e (
        All-map_of (Kept (merge_sorted (sort_spans spans)))
          (Kept (map frozen (merge_sorted (sort_spans spans)))) spans
          (λ s kept. frozen-Kept (merge_sorted (sort_spans spans)) s kept) sorted))
