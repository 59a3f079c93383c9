-- ===== src/Privacy/Redaction.antt =====
-- packages/privacy/src/redaction.ts: merging sensitive spans, and replacing them by placeholders.
-- `Array.prototype.sort` is stable, and is modelled by insertion; a category is its string.
pub mod Merge
pub mod Apart
pub mod Kept
mod Tests
use browser_cortex.Common.{
  text_le, ℕ, suc, ◌+◌, ◌-◌, ◌≤◌, ◌<◌, ◌≡◌, Bool, true, false, not, ◌&&◌, ◌||◌, Option, none, some,
  List, [], ◌∷◌, ◌++◌, Text, Number, nat, ◌===◌, includes, length, every, map, max, take, drop, ltb,
  leb, ◌==◌, if◌then◌else◌, safe_natural, units,
}
use browser_cortex.Contracts.Limits
use browser_cortex.Contracts.Errors.{Result, ok, err, invalid_input, payload_too_large, ◌>>=◌}

pub data Severity : Type 0 where
  sensitive restricted : Severity

-- interface SensitiveSpan, from detectors.ts.
pub record InputSpan : Type 0 where
  pub start : Number
  pub end : Number
  pub category : Text
  pub severity : Severity

-- A span that has passed the check of `mergeSensitiveSpans`.
pub record Span : Type 0 where
  pub start : ℕ
  pub end : ℕ
  pub category : Text
  pub severity : Severity

-- interface MergedSensitiveSpan
pub record Merged : Type 0 where
  pub start : ℕ
  pub end : ℕ
  pub categories : List Text
  pub severity : Severity

pub severity_rank : Severity → ℕ
severity_rank restricted = 2
severity_rank sensitive = 1

pub check_bounds : ℕ → Option ℕ → Option ℕ → InputSpan → Result Span
check_bounds size (some start) (some end) span =
    if leb end start || ltb size end
    then err invalid_input
    else ok
        (record { start = start; end = end; category = span.category; severity = span.severity })
check_bounds size _ _ span = err invalid_input

-- The check of the `map`; a number that is negative or no safe integer fails it.
pub check_span : ℕ → InputSpan → Result Span
unfolding check_bounds
check_span size span = check_bounds size (safe_natural span.start) (safe_natural span.end) span

pub check_spans : ℕ → List InputSpan → Result (List Span)
unfolding check_span
check_spans size [] = ok []
check_spans size (span ∷ spans) = do
  checked ← check_span size span
  rest ← check_spans size spans
  ok (checked ∷ rest)

-- `left.start - right.start || right.end - left.end` is at most 0.
pub precedes : Span → Span → Bool
precedes a b = ltb a.start b.start || (a.start == b.start && leb b.end a.end)

pub insert_span : Span → List Span → List Span
unfolding precedes
insert_span a [] = a ∷ []
insert_span a (b ∷ spans) = if precedes a b then a ∷ b ∷ spans else b ∷ insert_span a spans

pub sort_spans : List Span → List Span
unfolding insert_span
sort_spans [] = []
sort_spans (a ∷ spans) = insert_span a (sort_spans spans)

abbrev pub opened : Span → Merged
opened s = record {
  start = s.start;
  end = s.end;
  categories = s.category ∷ [];
  severity = s.severity;
}

-- A span that begins no later than the last merged one ends is merged into it.
pub extend : Merged → Span → Merged
unfolding severity_rank
extend m s = record m {
  end = max m.end s.end;
  categories =
      if includes m.categories s.category then m.categories else m.categories ++ s.category ∷ [];
  severity =
      if ltb (severity_rank m.severity) (severity_rank s.severity) then s.severity else m.severity;
}

-- The loop over the sorted spans, with the last merged span; those before it no longer change.
pub merge_from : Merged → List Span → List Merged
unfolding extend
merge_from previous [] = previous ∷ []
merge_from previous (s ∷ spans) =
    let apart = previous ∷ merge_from (opened s) spans in
    let joined = merge_from (extend previous s) spans in
    if ltb previous.end s.start then apart else joined

pub merge_sorted : List Span → List Merged
unfolding merge_from
merge_sorted [] = []
merge_sorted (s ∷ spans) = merge_from (opened s) spans

pub insert_text : Text → List Text → List Text
unfolding text_le
insert_text a [] = a ∷ []
insert_text a (b ∷ texts) = if text_le a b then a ∷ b ∷ texts else b ∷ insert_text a texts

-- `[...categories].sort()`
pub sort_texts : List Text → List Text
unfolding insert_text
sort_texts [] = []
sort_texts (a ∷ texts) = insert_text a (sort_texts texts)

pub frozen : Merged → Merged
unfolding sort_texts
frozen m = record m { categories = sort_texts m.categories }

pub merge_sensitive_spans : Text → List InputSpan → Result (List Merged)
unfolding check_spans sort_spans merge_sorted frozen
merge_sensitive_spans text input = do
  spans ← check_spans (length text) input
  ok (map frozen (merge_sorted (sort_spans spans)))

-- interface RedactionResult; the entries are the merged spans with their placeholders.
pub record Redaction : Type 0 where
  pub sanitized_text : Text
  pub entries : List (Merged × Text)
  pub replacements : List (Text × Text)

-- `text.slice(from, to)`
abbrev pub slice : ℕ → ℕ → Text → Text
slice from to text = take (to - from) (drop from text)

-- The loop of `redactSensitiveData` from `cursor`, with the index of the next span; `placeholder`
-- gives the text that the inner loop settles on for an index.
pub redact_from : (ℕ → Text) → Text → ℕ → ℕ → List Merged → Redaction
redact_from placeholder text cursor index [] = record {
  sanitized_text = drop cursor text;
  entries = [];
  replacements = [];
}
redact_from placeholder text cursor index (m ∷ spans) =
    let rest = redact_from placeholder text m.end (index + 1) spans in
    record {
      sanitized_text = slice cursor m.start text ++ (placeholder index ++ rest.sanitized_text);
      entries = (m, placeholder index) ∷ rest.entries;
      replacements = (placeholder index, slice m.start m.end text) ∷ rest.replacements;
    }

pub redact_sensitive_data : (ℕ → Text) → Text → List InputSpan → Result Redaction
unfolding redact_from merge_sensitive_spans
redact_sensitive_data placeholder text spans =
    if ltb Limits.json_string_characters (length text)
    then err payload_too_large
    else do merged ← merge_sensitive_spans text spans; ok (redact_from placeholder text 0 0 merged)
