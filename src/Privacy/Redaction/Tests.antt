-- ===== src/Privacy/Redaction/Tests.antt =====
-- Runs of the merging and the redaction of redaction.ts.
use browser_cortex.Common.{
  ℕ, ◌+◌, ◌++◌, ◌≡◌, refl, List, [], ◌∷◌, Text, nat, units, true, every, length, includes,
  safe_natural, ◌===◌,
}
use browser_cortex.Contracts.Errors.{ok, err, invalid_input}
use browser_cortex.Privacy.Redaction.{
  Severity, sensitive, restricted, InputSpan, Merged, merge_sensitive_spans, redact_sensitive_data,
}
use browser_cortex.Privacy.Redaction.Merge.{
  covered_merged, covered_input, merge_sensitive_spans-covered,
}
use browser_cortex.Privacy.Redaction.Apart.{AreApart, MergedFit, merge_sensitive_spans-AreApart}
use browser_cortex.Privacy.Redaction.Kept.{is_kept, merge_sensitive_spans-kept}

abbrev text : Text
text = units "mail bob@x.org now"

abbrev span : ℕ → ℕ → Text → Severity → InputSpan
span start end category severity = record {
  start = nat start;
  end = nat end;
  category = category;
  severity = severity;
}

abbrev spans : List InputSpan
spans =
    span 15 18 (units "word") sensitive
    ∷ span 9 14 (units "host") restricted
    ∷ span 5 10 (units "email") sensitive
    ∷ []

abbrev merged : List Merged
merged =
    record {
      start = 5;
      end = 14;
      categories = units "email" ∷ units "host" ∷ [];
      severity = restricted;
    }
    ∷ record { start = 15; end = 18; categories = units "word" ∷ []; severity = sensitive }
    ∷ []

merge_test : merge_sensitive_spans text spans ≡ ok merged
unfolding merge_sensitive_spans safe_natural includes ◌===◌
merge_test = refl

outside_test :
    merge_sensitive_spans text (span 5 19 (units "email") sensitive ∷ []) ≡ err invalid_input
unfolding merge_sensitive_spans safe_natural
outside_test = refl

merge_sensitive_spans-covered_example : covered_merged 14 merged ≡ covered_input 14 spans
merge_sensitive_spans-covered_example =
    merge_sensitive_spans-covered text spans merged 14 merge_test

merge_sensitive_spans-AreApart_example : AreApart merged × MergedFit (length text) merged
merge_sensitive_spans-AreApart_example = merge_sensitive_spans-AreApart text spans merged merge_test

merge_sensitive_spans-kept_example : every (is_kept merged) spans ≡ true
merge_sensitive_spans-kept_example = merge_sensitive_spans-kept text spans merged merge_test

abbrev placeholder : ℕ → Text
placeholder index = units "[[" ++ ((48 + index) ∷ units "]]")

redact_test :
    redact_sensitive_data placeholder text spans
    ≡ ok (record {
      sanitized_text = units "mail [[0]] [[1]]";
      entries =
          (
            record {
              start = 5;
              end = 14;
              categories = units "email" ∷ units "host" ∷ [];
              severity = restricted;
            },
            units "[[0]]",
          )
          ∷ (
            record { start = 15; end = 18; categories = units "word" ∷ []; severity = sensitive },
            units "[[1]]",
          )
          ∷ [];
      replacements = (units "[[0]]", units "bob@x.org") ∷ (units "[[1]]", units "now") ∷ [];
    })
unfolding redact_sensitive_data safe_natural includes ◌===◌
redact_test = refl
