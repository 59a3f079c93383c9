-- ===== src/Workflows/Csv/Rows.antt =====
-- The table that `parseCsv` (csv.ts) returns.
use browser_cortex.Common.{
  ℕ, suc, ◌+◌, ◌≤◌, ◌≡◌, refl, sym, subst, ap, Bool, true, false, ◌&&◌, ◌||◌, Option, none, some,
  List, [], ◌∷◌, Text, Number, length, map, ltb, ◌==◌, arith, All, Bool-cases, inl, inr, if_intro,
  bounded_positive, max_safe_integer,
}
use browser_cortex.Workflows.Csv.{
  Outcome, done, failed, Scan, push, end_field, end_record, within_rows, close, scan, is_unsafe_key,
  Row, check_headers, are_distinct, is_blank, row_of, cons_row, rows_of, rows_checked, rows_from,
  parse_bounded, parse_csv,
}

abbrev pub keys : Row → List Text
keys row = map (λ (entry : Text × Text). entry.0) row

row_of-keys : (headers values : List Text) → keys (row_of headers values) ≡ headers
unfolding row_of
row_of-keys [] values = refl
row_of-keys (h ∷ headers) [] = ap (λ xs. h ∷ xs) (row_of-keys headers [])
row_of-keys (h ∷ headers) (v ∷ values) = ap (λ xs. h ∷ xs) (row_of-keys headers values)

-- Rows under these headers, no more than the records.
abbrev FitRows : List Text → ℕ → Outcome (List Row) → Type 0
FitRows headers n (failed failure) = Unit
FitRows headers n (done rows) = All (λ row. keys row ≡ headers) rows × (length rows ≤ n)

FitRows-le :
    (headers : List Text) (n m : ℕ) (o : Outcome (List Row))
    → n ≤ m
    → FitRows headers n o
    → FitRows headers m o
FitRows-le headers n m (failed failure) h f = tt
FitRows-le headers n m (done rows) h f = (f.0, omega (arith, f.1))

FitRows-cons :
    (headers values : List Text) (n : ℕ) (o : Outcome (List Row))
    → FitRows headers n o
    → FitRows headers (suc n) (cons_row (row_of headers values) o)
unfolding cons_row
FitRows-cons headers values n (failed failure) f = tt
FitRows-cons headers values n (done rows) f =
    ((row_of-keys headers values, f.0), omega (arith, f.1))

rows_of-FitRows :
    (headers : List Text) (records : List (List Text))
    → FitRows headers (length records) (rows_of headers records)
unfolding rows_of
rows_of-FitRows headers [] = (tt, omega arith)
rows_of-FitRows headers (values ∷ records) =
    if_intro (FitRows headers (suc (length records))) (is_blank values) _ _
      (λ blank.
        FitRows-le headers (length records) (suc (length records)) (rows_of headers records)
          (omega arith) (rows_of-FitRows headers records))
      (λ full.
        if_intro (FitRows headers (suc (length records))) (length values == length headers) _ _
          (λ even.
            FitRows-cons headers values (length records) (rows_of headers records)
              (rows_of-FitRows headers records))
          (λ odd. tt))

-- No more records than the bound and the line of headers.
abbrev FewRecords : ℕ → Outcome (List (List Text)) → Type 0
FewRecords max_rows (failed failure) = Unit
FewRecords max_rows (done records) = length records ≤ max_rows + 1

within-FewRecords :
    (max_rows : ℕ) (records : List (List Text)) (rest : Outcome (List (List Text)))
    → (length records ≤ max_rows + 1 → FewRecords max_rows rest)
    → FewRecords max_rows (within_rows max_rows records rest)
unfolding within_rows
within-FewRecords max_rows records rest f =
    if_intro (FewRecords max_rows) (ltb (max_rows + 1) (length records)) _ _ (λ over. tt)
      (λ fits. f (ground arith))

close-FewRecords :
    (max_rows : ℕ) (s : Scan) (quoted : Bool)
    → length s.records ≤ max_rows + 1
    → FewRecords max_rows (close max_rows s quoted)
unfolding close
close-FewRecords max_rows s true h = tt
close-FewRecords max_rows s false h =
    if_intro (FewRecords max_rows) (ltb 0 (length s.field) || ltb 0 (length s.record_so_far)) _ _
      (λ more. within-FewRecords max_rows _ _ (λ fits. fits)) (λ none_left. h)

scan-FewRecords :
    (max_rows : ℕ) (s : Scan) (quoted : Bool) (text : Text)
    → length s.records ≤ max_rows + 1
    → FewRecords max_rows (scan max_rows s quoted text)
unfolding scan
scan-FewRecords max_rows s quoted [] h = close-FewRecords max_rows s quoted h
scan-FewRecords max_rows s true (c ∷ []) h =
    if_intro (FewRecords max_rows) (c == b'"') _ _ (λ e. close-FewRecords max_rows s false h)
      (λ e. close-FewRecords max_rows (push c s) true h)
scan-FewRecords max_rows s true (c ∷ d ∷ text) h =
    if_intro (FewRecords max_rows) (c == b'"' && d == b'"') _ _
      (λ e. scan-FewRecords max_rows (push c s) true text h)
      (λ e.
        if_intro (FewRecords max_rows) (c == b'"') _ _
          (λ e'. scan-FewRecords max_rows s false (d ∷ text) h)
          (λ e'. scan-FewRecords max_rows (push c s) true (d ∷ text) h))
scan-FewRecords max_rows s false (c ∷ text) h =
    if_intro (FewRecords max_rows) (c == b'"' && length s.field == 0) _ _
      (λ e. scan-FewRecords max_rows s true text h)
      (λ e.
        if_intro (FewRecords max_rows) (c == b',') _ _
          (λ e. scan-FewRecords max_rows (end_field s) false text h)
          (λ e.
            if_intro (FewRecords max_rows) (c == 10) _ _
              (λ e.
                within-FewRecords max_rows (end_record s).records _
                  (λ fits. scan-FewRecords max_rows (end_record s) false text fits))
              (λ e. scan-FewRecords max_rows (push c s) false text h)))

-- The keys of a table are distinct, not empty and safe, all rows have them, and the rows are few.
pub record IsTable (max_rows : ℕ) (rows : List Row) : Type 0 where
  pub headers : List Text
  pub distinct : are_distinct headers ≡ true
  pub safe : All (λ header. (is_unsafe_key header ≡ false) × ((length header == 0) ≡ false)) headers
  pub uniform : All (λ row. keys row ≡ headers) rows
  pub few : length rows ≤ max_rows

check_headers-eq-done :
    (headers : List Text) (checked : Unit {0})
    → check_headers headers ≡ done checked
    → All (λ header. (is_unsafe_key header ≡ false) × ((length header == 0) ≡ false)) headers
unfolding check_headers
check_headers-eq-done [] checked h = tt
check_headers-eq-done (header ∷ headers) checked h =
    let facts : ((length header == 0) ≡ false)
        × (is_unsafe_key header ≡ false)
        × (check_headers headers ≡ done checked) =
      ground arith in
    ((facts.1, facts.0), check_headers-eq-done headers checked facts.2)

rows_checked-IsTable :
    (max_rows : ℕ) (headers : List Text) (records : List (List Text)) (checked : Outcome (Unit {0}))
    (rows : List Row)
    → check_headers headers ≡ checked
    → length records ≤ max_rows
    → rows_checked headers records checked ≡ done rows
    → IsTable max_rows rows
unfolding rows_checked
rows_checked-IsTable max_rows headers records (failed failure) rows c few h = absurd (cc)
rows_checked-IsTable max_rows headers records (done checked) rows c few h =
    let facts : (are_distinct headers ≡ true) × (rows_of headers records ≡ done rows) =
      ground arith in
    let fit = subst (FitRows headers (length records)) facts.1 (rows_of-FitRows headers records) in
    record {
      headers = headers;
      distinct = facts.0;
      safe = check_headers-eq-done headers checked c;
      uniform = fit.0;
      few = omega (arith, fit.1, few);
    }

no_rows-IsTable : (max_rows : ℕ) (rows : List Row) → rows ≡ [] → IsTable max_rows rows
unfolding are_distinct
no_rows-IsTable max_rows rows e =
    subst (IsTable max_rows) (sym e)
      (record { headers = []; distinct = refl; safe = tt; uniform = tt; few = omega arith })

module _ (trim : Text → Text) where
  rows_from-IsTable :
      (max_rows : ℕ) (scanned : Outcome (List (List Text))) (rows : List Row)
      → FewRecords max_rows scanned
      → rows_from trim scanned ≡ done rows
      → IsTable max_rows rows
  unfolding rows_from
  rows_from-IsTable max_rows (failed failure) rows few h = absurd (cc)
  rows_from-IsTable max_rows (done []) rows few h = no_rows-IsTable max_rows rows (cc)
  rows_from-IsTable max_rows (done (headers ∷ records)) rows few h =
      elim (Bool-cases (is_blank (map trim headers))) [
        | inl blank ↦ no_rows-IsTable max_rows rows (ground arith)
        | inr full ↦
            rows_checked-IsTable max_rows (map trim headers) records
              (check_headers (map trim headers)) rows refl (omega (arith, few)) (rw full at h)
      ]

  parse_bounded-IsTable :
      (input : Text) (max_rows : ℕ) (max_bytes : Option ℕ) (rows : List Row)
      → parse_bounded trim input max_rows max_bytes ≡ done rows
      → IsTable max_rows rows
  unfolding parse_bounded
  parse_bounded-IsTable input max_rows none rows h = absurd (cc)
  parse_bounded-IsTable input max_rows (some max_bytes) rows h =
      let start : Scan = record { records = []; record_so_far = []; field = [] } in
      let e : rows_from trim (scan max_rows start false input) ≡ done rows = ground arith in
      rows_from-IsTable max_rows (scan max_rows start false input) rows
        (scan-FewRecords max_rows start false input (omega arith)) e

  -- When `parseCsv` returns rows, there are no more than the given bound, all have the same keys in
  -- the same order, and these keys are distinct, not empty, and none of the unsafe ones.
  pub parse_csv-IsTable :
      (input : Text) (max_rows : ℕ) (max_bytes : Number) (rows : List Row)
      → parse_csv trim input max_rows max_bytes ≡ done rows
      → IsTable max_rows rows
  unfolding parse_csv
  parse_csv-IsTable input max_rows max_bytes rows h =
      parse_bounded-IsTable input max_rows (bounded_positive max_safe_integer max_bytes) rows h
