-- ===== src/Workflows/Csv.antt =====
-- packages/workflows/src/csv.ts: `parseCsv`, with `assertSafeKey` of canonical.ts. The errors are
-- those that it throws; `trim` stands for the string method. A row is its keys and values in order.
pub mod Rows
mod Tests
use browser_cortex.Common.{
  ℕ, ◌+◌, ◌≡◌, Bool, true, false, not, ◌&&◌, ◌||◌, Option, none, some, List, [], ◌∷◌, ◌++◌, Text,
  Number, units, ◌===◌, includes, length, every, any, map, min, if◌then◌else◌, leb, ltb, ◌==◌,
  bounded_positive, max_safe_integer,
}
use browser_cortex.Contracts.Schemas.{utf8_byte_length}

pub data Failure : Type 0 where
  byte_limit_invalid too_many_bytes too_many_rows unterminated : Failure
  empty_header unsafe_key repeated_header column_count : Failure

pub data Outcome {ℓ} (A : Type ℓ) : Type ℓ where
  done : A → Outcome A
  failed : Failure → Outcome A

-- The variables of the loop but for `quoted`.
pub record Scan : Type 0 where
  pub records : List (List Text)
  pub record_so_far : List Text
  pub field : Text

abbrev pub push : ℕ → Scan → Scan
push c s = record s { field = s.field ++ c ∷ [] }

abbrev pub end_field : Scan → Scan
end_field s = record s { record_so_far = s.record_so_far ++ s.field ∷ []; field = [] }

-- `field.replace(/\r$/u, "")`
pub without_return : Text → Text
without_return [] = []
without_return (c ∷ []) = if c == 13 then [] else c ∷ []
without_return (c ∷ d ∷ text) = c ∷ without_return (d ∷ text)

abbrev pub end_record : Scan → Scan
end_record s = record {
  records = s.records ++ (s.record_so_far ++ without_return s.field ∷ []) ∷ [];
  record_so_far = [];
  field = [];
}

-- `if (records.length > maxRows + 1) throw`
pub within_rows : ℕ → List (List Text) → Outcome (List (List Text)) → Outcome (List (List Text))
within_rows max_rows records rest =
    if ltb (max_rows + 1) (length records) then failed too_many_rows else rest

-- The part behind the loop, up to the headers.
pub close : ℕ → Scan → Bool → Outcome (List (List Text))
unfolding within_rows
close max_rows s true = failed unterminated
close max_rows s false =
    let all = s.records ++ (s.record_so_far ++ s.field ∷ []) ∷ [] in
    if ltb 0 (length s.field) || ltb 0 (length s.record_so_far)
    then within_rows max_rows all (done all)
    else done s.records

-- The loop over the characters that are left; its last argument but one is `quoted`.
pub scan : ℕ → Scan → Bool → Text → Outcome (List (List Text))
unfolding close without_return
scan max_rows s quoted [] = close max_rows s quoted
scan max_rows s true (c ∷ []) =
    if c == b'"' then close max_rows s false else close max_rows (push c s) true
scan max_rows s true (c ∷ d ∷ text) =
    let doubled = scan max_rows (push c s) true text in
    let ended = scan max_rows s false (d ∷ text) in
    let kept = scan max_rows (push c s) true (d ∷ text) in
    if c == b'"' && d == b'"' then doubled else if c == b'"' then ended else kept
scan max_rows s false (c ∷ text) =
    let opened = scan max_rows s true text in
    let separated = scan max_rows (end_field s) false text in
    let line = scan max_rows (end_record s) false text in
    let kept = scan max_rows (push c s) false text in
    if c == b'"' && length s.field == 0
    then opened
    else if c == b','
    then separated
    else if c == 10
    then within_rows max_rows (end_record s).records line
    else kept

-- assertSafeKey
pub is_unsafe_key : Text → Bool
is_unsafe_key key =
    key === units "__proto__" || key === units "prototype" || key === units "constructor"

abbrev pub Row : Type 0
Row = List (Text × Text)

-- MAX_CSV_INPUT_BYTES
abbrev pub max_input_bytes : ℕ
max_input_bytes = 20971520

-- The loop over the normalized headers.
pub check_headers : List Text → Outcome (Unit {0})
unfolding is_unsafe_key
check_headers [] = done tt
check_headers (header ∷ headers) =
    if length header == 0
    then failed empty_header
    else if is_unsafe_key header
    then failed unsafe_key
    else check_headers headers

-- `new Set(texts).size === texts.length`
pub are_distinct : List Text → Bool
are_distinct [] = true
are_distinct (x ∷ xs) = not (includes xs x) && are_distinct xs

abbrev pub is_blank : List Text → Bool
is_blank values = every (λ value. length value == 0) values

-- The loop that fills a row, over headers and values of equal number.
pub row_of : List Text → List Text → Row
row_of [] values = []
row_of (header ∷ headers) [] = (header, []) ∷ row_of headers []
row_of (header ∷ headers) (value ∷ values) = (header, value) ∷ row_of headers values

pub cons_row : Row → Outcome (List Row) → Outcome (List Row)
cons_row row (done rows) = done (row ∷ rows)
cons_row row (failed failure) = failed failure

-- The `filter` and `map` over the records behind the headers.
pub rows_of : List Text → List (List Text) → Outcome (List Row)
unfolding row_of cons_row
rows_of headers [] = done []
rows_of headers (values ∷ records) =
    let rest = rows_of headers records in
    if is_blank values
    then rest
    else if length values == length headers
    then cons_row (row_of headers values) rest
    else failed column_count

pub rows_checked : List Text → List (List Text) → Outcome (Unit {0}) → Outcome (List Row)
unfolding are_distinct rows_of
rows_checked headers records (failed failure) = failed failure
rows_checked headers records (done checked) =
    if not (are_distinct headers) then failed repeated_header else rows_of headers records

module _ (trim : Text → Text) where
  -- The part of `parseCsv` from the headers on.
  pub rows_from : Outcome (List (List Text)) → Outcome (List Row)
  unfolding check_headers rows_checked
  rows_from (failed failure) = failed failure
  rows_from (done []) = done []
  rows_from (done (headers ∷ records)) =
      if is_blank (map trim headers)
      then done []
      else rows_checked (map trim headers) records (check_headers (map trim headers))

  pub parse_bounded : Text → ℕ → Option ℕ → Outcome (List Row)
  unfolding scan rows_from
  parse_bounded input max_rows none = failed byte_limit_invalid
  parse_bounded input max_rows (some max_bytes) =
      if ltb (min max_bytes max_input_bytes) (utf8_byte_length input)
      then failed too_many_bytes
      else rows_from
          (scan max_rows (record { records = []; record_so_far = []; field = [] }) false input)

  pub parse_csv : Text → ℕ → Number → Outcome (List Row)
  unfolding parse_bounded
  parse_csv input max_rows max_bytes =
      parse_bounded input max_rows (bounded_positive max_safe_integer max_bytes)
