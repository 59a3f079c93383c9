-- ===== src/Workflows/Csv/Tests.antt =====
-- Runs of csv.ts.
use browser_cortex.Contracts.Schemas.{utf8_byte_length}
use browser_cortex.Common.{
  ◌≡◌, refl, List, [], ◌∷◌, ◌++◌, Text, nat, units, bounded_positive, includes, ◌===◌,
}
use browser_cortex.Workflows.Csv.{Row, done, failed, too_many_rows, unterminated, parse_csv}
use browser_cortex.Workflows.Csv.Rows.{IsTable, parse_csv-IsTable}

abbrev same : Text → Text
same text = text

abbrev table : List Row
table =
    ((units "name", units "Ann") ∷ (units "note", units "a,\"b") ∷ [])
    ∷ ((units "name", units "Bo") ∷ (units "note", []) ∷ [])
    ∷ []

abbrev newline : Text
newline = 13 ∷ 10 ∷ []

abbrev file : Text
file =
    units "name,note"
    ++ (newline ++ (units "Ann,\"a,\"\"b\"" ++ (newline ++ (units "Bo," ++ newline))))

parse_test : parse_csv same file 2 (nat 1000) ≡ done table
unfolding parse_csv bounded_positive utf8_byte_length ◌===◌ includes
parse_test = refl

rows_test : parse_csv same file 1 (nat 1000) ≡ failed too_many_rows
unfolding parse_csv bounded_positive utf8_byte_length
rows_test = refl

quote_test : parse_csv same (units "a,\"b") 1 (nat 1000) ≡ failed unterminated
unfolding parse_csv bounded_positive utf8_byte_length
quote_test = refl

parse_csv-IsTable_example : IsTable 2 table
parse_csv-IsTable_example = parse_csv-IsTable same file 2 (nat 1000) table parse_test
