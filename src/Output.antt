-- ===== src/Output.antt =====
-- internal/output/printer.go: tables and JSON on standard output. The layout of package text/tabwriter and
-- the encoder of encoding/json are parameters. A text is its code points: 9 is a tab, 10 a line feed.
pub mod Ends
use text.Mathlib.Text.{◌==◌ as str_eq}
use jobsd.Common.{
  ℕ, zero, suc, Bool, true, false, not, List, [], ◌∷◌, ◌++◌, String, if◌then◌else◌, map,
}
use jobsd.Common.Text.{Runes, runes}
use jobsd.Result.{system, invalid, Result, ok, err, hang}
use jobsd.Action.{Action, pure, lift, ◌>>=◌, ◌>>◌, refuse_if}

pub data Format : Type 0 where
  table json : Format

unfoldable pub parse_format : String → Result Format
parse_format value =
    if str_eq value "table"
    then ok Format.table
    else if str_eq value "json"
    then ok Format.json
    else err (invalid "unsupported output format")

abbrev pub is_table : Format → Bool
is_table Format.table = true
is_table Format.json = false

-- Standard output, and the text that the tab writer of the table in work has been given. A write
-- fails as `refuses` says.
pub record Terminal : Type 0 where
  pub table_text : Runes
  pub screen : Runes
  pub refuses : ℕ → Bool
  pub writes : ℕ

pub record Field : Type 0 where
  pub name : Runes
  pub value : Runes

abbrev pub counted : Terminal → Terminal
counted t = record t { writes = suc t.writes }

-- a write that succeeds changes the terminal
abbrev pub write : (Terminal → Terminal) → Action Terminal Unit
write change t = if t.refuses t.writes then (err system, counted t) else (ok tt, change (counted t))

-- io.WriteString to the tab writer, and to the terminal
abbrev pub write_string : Runes → Action Terminal Unit
write_string s = write (λ t. record t { table_text = t.table_text ++ s })

abbrev pub show : Runes → Action Terminal Unit
show s = write (λ t. record t { screen = t.screen ++ s })

-- `if index > 0`
abbrev pub separate : ℕ → Action Terminal Unit
separate zero = pure tt
separate (suc index) = write_string (9 ∷ [])

-- the loop of writeRow, from an index on
unfoldable pub write_columns : ℕ → List Runes → Action Terminal Unit
write_columns index [] = pure tt
write_columns index (column ∷ columns) = do
  separate index
  write_string column
  write_columns (suc index) columns

unfoldable pub write_row : List Runes → Action Terminal Unit
unfolding write_columns
write_row columns = do write_columns 0 columns; write_string (10 ∷ [])

unfoldable pub write_rows : List (List Runes) → Action Terminal Unit
unfolding write_row
write_rows [] = pure tt
write_rows (row ∷ rows) = do write_row row; write_rows rows

-- tabwriter.NewWriter
abbrev pub new_writer : Action Terminal Unit
new_writer t = (ok tt, record t { table_text = [] })

module _ (align : Runes → Runes) where
  -- writer.Flush
  abbrev pub flush : Action Terminal Unit
  flush = write (λ t. record t { screen = t.screen ++ align t.table_text })

  unfoldable pub print_table : Format → List Runes → List (List Runes) → Action Terminal Unit
  unfolding write_row write_rows
  print_table format headers rows = do
    refuse_if (not (is_table format)) (invalid "table output is not supported")
    new_writer
    write_row headers
    write_rows rows
    flush

  unfoldable pub print_fields : Format → List Field → Action Terminal Unit
  unfolding print_table
  print_fields format fields =
      print_table format (runes "FIELD" ∷ runes "VALUE" ∷ [])
        (map (λ (f : Field). f.name ∷ f.value ∷ []) fields)

-- encoder.Encode, which writes once
abbrev pub print_json : {A : Type 0} → (A → Runes) → A → Action Terminal Unit
print_json encode value = show (encode value)
