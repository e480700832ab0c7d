-- ===== src/Output/Ends.antt =====
-- Printing comes to an end.
use jobsd.Common.{ℕ, suc, List, [], ◌∷◌, map, String, ◌≢◌, refl, arith}
use jobsd.Common.Text.{Runes, runes}
use jobsd.Result.{Result, ok, err, hang}
use jobsd.Action.{Action, pure, continue, ◌>>=◌, ◌>>◌}
use jobsd.Output.{
  Format, Field, Terminal, parse_format, separate, write_string, write_columns, write_row,
  write_rows, flush, show, print_table, print_fields,
}

abbrev pub Ends : {A : Type 0} → Action Terminal A → Type 0
Ends m = (t : Terminal) → (m t).0 ≢ hang

continue-Ends :
    {A B : Type 0} (r : Result A) (f : A → Action Terminal B) (t : Terminal)
    → r ≢ hang
    → ((a : A) → Ends (f a))
    → (continue r f t).0 ≢ hang
continue-Ends (ok a) f t back ends e = ends a t e
continue-Ends (err x) f t back ends e = cc
continue-Ends hang f t back ends e = back refl

pub Ends-bind :
    {A B : Type 0} (m : Action Terminal A) (f : A → Action Terminal B)
    → Ends m
    → ((a : A) → Ends (f a))
    → Ends (m >>= f)
Ends-bind m f h k t = continue-Ends (m t).0 f (m t).1 (h t) k

Ends-pure : Ends (pure tt)
Ends-pure t e = cc

Ends-write_string : (s : Runes) → Ends (write_string s)
Ends-write_string s t e = ground arith

Ends-write_columns : (index : ℕ) (columns : List Runes) → Ends (write_columns index columns)
unfolding write_columns
Ends-write_columns index [] = Ends-pure
Ends-write_columns index (column ∷ columns) =
    let rest = Ends-write_columns (suc index) columns in
    Ends-bind (separate index) (λ u. write_string column >> write_columns (suc index) columns)
      (λ t e. ground arith)
      (λ u.
        Ends-bind (write_string column) (λ u. write_columns (suc index) columns)
          (Ends-write_string column) (λ u. rest))

Ends-write_row : (row : List Runes) → Ends (write_row row)
unfolding write_row
Ends-write_row row =
    Ends-bind (write_columns 0 row) (λ u. write_string (10 ∷ [])) (Ends-write_columns 0 row)
      (λ u. Ends-write_string (10 ∷ []))

Ends-write_rows : (rows : List (List Runes)) → Ends (write_rows rows)
unfolding write_rows
Ends-write_rows [] = Ends-pure
Ends-write_rows (row ∷ rows) =
    Ends-bind (write_row row) (λ u. write_rows rows) (Ends-write_row row)
      (λ u. Ends-write_rows rows)

Ends-flush : (align : Runes → Runes) → Ends (flush align)
Ends-flush align t e = ground arith

pub Ends-print_table :
    (align : Runes → Runes) (headers : List Runes) (rows : List (List Runes))
    → Ends (print_table align Format.table headers rows)
unfolding print_table
Ends-print_table align headers rows t =
    Ends-bind (write_row headers) (λ u. write_rows rows >> flush align) (Ends-write_row headers)
      (λ u.
        Ends-bind (write_rows rows) (λ u. flush align) (Ends-write_rows rows)
          (λ u. Ends-flush align))
      (record t { table_text = [] })

pub Ends-show : (text : Runes) → Ends (show text)
Ends-show text t e = ground arith

pub Ends-print_fields :
    (align : Runes → Runes) (fields : List Field) → Ends (print_fields align Format.table fields)
unfolding print_fields
Ends-print_fields align fields =
    Ends-print_table align (runes "FIELD" ∷ runes "VALUE" ∷ [])
      (map (λ (f : Field). f.name ∷ f.value ∷ []) fields)

pub parse_format_returns : (flag : String) → parse_format flag ≢ hang
unfolding parse_format
parse_format_returns flag e = ground arith
