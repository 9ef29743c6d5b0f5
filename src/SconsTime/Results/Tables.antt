-- ===== src/SconsTime/Results/Tables.antt =====
-- The tables of measured values.
use domq.Prelude.{
  ℕ, zero, suc, ◌+◌, ◌-◌, ◌≤◌, leb, Option, none, some, List, [], ◌∷◌, ◌++◌, map, length,
  length-append, replicate, All, Result, ok, raise, diverge, ◌>>=◌, ◌≡◌, refl, arith, Bool-cases,
  inl, inr, Text,
}
use domq.SconsTime.Results.{
  Measured, nothing, one, several, Row, row_of, measured_row, above, ascii_table,
}

-- A row of a table: as many cells as columns, and a name.
abbrev pub IsRow : List Text → Row → Type 0
IsRow columns row = length row.0 ≡ length columns

length-map {ℓ κ} : {A : Type ℓ} {B : Type κ} (f : A → B) (l : List A) → length (map f l) ≡ length l
length-map f [] = refl
length-map f (a ∷ l) = omega (arith, length-map f l)

length-replicate {ℓ} : {A : Type ℓ} (n : ℕ) (a : A) → length (replicate n a) ≡ n
length-replicate zero a = refl
length-replicate (suc n) a = omega (arith, length-replicate n a)

-- A row that is printed has the right width and the file's name.
abbrev Fits : List Text → Text → Result Row → Type 0
Fits columns name (ok row) = IsRow columns row × (row.1 ≡ name)
Fits columns name (raise e) = Unit
Fits columns name diverge = Unit

row_of-Fits :
    (columns : List Text) (name : Text) (t : List ℕ) → Fits columns name (row_of columns name t)
row_of-Fits columns name t = elim (Bool-cases (leb (length t) (length columns))) [
  | inr wide ↦ rw wide tt
  | inl narrow ↦
      let blanks : List (Option ℕ) = replicate (length columns - length t) none in
      let h : length (map some t ++ blanks) ≡ length (map some t) + length blanks =
        length-append (map some t) blanks in
      let k : length (map some t) ≡ length t = length-map some t in
      let n : length blanks ≡ length columns - length t = length-replicate _ none in
      rw narrow (let small : length t ≤ length columns = ground arith in omega arith, refl)
]

measured_row-Fits :
    (columns : List Text) (name : Text) (m : Measured)
    → Fits columns name (measured_row columns name m)
measured_row-Fits columns name nothing = row_of-Fits columns name []
measured_row-Fits columns name (one n) = tt
measured_row-Fits columns name (several t) = row_of-Fits columns name t

line-Fits :
    (columns : List Text) (name : Text) (line : Result Measured)
    → Fits columns name (line >>= measured_row columns name)
line-Fits columns name (ok m) = measured_row-Fits columns name m
line-Fits columns name (raise e) = tt
line-Fits columns name diverge = tt

abbrev row_name : Row → Text
row_name row = row.1

abbrev IsTable : List Text → List Text → List Row × Result (Unit {0}) → Type 0
IsTable columns names table =
    All (IsRow columns) table.0 × (table.1 ≡ ok tt → map row_name table.0 ≡ names)

above-IsTable :
    (columns : List Text) (name : Text) (names : List Text) (row : Result Row)
    (table : List Row × Result (Unit {0}))
    → Fits columns name row
    → IsTable columns names table
    → IsTable columns (name ∷ names) (above row table)
above-IsTable columns name names (ok row) table (wide, named) (rows, all) =
    ((wide, rows), λ e. rw (named, all e) refl)
above-IsTable columns name names (raise e) table h (rows, all) = (tt, λ e. absurd cc)
above-IsTable columns name names diverge table h (rows, all) = (tt, λ e. absurd cc)

-- Every row that is printed has a cell for each column, filled up with empty ones, and a table that
-- ends without an exception has a row for each file, in the order of the files.
pub ascii_table_lem :
    (columns : List Text) (line_function : Text → Result Measured) (file_function : Text → Text)
    (files : List Text)
    → All
        (λ row. length row.0 ≡ length columns)
        (ascii_table columns line_function file_function files).0
      × ((ascii_table columns line_function file_function files).1 ≡ ok tt
          → map (λ row. row.1) (ascii_table columns line_function file_function files).0
            ≡ map file_function files)
unfolding ascii_table
ascii_table_lem columns line_function file_function [] = (tt, λ e. refl)
ascii_table_lem columns line_function file_function (file ∷ files) =
    above-IsTable columns (file_function file) (map file_function files) _ _
      (line-Fits columns (file_function file) (line_function file))
      (ascii_table_lem columns line_function file_function files)
