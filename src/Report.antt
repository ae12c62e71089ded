-- ===== src/Report.antt =====
-- The report of a profiled execution: `_wyinstr_dump` of wyinstr.cpp writes it, and the first loop of
-- `loadProfileInfo`, passes/Lazyfication.cpp, reads it. A text is a list of character codes. `printf`
-- of a number and `std::stol` are the C library's, and parameters.
pub mod RoundTrip
pub mod Attach
pub mod Profile
pub mod Examples
use wyvern.Base.{
  ℕ, zero, suc, ◌+◌, ◌-◌, ◌^◌, ◌%◌, ◌≡◌, Bool, true, false, List, [], ◌∷◌, ◌++◌, Option, none, some,
  ltb, ◌==◌, if◌then◌else◌, length,
}
use wyvern.Base.Int.{ℤ, pos, negsuc}
use wyvern.Runtime.Order.{CallsiteId}
use wyvern.Runtime.{ProfReport, ProfileInfo}

abbrev pub Text : Type 0
Text = List ℕ

abbrev pub comma : ℕ
comma = 44

abbrev pub newline : ℕ
newline = 10

module _ (show : ℤ → Text) (name_at : ℕ → Text) where
  -- A number and the comma after it.
  pub print_number : ℤ → Text
  print_number n = show n ++ comma ∷ []

  -- A loop over an array of the report.
  pub print_numbers : List ℕ → Text
  print_numbers [] = []
  print_numbers (n ∷ ns) = print_number (pos n) ++ print_numbers ns

  pub print_report : CallsiteId × ProfReport → Text
  print_report (key, value) =
      name_at key.fun_name
      ++ comma ∷ print_number key.call_id
      ++ print_number (pos value.num_calls)
      ++ print_number value.num_args
      ++ print_numbers value.unique_arg_evals
      ++ print_numbers value.arg_evals
      ++ newline ∷ []

  pub print_reports : ProfileInfo → Text
  print_reports [] = []
  print_reports (entry ∷ rest) = print_report entry ++ print_reports rest

  -- `_wyinstr_dump`, the text that it writes; `header` is its first line.
  pub dump : Text → ProfileInfo → Text
  dump header info = header ++ newline ∷ print_reports info

-- `profileReportFile`: what is left of it, and `none` once the end was met (`eofbit`), from where on
-- nothing is read.
abbrev pub Stream : Type 0
Stream = Option Text

-- What comes before the next `delim`, and what comes after it.
pub split : ℕ → Text → Text × Stream
split delim [] = ([], none)
split delim (c ∷ cs) =
    let rest = split delim cs in if c == delim then ([], some cs) else (c ∷ rest.0, rest.1)

-- `getline(file, parsed_val, delim)`: whether it has read something, `parsed_val`, and the file. At
-- the end `parsed_val` is emptied, and behind it left alone.
pub get_line : ℕ → Text → Stream → Bool × (Text × Stream)
get_line delim parsed_val none = (false, (parsed_val, none))
get_line delim parsed_val (some []) = (false, ([], none))
get_line delim parsed_val (some (c ∷ cs)) = (true, split delim (c ∷ cs))

-- `file.ignore(max, '\n')`
pub ignore_line : Stream → Stream
ignore_line none = none
ignore_line (some cs) = (split newline cs).1

-- The conversion of an `int64_t` to a `uint64_t`.
unfoldable pub to_u64 : ℤ → ℕ
to_u64 (pos n) = n % 2 ^ 64
to_u64 (negsuc k) = 2 ^ 64 - suc (k % 2 ^ 64)

-- A line of the report: the caller's name, the instruction, and its `WyvernCallSiteProfInfo`.
pub record Row : Type 0 where
  pub caller_name : Text
  pub inst_id : ℕ
  pub num_calls : ℕ
  pub unique_evals : List ℤ
  pub total_evals : List ℤ

-- `none` is the exception of `std::stol`, or a write past the end of a vector.
module _ (stol : Text → Option ℤ) where
  -- `stol(parsed_val)`
  pub convert : Text → Stream → Option (ℤ × (Text × Stream))
  convert parsed_val rest = elim (stol parsed_val) [
    | none ↦ none
    | some n ↦ some (n, (parsed_val, rest))
  ]

  -- `getline` and `stol`, whether or not the first has read something. The results are the number,
  -- `parsed_val`, and the file.
  pub load_number : Text → Stream → Option (ℤ × (Text × Stream))
  load_number parsed_val file =
      let (_, (val, rest)) = get_line comma parsed_val file in convert val rest

  pub load_numbers : ℕ → Text → Stream → Option (List ℤ × (Text × Stream))
  load_numbers zero parsed_val cs = some ([], (parsed_val, cs))
  load_numbers (suc count) parsed_val cs = elim (load_number parsed_val cs) [
    | none ↦ none
    | some (n, (val, rest)) ↦ elim (load_numbers count val rest) [
      | none ↦ none
      | some (ns, after) ↦ some (n ∷ ns, after)
    ]
  ]

  -- The vectors have `numArgs % 256` elements, as the constructor takes a `uint8_t`.
  pub load_evals : Text → ℕ → ℕ → ℕ → Text → Stream → Option (Row × Stream)
  load_evals name id calls count parsed_val cs =
      if ltb count 256
      then elim (load_numbers count parsed_val cs) [
        | none ↦ none
        | some (unique, (val, rest)) ↦ elim (load_numbers count val rest) [
          | none ↦ none
          | some (total, (_, rest')) ↦ some (
            record {
              caller_name = name;
              inst_id = id;
              num_calls = calls;
              unique_evals = unique;
              total_evals = total;
            },
            ignore_line rest',
          )
        ]
      ]
      else none

  -- One round of the loop, after the name.
  pub load_row : Text → Stream → Option (Row × Stream)
  load_row name cs = elim (load_number name cs) [
    | none ↦ none
    | some (id, (val, rest)) ↦ elim (load_number val rest) [
      | none ↦ none
      | some (calls, (val', rest')) ↦ elim (load_number val' rest') [
        | none ↦ none
        | some (args, (val'', rest'')) ↦
            load_evals name (to_u64 id) (to_u64 calls) (to_u64 args) val'' rest''
      ]
    ]
  ]

  -- The body of the loop over the lines, where `getline` has read something; `later` is its next rounds.
  pub load_next : (Stream → Option (List Row)) → Bool × (Text × Stream) → Option (List Row)
  load_next later (false, _) = some []
  load_next later (true, (name, rest)) = elim (load_row name rest) [
    | none ↦ none
    | some (row, rest') ↦ elim (later rest') [ none ↦ none | some rows ↦ some (row ∷ rows) ]
  ]

  -- `while (getline(file, parsed_val, ','))`; the loop takes a character in each round.
  pub load_rows : ℕ → Stream → Option (List Row)
  load_rows zero file = none
  load_rows (suc fuel) file = load_next (load_rows fuel) (get_line comma [] file)

  pub load : Text → Option (List Row)
  load cs = load_rows (suc (length cs)) (ignore_line (some cs))
