-- ===== src/Report/RoundTrip.antt =====
-- `loadProfileInfo`, passes/Lazyfication.cpp, reads the report that `_wyinstr_dump`, wyinstr.cpp,
-- writes.
use wyvern.Base.{
  ℕ, zero, suc, ◌≤◌, ◌<◌, ◌^◌, ◌%◌, ◌≡◌, refl, ap, ◌∙◌, Bool, true, false, List, [], ◌∷◌, ◌++◌,
  Option, some, arith, append_assoc, map, ◌==◌, All, length, length-append, lt→ltb,
}
use wyvern.Base.Int.{ℤ, pos, negsuc}
use wyvern.Runtime.Order.{CallsiteId}
use wyvern.Runtime.{ProfReport, ProfileInfo}
use wyvern.Report.{
  Text, Stream, comma, newline, print_number, print_numbers, print_report, print_reports, dump,
  split, get_line, ignore_line, to_u64, Row, convert, load_number, load_numbers, load_evals,
  load_row, load_next, load_rows, load,
}

abbrev pub Lacks : ℕ → Text → Type 0
Lacks d = All (λ c. (c == d) ≡ false)

split-found : (d : ℕ) (xs ys : Text) → Lacks d xs → split d (xs ++ d ∷ ys) ≡ (xs, some ys)
unfolding split
split-found d [] ys h = ground arith
split-found d (x ∷ xs) ys h = rw (h.0, split-found d xs ys h.1) refl

get_line-found :
    (d : ℕ) (v xs ys : Text)
    → Lacks d xs
    → get_line d v (some (xs ++ d ∷ ys)) ≡ (true, (xs, some ys))
unfolding get_line
get_line-found d v [] ys h = ap (λ (r : Text × Stream). (true, r)) (split-found d [] ys h)
get_line-found d v (x ∷ xs) ys h =
    ap (λ (r : Text × Stream). (true, r)) (split-found d (x ∷ xs) ys h)

-- What a line of the report says.
abbrev pub row_of : (ℕ → Text) → CallsiteId × ProfReport → Row
row_of name_at (key, value) = record {
  caller_name = name_at key.fun_name;
  inst_id = to_u64 key.call_id;
  num_calls = value.num_calls;
  unique_evals = map pos value.unique_arg_evals;
  total_evals = map pos value.arg_evals;
}

-- The values of an int64_t.
abbrev pub IsLong : ℤ → Type 0
IsLong (pos n) = n < 2 ^ 63
IsLong (negsuc k) = k < 2 ^ 63

abbrev pub AreLong : List ℕ → Type 0
AreLong = All (λ n. n < 2 ^ 63)

-- A report in the types of the source: the call site's number and the counters in an int64_t,
-- `num_args` not negative in an int8_t and both arrays of `num_args` elements; and a name without
-- commas.
pub record IsPlain (name_at : ℕ → Text) (entry : CallsiteId × ProfReport) : Type 0 where
  pub name_plain : Lacks comma (name_at entry.0.fun_name)
  pub id_long : IsLong entry.0.call_id
  pub calls_long : entry.1.num_calls < 2 ^ 63
  pub args : ℕ
  pub args_small : args < 2 ^ 7
  pub has_args : entry.1.num_args ≡ pos args
  pub uniques : length entry.1.unique_arg_evals ≡ args
  pub totals : length entry.1.arg_evals ≡ args
  pub uniques_long : AreLong entry.1.unique_arg_evals
  pub totals_long : AreLong entry.1.arg_evals

module _ (show : ℤ → Text) (stol : Text → Option ℤ) (name_at : ℕ → Text)
    (stol-show : (n : ℤ) → IsLong n → stol (show n) ≡ some n)
    (show_plain : (n : ℤ) → IsLong n → Lacks comma (show n)) where
  load_number-print_number :
      (n : ℤ) (v ys : Text)
      → IsLong n
      → load_number stol v (some (print_number show name_at n ++ ys)) ≡ some (n, (show n, some ys))
  unfolding load_number convert print_number
  load_number-print_number n v ys long =
      let found : get_line comma v (some (print_number show name_at n ++ ys))
          ≡ (true, (show n, some ys)) =
        ap (λ cs. get_line comma v (some cs)) (append_assoc (show n) (comma ∷ []) ys)
        ∙ get_line-found comma v (show n) ys (show_plain n long) in
      ap (λ (r : Bool × (Text × Stream)). convert stol r.1.0 r.1.1) found
      ∙ rw (stol-show n long, convert) refl

  -- What `parsed_val` holds after the numbers.
  last_of : Text → List ℕ → Text
  last_of v [] = v
  last_of v (n ∷ ns) = last_of (show (pos n)) ns

  load_numbers-print_numbers :
      (ns : List ℕ) (v ys : Text)
      → AreLong ns
      → load_numbers stol (length ns) v (some (print_numbers show name_at ns ++ ys))
        ≡ some (map pos ns, (last_of v ns, some ys))
  unfolding load_numbers print_numbers last_of
  load_numbers-print_numbers [] v ys long = refl
  load_numbers-print_numbers (n ∷ ns) v ys long =
      rw
        (
          append_assoc (print_number show name_at (pos n)) (print_numbers show name_at ns) ys,
          load_number-print_number (pos n) v (print_numbers show name_at ns ++ ys) long.0,
          load_numbers,
          load_numbers-print_numbers ns (show (pos n)) ys long.1,
        )
        refl

  -- The line after the name, and what follows the line.
  line : CallsiteId × ProfReport → Text → Text
  line (key, value) ys =
      print_number show name_at key.call_id
      ++ (print_number show name_at (pos value.num_calls)
          ++ (print_number show name_at value.num_args
              ++ (print_numbers show name_at value.unique_arg_evals
                  ++ (print_numbers show name_at value.arg_evals ++ newline ∷ ys))))

  print_report-line :
      (entry : CallsiteId × ProfReport) (ys : Text)
      → print_report show name_at entry ++ ys ≡ name_at entry.0.fun_name ++ comma ∷ line entry ys
  unfolding print_report line
  print_report-line entry ys = simp append_assoc refl

  load_evals-line :
      (name : Text) (id calls count : ℕ) (us ts : List ℕ) (v ys : Text)
      → count < 256
      → length us ≡ count
      → length ts ≡ count
      → AreLong us
      → AreLong ts
      → load_evals stol name id calls count v
          (some (print_numbers show name_at us ++ (print_numbers show name_at ts ++ newline ∷ ys)))
        ≡ some (
          record {
            caller_name = name;
            inst_id = id;
            num_calls = calls;
            unique_evals = map pos us;
            total_evals = map pos ts;
          },
          some ys,
        )
  unfolding load_evals ignore_line split
  load_evals-line name id calls count us ts v ys small p q us_long ts_long =
      let first =
        load_numbers-print_numbers us v (print_numbers show name_at ts ++ newline ∷ ys) us_long in
      let second = load_numbers-print_numbers ts (last_of v us) (newline ∷ ys) ts_long in
      rw (lt→ltb count 256 small, load_evals, rw p at first, rw q at second) refl

  load_row-line :
      (entry : CallsiteId × ProfReport) (ys : Text)
      → IsPlain name_at entry
      → load_row stol (name_at entry.0.fun_name) (some (line entry ys))
        ≡ some (row_of name_at entry, some ys)
  unfolding load_row line to_u64
  load_row-line (key, value) ys h =
      let after_args =
        print_numbers show name_at value.unique_arg_evals
        ++ (print_numbers show name_at value.arg_evals ++ newline ∷ ys) in
      let after_calls = print_number show name_at value.num_args ++ after_args in
      let calls : value.num_calls % 2 ^ 64 ≡ value.num_calls = omega (arith, h.calls_long) in
      let args : h.args % 2 ^ 64 ≡ h.args = omega (arith, h.args_small) in
      rw
        (
          load_number-print_number key.call_id (name_at key.fun_name)
              (print_number show name_at (pos value.num_calls) ++ after_calls) h.id_long,
          load_row,
          load_number-print_number (pos value.num_calls) (show key.call_id) after_calls
              h.calls_long,
          h.has_args,
          load_number-print_number (pos h.args) (show (pos value.num_calls)) after_args
              (omega (arith, h.args_small)),
          calls,
          args,
          load_evals-line (name_at key.fun_name) (to_u64 key.call_id) value.num_calls h.args
              value.unique_arg_evals value.arg_evals (show (pos h.args)) ys
              (omega (arith, h.args_small)) h.uniques h.totals h.uniques_long h.totals_long,
        )
        refl

  load_rows-print_reports :
      (info : ProfileInfo) (fuel : ℕ)
      → All (IsPlain name_at) info
      → length info < fuel
      → load_rows stol fuel (some (print_reports show name_at info))
        ≡ some (map (row_of name_at) info)
  unfolding load_rows load_next print_reports get_line
  load_rows-print_reports info zero h l = absurd (omega arith)
  load_rows-print_reports [] (suc fuel) h l = refl
  load_rows-print_reports (entry ∷ rest) (suc fuel) h l =
      let body = print_reports show name_at rest in
      rw
        (
          print_report-line entry body,
          load_rows,
          get_line-found comma [] (name_at entry.0.fun_name) (line entry body) h.0.name_plain,
          load_next,
          load_row-line entry body h.0,
          load_rows-print_reports rest fuel h.1 (omega arith),
        )
        refl

  length-line : (entry : CallsiteId × ProfReport) (ys : Text) → length ys ≤ length (line entry ys)
  unfolding line
  length-line (key, value) ys =
      let totals = print_numbers show name_at value.arg_evals in
      let uniques = print_numbers show name_at value.unique_arg_evals in
      let args = print_number show name_at value.num_args in
      let calls = print_number show name_at (pos value.num_calls) in
      omega (
        arith,
        length-append totals (newline ∷ ys),
        length-append uniques (totals ++ newline ∷ ys),
        length-append args (uniques ++ (totals ++ newline ∷ ys)),
        length-append calls (args ++ (uniques ++ (totals ++ newline ∷ ys))),
        length-append (print_number show name_at key.call_id)
            (calls ++ (args ++ (uniques ++ (totals ++ newline ∷ ys)))),
      )

  length-print_reports :
      (info : ProfileInfo) → length info ≤ length (print_reports show name_at info)
  unfolding print_reports
  length-print_reports [] = omega arith
  length-print_reports (entry ∷ rest) =
      let body = print_reports show name_at rest in
      omega (
        arith,
        length-print_reports rest,
        ap length (print_report-line entry body),
        length-append (name_at entry.0.fun_name) (comma ∷ line entry body),
        length-line entry body,
      )

  ignore_line-dump :
      (header : Text) (info : ProfileInfo)
      → Lacks newline header
      → ignore_line (some (dump show name_at header info)) ≡ some (print_reports show name_at info)
  unfolding ignore_line dump
  ignore_line-dump header info plain =
      ap (λ (r : Text × Stream). r.1)
        (split-found newline header (print_reports show name_at info) plain)

  length-dump :
      (header : Text) (info : ProfileInfo) → length info ≤ length (dump show name_at header info)
  unfolding dump
  length-dump header info = omega (
    arith,
    length-print_reports info,
    length-append header (newline ∷ print_reports show name_at info),
  )

  -- The reader gets back from the report what the runtime has written: for each call site the name,
  -- the instruction, the calls and the evaluations of each argument. It needs that `stol` reads what
  -- `printf` prints of an int64_t, without commas; that the header is one line; and that each report
  -- is plain: the call site's number and the counters in an int64_t, at most 127 arguments, and a
  -- name without commas.
  pub load-dump :
      (header : Text) (info : ProfileInfo)
      → Lacks newline header
      → All (IsPlain name_at) info
      → load stol (dump show name_at header info) ≡ some (map (row_of name_at) info)
  unfolding load
  load-dump header info plain h = rw (ignore_line-dump header info plain) (
      load_rows-print_reports info (suc (length (dump show name_at header info))) h
        (omega (arith, length-dump header info)))
