-- ===== src/Report/Examples.antt =====
-- A report of two call sites, written and read back. Numbers are printed in unary here.
use wyvern.Base.{
  ℕ, zero, suc, ◌≡◌, refl, ap, [], ◌∷◌, Option, none, some, arith, map, ◌==◌, if◌then◌else◌, length,
  length-replicate, replicate,
}
use wyvern.Base.Int.{ℤ, pos, negsuc}
use wyvern.Runtime.{ProfileInfo}
use wyvern.Report.{
  Text, comma, load, dump, split, get_line, ignore_line, load_next, load_rows, load_row, load_evals,
  load_numbers, to_u64, load_number, convert,
}
use wyvern.Report.RoundTrip.{Lacks, IsLong, row_of, load-dump}

abbrev pub show : ℤ → Text
show (pos n) = 48 ∷ replicate n 49
show (negsuc k) = 45 ∷ replicate k 49

abbrev pub stol : Text → Option ℤ
stol [] = none
stol (c ∷ cs) = if c == 45 then some (negsuc (length cs)) else some (pos (length cs))

pub stol-show : (n : ℤ) → IsLong n → stol (show n) ≡ some n
stol-show (pos n) h = ap (λ (k : ℕ). some (pos k)) (length-replicate n 49)
stol-show (negsuc k) h = ap (λ (j : ℕ). some (negsuc j)) (length-replicate k 49)

ones-Lacks : (n : ℕ) → Lacks comma (replicate n 49)
ones-Lacks zero = tt
ones-Lacks (suc n) = (refl, ones-Lacks n)

pub show-Lacks : (n : ℤ) → IsLong n → Lacks comma (show n)
show-Lacks (pos n) h = (refl, ones-Lacks n)
show-Lacks (negsuc k) h = (refl, ones-Lacks k)

-- The function at each address is called "f".
abbrev pub name_at : ℕ → Text
name_at a = 102 ∷ []

abbrev info : ProfileInfo
info =
    (
      record { fun_name = 9; call_id = pos 4 },
      record {
        num_calls = 3;
        num_args = pos 2;
        unique_arg_evals = 2 ∷ 0 ∷ [];
        arg_evals = 5 ∷ 0 ∷ [];
      },
    )
    ∷ (
      record { fun_name = 9; call_id = pos 6 },
      record { num_calls = 2; num_args = pos 0; unique_arg_evals = []; arg_evals = [] },
    )
    ∷ []

-- A line with a word for a number stops the reader.
bad_line : load (λ cs. none) (104 ∷ 10 ∷ 102 ∷ 44 ∷ 120 ∷ 44 ∷ []) ≡ none
unfolding load load_rows load_next load_row load_number convert get_line split ignore_line
bad_line = refl

-- A file that ends behind a comma: the text is emptied, and `stol` of it stops the reader.
cut_line : load stol (104 ∷ 10 ∷ 102 ∷ 44 ∷ 48 ∷ 49 ∷ 44 ∷ []) ≡ none
unfolding load load_rows load_next load_row load_evals load_numbers load_number convert get_line
    split ignore_line to_u64
cut_line = refl

-- A line that ends early: the last number that was read stands for those that are missing.
short_line :
    load stol (104 ∷ 10 ∷ 102 ∷ 44 ∷ 48 ∷ 49 ∷ 44 ∷ 48 ∷ 49 ∷ [])
    ≡ some (
        record {
          caller_name = 102 ∷ [];
          inst_id = 1;
          num_calls = 1;
          unique_evals = pos 1 ∷ [];
          total_evals = pos 1 ∷ [];
        }
        ∷ [])
unfolding load load_rows load_next load_row load_evals load_numbers load_number convert get_line
    split ignore_line to_u64
short_line = refl

load-dump_example : load stol (dump show name_at (104 ∷ []) info) ≡ some (map (row_of name_at) info)
load-dump_example =
    load-dump show stol name_at stol-show show-Lacks (104 ∷ []) info (refl, tt)
      (
        record {
          name_plain = (refl, tt);
          id_long = omega arith;
          calls_long = omega arith;
          args = 2;
          args_small = omega arith;
          has_args = refl;
          uniques = refl;
          totals = refl;
          uniques_long = (omega arith, (omega arith, tt));
          totals_long = (omega arith, (omega arith, tt));
        },
        (
          record {
            name_plain = (refl, tt);
            id_long = omega arith;
            calls_long = omega arith;
            args = 0;
            args_small = omega arith;
            has_args = refl;
            uniques = refl;
            totals = refl;
            uniques_long = tt;
            totals_long = tt;
          },
          tt,
        ),
      )
