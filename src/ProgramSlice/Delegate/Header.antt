-- ===== src/ProgramSlice/Delegate/Header.antt =====
-- The delegate as a function of the module: the declarations in `outline` and `memoizedOutline` of
-- passes/ProgramSlice.cpp, and `memoizedOutline` as a whole. The random suffix is a parameter, and so
-- is `std::to_string`; `n` is the first address that no instruction has.
pub mod ReadOnly
pub mod Examples
use wyvern.Base.{ℕ, ◌+◌, Bool, false, List, [], ◌∷◌, ◌++◌, Option, none, some, length}
use wyvern.Ir.{Function}
use wyvern.Report.{Text}
use wyvern.Thunk.{Thunk, Evaluation}
use wyvern.Thunk.Code.{
  Emitted, load_args, MemoCode, add_memoization_code, enter, run_slice, run_memoized,
}
use wyvern.ProgramSlice.Control.{DomTree}
use wyvern.ProgramSlice.Outline.{Slice}
use wyvern.ProgramSlice.Delegate.Reroute.{DomNode}
use wyvern.ProgramSlice.Delegate.Finish.{Result, ok, ◌>>=◌, Delegate, outline}

pub data FnAttribute : Type 0 where
  read_only no_unwind will_return : FnAttribute

-- `delegateFunctionType`, `functionName` and `addFnAttrs`.
pub record Header : Type 0 where
  pub name : Text
  pub return_type : ℕ
  pub params : List ℕ
  pub is_var_arg : Bool
  pub attributes : List FnAttribute

-- "_wyvern_slice_", and "memo_" behind it.
abbrev pub slice_prefix : Text
slice_prefix = 95 ∷ 119 ∷ 121 ∷ 118 ∷ 101 ∷ 114 ∷ 110 ∷ 95 ∷ 115 ∷ 108 ∷ 105 ∷ 99 ∷ 101 ∷ 95 ∷ []

abbrev pub memo_prefix : Text
memo_prefix = slice_prefix ++ 109 ∷ 101 ∷ 109 ∷ 111 ∷ 95 ∷ []

-- The names of the sliced function and of the criterion, and the types.
pub record Named : Type 0 where
  pub parent : Text
  pub initial : Text
  pub initial_type : ℕ
  pub thunk_pointer : ℕ

unfoldable pub create : (ℕ → Text) → Text → Named → ℕ → Header
create to_string prefix N random_num = record {
  name = prefix ++ (N.parent ++ 95 ∷ (N.initial ++ to_string random_num));
  return_type = N.initial_type;
  params = N.thunk_pointer ∷ [];
  is_var_arg = false;
  attributes = read_only ∷ no_unwind ∷ will_return ∷ [];
}

-- The loads stand in the entry block; the code for memoization is `addMemoizationCode`'s, around the
-- entry and in front of the return.
pub record Outlined : Type 0 where
  pub header : Header
  pub delegate : Delegate
  pub loads : List Emitted
  pub memo_code : Option MemoCode

module _ (F : Function) (S : Slice) (DT : DomTree) (root : DomNode) (attractors : List (Option ℕ))
    (initial exit : ℕ) (to_string : ℕ → Text) (N : Named) (random_num n : ℕ) where
  -- `outline`, with the declaration.
  unfoldable pub outline_function : Result Outlined
  outline_function = do
    delegate ← outline F S DT root attractors initial exit
    ok (record {
      header = create to_string slice_prefix N random_num;
      delegate = delegate;
      loads = load_args n 1 (length S.dep_args);
      memo_code = none;
    })

  unfoldable pub memoized_outline : Result Outlined
  memoized_outline = do
    delegate ← outline F S DT root attractors initial exit
    let count = length S.dep_args
    ok (record {
      header = create to_string memo_prefix N random_num;
      delegate = delegate;
      loads = load_args n 3 count;
      memo_code = some (add_memoization_code (n + (count + count)));
    })
