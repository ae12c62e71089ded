-- ===== src/Thunk/Code.antt =====
-- The code that is emitted for thunks, as lists of instructions: generateThunkInitializationCode of
-- passes/Lazyfication.cpp, and insertLoadForThunkParams and addMemoizationCode of
-- passes/ProgramSlice.cpp; and a machine that runs it. `n` is the first address that no instruction
-- has.
pub mod Runs
pub mod Refinement
pub mod Examples
use wyvern.Base.{
  ℕ, zero, suc, ◌+◌, ◌≡◌, Bool, true, false, List, [], ◌∷◌, ◌++◌, Option, none, some, get_elem?,
  set, if◌then◌else◌,
}
use wyvern.Base.Map
use wyvern.Base.Map.{nat_order}
use wyvern.Thunk.{Cell, undef, delegate, word, bit, Thunk, first_param, as_word, as_bit, Evaluation}

-- What is stored: a function, a constant of one bit, a value of the function that the code is in, by
-- its address, or the value that a delegate returns.
pub data Stored : Type 0 where
  function : ℕ → Stored
  constant_bit : Bool → Stored
  variable : ℕ → Stored
  returned : Stored

-- `CreateStructGEP` of a field of the thunk, `CreateStore` to and `CreateLoad` from the address that
-- one computed. The results are at the first numbers of `struct_gep` and `load_field`.
pub data Emitted : Type 0 where
  struct_gep : ℕ → ℕ → Emitted
  store_field : Stored → ℕ → Emitted
  load_field : ℕ → ℕ → Emitted

-- The loop of `generateThunkInitializationCode` over the arguments of the slice, from field i on.
unfoldable pub store_args : ℕ → ℕ → List ℕ → List Emitted
store_args n i [] = []
store_args n i (arg ∷ args) =
    struct_gep n i ∷ store_field (variable arg) n ∷ store_args (suc n) (suc i) args

-- `generateThunkInitializationCode`
unfoldable pub generate_thunk_initialization_code : Bool → ℕ → List ℕ → ℕ → List Emitted
generate_thunk_initialization_code memo delegate_function args n =
    struct_gep n 0
      ∷ store_field (function delegate_function) n
      ∷ (if memo then struct_gep (suc n) 2 ∷ store_field (constant_bit false) (suc n) ∷ [] else [])
    ++ store_args (suc (suc n)) (first_param memo) args

-- The loop of `insertLoadForThunkParams`, for `count` arguments from field i on.
unfoldable pub load_args : ℕ → ℕ → ℕ → List Emitted
load_args n i zero = []
load_args n i (suc count) =
    struct_gep n i ∷ load_field (suc n) n ∷ load_args (suc (suc n)) (suc i) count

-- `addMemoizationCode`: the block `_wyvern_memo_entry`, which branches on the loaded flag; the value
-- that the block `_wyvern_memo_ret` returns; and the code in front of the old return.
pub record MemoCode : Type 0 where
  pub entry : List Emitted
  pub to_bool : ℕ
  pub memoed_value : ℕ
  pub update : List Emitted

unfoldable pub add_memoization_code : ℕ → MemoCode
add_memoization_code n = record {
  entry =
      struct_gep n 1
      ∷ load_field (suc n) n
      ∷ struct_gep (suc (suc n)) 2
      ∷ load_field (suc (suc (suc n))) (suc (suc n))
      ∷ [];
  to_bool = suc (suc (suc n));
  memoed_value = suc n;
  update = store_field (constant_bit true) (suc (suc n)) ∷ store_field returned n ∷ [];
}

-- The addresses that were computed, the values that were loaded, and the thunk.
pub record Machine : Type 0 where
  pub fields : List (ℕ × ℕ)
  pub loaded : List (ℕ × Cell)
  pub thunk : Thunk

abbrev pub enter : Thunk → Machine
enter t = record { fields = []; loaded = []; thunk = t }

-- `values` are those of the function that the code is in, and `result` what a delegate returns.
module _ (values : ℕ → ℕ) (result : ℕ) where
  abbrev pub stored_cell : Stored → Cell
  stored_cell (function f) = delegate f
  stored_cell (constant_bit b) = bit b
  stored_cell (variable a) = word (values a)
  stored_cell returned = word result

  unfoldable pub execute : Emitted → Machine → Option Machine
  execute (struct_gep a i) m = some (record m { fields = (a, i) ∷ m.fields })
  execute (store_field v a) m = elim (Map.find a m.fields) [
    | none ↦ none
    | some i ↦ some (record m { thunk = set m.thunk i (stored_cell v) })
  ]
  execute (load_field r a) m = elim (Map.find a m.fields) [
    | none ↦ none
    | some i ↦ elim (get_elem? m.thunk i) [
      | none ↦ none
      | some c ↦ some (record m { loaded = (r, c) ∷ m.loaded })
    ]
  ]

  unfoldable pub run_emitted : List Emitted → Machine → Option Machine
  run_emitted [] m = some m
  run_emitted (e ∷ es) m = elim (execute e m) [ none ↦ none | some m' ↦ run_emitted es m' ]

-- What the slice's instructions use for its arguments: the loads at n + 1, n + 3 and so on.
unfoldable pub loaded_args : ℕ → ℕ → List (ℕ × Cell) → Option (List ℕ)
loaded_args n zero loaded = some []
loaded_args n (suc count) loaded = elim (as_word (Map.find (suc n) loaded)) [
  | none ↦ none
  | some v ↦ elim (loaded_args (suc (suc n)) count loaded) [ none ↦ none | some vs ↦ some (v ∷ vs) ]
]

-- A delegate; `compute` is what the instructions of the slice make of its arguments.
module _ (count : ℕ) (compute : List ℕ → ℕ) where
  -- The loads, then the slice, then `update` in front of the return.
  unfoldable pub run_slice : ℕ → List Emitted → List Emitted → Machine → Option Evaluation
  run_slice n loads update m = elim (run_emitted (λ a. 0) 0 loads m) [
    | none ↦ none
    | some m' ↦ elim (loaded_args n count m'.loaded) [
      | none ↦ none
      | some env ↦ elim (run_emitted (λ a. 0) (compute env) update m') [
        | none ↦ none
        | some m'' ↦ some (record { value = compute env; after = m''.thunk; computed = true })
      ]
    ]
  ]

  -- The code for memoization around the slice.
  unfoldable pub run_memoized : ℕ → List Emitted → MemoCode → Thunk → Option Evaluation
  run_memoized n loads code t = elim (run_emitted (λ a. 0) 0 code.entry (enter t)) [
    | none ↦ none
    | some m ↦ elim (as_bit (Map.find code.to_bool m.loaded)) [
      | none ↦ none
      | some true ↦ elim (as_word (Map.find code.memoed_value m.loaded)) [
        | none ↦ none
        | some v ↦ some (record { value = v; after = m.thunk; computed = false })
      ]
      | some false ↦ run_slice n loads code.update m
    ]
  ]

  -- A call of the delegate of `outline`, or of `memoizedOutline`, which puts the loads at n, and then
  -- the code for memoization behind them.
  unfoldable pub run_delegate : Bool → ℕ → Thunk → Option Evaluation
  run_delegate false n t = run_slice n (load_args n 1 count) [] (enter t)
  run_delegate true n t =
      run_memoized n (load_args n 3 count) (add_memoization_code (n + (count + count))) t
