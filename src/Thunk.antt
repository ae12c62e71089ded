-- ===== src/Thunk.antt =====
-- Thunks: `computeStructType`, `insertLoadForThunkParams` and `addMemoizationCode` of
-- passes/ProgramSlice.cpp, and `generateThunkInitializationCode` of passes/Lazyfication.cpp. The code
-- that these emit is the function that it computes on the cells of a thunk: a GEP and a store write
-- the cell at the GEP's index, a GEP and a load read it.
pub mod Memory
pub mod Calls
pub mod Code
pub mod Examples
use wyvern.Base.{
  ℕ, zero, suc, ◌+◌, ◌≡◌, Bool, true, false, List, [], ◌∷◌, ◌++◌, Option, none, some, get_elem?,
  set, length, map, if◌then◌else◌,
}

-- The type of a field; an LLVM type is a number.
pub data Field : Type 0 where
  delegate_pointer : Field
  value_of_type : ℕ → Field
  memo_flag : Field

-- `computeStructType`: the delegate returns `result`, and the environment has the types `env`.
pub compute_struct_type : Bool → ℕ → List ℕ → List Field
compute_struct_type memo result env =
    (if memo
      then delegate_pointer ∷ value_of_type result ∷ memo_flag ∷ []
      else delegate_pointer ∷ [])
    ++ map value_of_type env

-- What a cell holds. `undef` is memory that was never written.
pub data Cell : Type 0 where
  undef : Cell
  delegate : ℕ → Cell
  word : ℕ → Cell
  bit : Bool → Cell

abbrev pub Thunk : Type 0
Thunk = List Cell

-- `memo ? 3 : 1`
abbrev pub first_param : Bool → ℕ
first_param memo = if memo then 3 else 1

-- The loop over the environment in `generateThunkInitializationCode`, from field i on.
pub store_env : ℕ → List ℕ → Thunk → Thunk
store_env i [] t = t
store_env i (v ∷ vs) t = store_env (suc i) vs (set t i (word v))

-- `generateThunkInitializationCode`
pub initialize : Bool → ℕ → List ℕ → Thunk → Thunk
initialize memo function env t =
    let with_delegate = set t 0 (delegate function) in
    let with_flag = if memo then set with_delegate 2 (bit false) else with_delegate in
    store_env (first_param memo) env with_flag

abbrev pub as_word : Option Cell → Option ℕ
as_word (some (word v)) = some v
as_word _ = none

abbrev pub as_bit : Option Cell → Option Bool
as_bit (some (bit b)) = some b
as_bit _ = none

-- The loads of `insertLoadForThunkParams`, one for each of `count` arguments from field i on.
unfoldable pub load_params : ℕ → ℕ → Thunk → Option (List ℕ)
load_params zero i t = some []
load_params (suc count) i t = elim (as_word (get_elem? t i)) [
  | none ↦ none
  | some v ↦ elim (load_params count (suc i) t) [ none ↦ none | some vs ↦ some (v ∷ vs) ]
]

-- A call of a delegate: its value, the thunk after it, and whether it computed the slice.
pub record Evaluation : Type 0 where
  pub value : ℕ
  pub after : Thunk
  pub computed : Bool

-- `count` is the number of the slice's arguments, and `compute` what the slice makes of them.
module _ (count : ℕ) (compute : List ℕ → ℕ) where
  -- The delegate of `outline`.
  pub call_outlined : Thunk → Option Evaluation
  call_outlined t = elim (load_params count 1 t) [
    | none ↦ none
    | some env ↦ some (record { value = compute env; after = t; computed = true })
  ]

  -- The block `_wyvern_memo_entry` loads the flag; the old entry ends with the two stores.
  pub compute_and_store : Thunk → Option Evaluation
  compute_and_store t = elim (load_params count 3 t) [
    | none ↦ none
    | some env ↦ some (record {
      value = compute env;
      after = set (set t 2 (bit true)) 1 (word (compute env));
      computed = true;
    })
  ]

  -- The memoized value is loaded in the entry block, and nothing is stored before it is returned.
  pub return_memo : Thunk → Option Evaluation
  return_memo t = elim (as_word (get_elem? t 1)) [
    | none ↦ none
    | some v ↦ some (record { value = v; after = t; computed = false })
  ]

  -- The delegate of `memoizedOutline`.
  pub call_memoized : Thunk → Option Evaluation
  call_memoized t = elim (as_bit (get_elem? t 2)) [
    | none ↦ none
    | some true ↦ return_memo t
    | some false ↦ compute_and_store t
  ]

  pub call_delegate : Bool → Thunk → Option Evaluation
  call_delegate memo t = if memo then call_memoized t else call_outlined t

  -- `updateThunkArgUses` of passes/Lazyfication.cpp puts a call of the delegate for each use of the
  -- argument. The uses that an execution meets, one after the other: their values, and how many of
  -- the calls computed the slice.
  pub use_times : Bool → ℕ → Thunk → Option (List ℕ × ℕ)
  use_times memo zero t = some ([], 0)
  use_times memo (suc n) t = elim (call_delegate memo t) [
    | none ↦ none
    | some e ↦ elim (use_times memo n e.after) [
      | none ↦ none
      | some (values, computed) ↦ some (e.value ∷ values, (if e.computed then 1 else 0) + computed)
    ]
  ]
