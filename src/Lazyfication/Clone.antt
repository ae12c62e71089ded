-- ===== src/Lazyfication/Clone.antt =====
-- The callee of a lazified call, passes/Lazyfication.cpp: cloneCalleeFunction, and
-- removeAttributesFromThunkArgument. LLVM's CloneFunctionInto copies the instructions; where the
-- copies are is its choice, and the parameter `address`.
pub mod Laws
pub mod Examples
use wyvern.Base.{ℕ, zero, suc, Bool, true, false, List, [], ◌∷◌, ◌++◌, map, set, if◌then◌else◌}
use wyvern.Ir.{Value, inst, argument, constant, Callee, Instruction, Block, Function}
use wyvern.Report.{Text}
use wyvern.Lazyfication.Uses.{update_thunk_arg_uses}

-- The attributes of a parameter that its replacement by a thunk makes wrong, and all others.
pub data Attribute : Type 0 where
  s_ext z_ext no_alias by_ref no_capture by_val read_only write_only : Attribute
  kept : ℕ → Attribute

-- `toRemove`
abbrev pub is_removed : Attribute → Bool
is_removed (kept a) = false
is_removed _ = true

unfoldable pub remove_attributes : List Attribute → List Attribute
remove_attributes [] = []
remove_attributes (a ∷ rest) =
    if is_removed a then remove_attributes rest else a ∷ remove_attributes rest

-- `removeAttributesFromThunkArgument`, for a call or a function, by the attributes of its parameters.
unfoldable pub remove_attributes_from_thunk_argument :
    ℕ → List (List Attribute) → List (List Attribute)
remove_attributes_from_thunk_argument index [] = []
remove_attributes_from_thunk_argument zero (A ∷ rest) = remove_attributes A ∷ rest
remove_attributes_from_thunk_argument (suc index) (A ∷ rest) =
    A ∷ remove_attributes_from_thunk_argument index rest

-- "_wyvern_calleeclone_"
abbrev pub clone_prefix : Text
clone_prefix =
    95 ∷ 119 ∷ 121 ∷ 118 ∷ 101 ∷ 114 ∷ 110 ∷ 95 ∷ 99 ∷ 97 ∷ 108 ∷ 108 ∷ 101 ∷ 101 ∷ 99 ∷ 108 ∷ 111
    ∷ 110 ∷ 101 ∷ 95 ∷ []

-- `functionName` of the clone; `std::to_string` and the random number are parameters.
unfoldable pub clone_name : (ℕ → Text) → Text → ℕ → ℕ → Text
clone_name to_string callee index random_num =
    clone_prefix ++ (callee ++ 95 ∷ (to_string index ++ to_string random_num))

-- The names of the clone's parameters, the thunk's "_wyvern_thunkptr".
unfoldable pub clone_arg_names : List Text → ℕ → List Text
clone_arg_names names index = set names index (
    95 ∷ 119 ∷ 121 ∷ 118 ∷ 101 ∷ 114 ∷ 110 ∷ 95 ∷ 116 ∷ 104 ∷ 117 ∷ 110 ∷ 107 ∷ 112 ∷ 116 ∷ 114
    ∷ [])

-- A formal parameter becomes the one at the same place; a constant stays.
module _ (address : ℕ → ℕ) where
  abbrev pub clone_value : Value → Value
  clone_value (inst a) = inst (address a)
  clone_value (argument i) = argument i
  clone_value (constant c) = constant c

  unfoldable pub clone_instruction : Instruction → Instruction
  clone_instruction I = record {
    id = address I.id;
    opcode = I.opcode;
    operands = map clone_value I.operands;
  }

  -- `CloneFunctionInto`
  unfoldable pub clone_blocks : List Block → List Block
  clone_blocks Bs = map (map clone_instruction) Bs

  -- `cloneCalleeFunction`; `thunk_pointer` is the type of the thunk's alloca.
  unfoldable pub clone_callee_function : Function → ℕ → Callee → ℕ → ℕ → Function
  clone_callee_function F index sliced_function thunk_pointer n =
      update_thunk_arg_uses true (argument index) sliced_function (argument index) n (record {
        arg_types = set F.arg_types index thunk_pointer;
        is_var_arg = false;
        blocks = clone_blocks F.blocks;
      })
