-- ===== src/Lazyfication/Clone/Examples.antt =====
-- A callee with a phi node, cloned.

use wyvern.Base.{
  ℕ, ◌+◌, ◌/◌, ◌%◌, ltb, ◌≡◌, refl, false, [], ◌∷◌, some, none, arith, map, get_elem?, All, ◌==◌,
  if◌then◌else◌,
}
use wyvern.Ir.{inst, argument, function, ret, call, load, other, Instruction, Function}
use wyvern.Report.{Text}
use wyvern.Lazyfication.Uses.{
  thunk_code, before_last, insert_edge, insert_edges, replace_operands, replace_edges, update_inst,
  update_block, update_blocks, update_thunk_arg_uses,
}
use wyvern.Lazyfication.Uses.Kept.{heads}
use wyvern.Lazyfication.Uses.Replaced.{IsFree}
use wyvern.Lazyfication.Clone.{
  no_alias, by_val, read_only, kept, remove_attributes, remove_attributes_from_thunk_argument,
  clone_name, clone_instruction, clone_blocks, clone_callee_function,
}
use wyvern.Lazyfication.Clone.Laws.{head, clone_callee_function_lem}

abbrev leave : ℕ → Instruction
leave i = record { id = i; opcode = ret; operands = argument 1 ∷ [] }

abbrev callee : Function
callee = record { arg_types = 3 ∷ 4 ∷ []; is_var_arg = false; blocks = (leave 0 ∷ []) ∷ [] }

-- The copy is at address 10; the thunk is called in front of it.
cloned : clone_callee_function (λ a. 10 + a) callee 1 (function 0) 9 20 ≡ record {
  arg_types = 3 ∷ 9 ∷ [];
  is_var_arg = false;
  blocks =
      (record { id = 20; opcode = other; operands = argument 1 ∷ [] }
        ∷ record { id = 21; opcode = load; operands = inst 20 ∷ [] }
        ∷ record { id = 22; opcode = call none; operands = argument 1 ∷ inst 21 ∷ [] }
        ∷ record { id = 10; opcode = ret; operands = inst 22 ∷ [] }
        ∷ [])
      ∷ [];
}
unfolding clone_callee_function clone_blocks clone_instruction thunk_code before_last insert_edge
    insert_edges replace_operands replace_edges update_inst update_block update_blocks
    update_thunk_arg_uses
cloned = refl

-- Decimal digits of numbers below 100: two clones of one callee by different parameters.
abbrev to_string : ℕ → Text
to_string k = if ltb k 10 then (48 + k) ∷ [] else (48 + k / 10) ∷ (48 + k % 10) ∷ []

same_clone_name : clone_name to_string (102 ∷ []) 1 23 ≡ clone_name to_string (102 ∷ []) 12 3
unfolding clone_name
same_clone_name = refl

clone_callee_function_lem_example :
    (let clone = clone_callee_function (λ a. 10 + a) callee 1 (function 0) 9 20 in
      (clone.is_var_arg ≡ false)
      × ((j : ℕ)
          → get_elem? clone.arg_types j ≡ (if 1 == j then some 9 else get_elem? callee.arg_types j))
      × (map (heads 20) clone.blocks ≡ map (map (head (λ a. 10 + a) 20)) callee.blocks)
      × All (All (IsFree 20 (argument 1))) clone.blocks)
clone_callee_function_lem_example =
    clone_callee_function_lem (λ a. 10 + a) callee 1 (function 0) 9 20 (omega arith)
      ((omega arith, tt), tt)

-- At the lazified parameter the removed attributes go, at the others they stay.
attributes_removed :
    remove_attributes_from_thunk_argument 0
      ((no_alias ∷ kept 3 ∷ by_val ∷ read_only ∷ []) ∷ (no_alias ∷ []) ∷ [])
    ≡ (kept 3 ∷ []) ∷ (no_alias ∷ []) ∷ []
unfolding remove_attributes_from_thunk_argument remove_attributes
attributes_removed = refl
