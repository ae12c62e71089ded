-- ===== src/Lazyfication/Uses/Examples.antt =====
-- updateThunkArgUses, passes/Lazyfication.cpp, at a callee with a phi node.
use wyvern.Base.{ℕ, ◌≡◌, refl, true, false, [], ◌∷◌, none, All, map}
use wyvern.Ir.{inst, argument, function, phi, ret, branch, call, load, other, Instruction, Function}
use wyvern.Lazyfication.Uses.{
  thunk_code, before_last, insert_edge, insert_edges, replace_operands, replace_edges, update_inst,
  update_block, update_blocks, update_thunk_arg_uses,
}
use wyvern.Lazyfication.Uses.Kept.{heads, heads-update_thunk_arg_uses}
use wyvern.Lazyfication.Uses.Replaced.{IsFree, update_thunk_arg_uses_lem}

abbrev jump : Instruction
jump = record { id = 0; opcode = branch (1 ∷ []); operands = [] }

abbrev merge : ℕ → Instruction
merge a = record { id = 1; opcode = phi (0 ∷ []); operands = inst a ∷ [] }

abbrev leave : Instruction
leave = record { id = 2; opcode = ret; operands = inst 1 ∷ [] }

abbrev callee : Function
callee = record {
  arg_types = 0 ∷ [];
  is_var_arg = false;
  blocks =
      (jump ∷ [])
      ∷ (record { id = 1; opcode = phi (0 ∷ []); operands = argument 0 ∷ [] } ∷ leave ∷ [])
      ∷ [];
}

-- The thunk is called at the end of the block that flows into the phi node.
runs : update_thunk_arg_uses true (argument 0) (function 0) (argument 0) 3 callee ≡ record callee {
  blocks =
      (record { id = 3; opcode = other; operands = argument 0 ∷ [] }
        ∷ record { id = 4; opcode = load; operands = inst 3 ∷ [] }
        ∷ record { id = 5; opcode = call none; operands = argument 0 ∷ inst 4 ∷ [] }
        ∷ jump
        ∷ [])
      ∷ (merge 5 ∷ leave ∷ [])
      ∷ [];
}
unfolding thunk_code before_last insert_edge insert_edges replace_operands replace_edges update_inst
    update_block update_blocks update_thunk_arg_uses
runs = refl

update_thunk_arg_uses_lem_example :
    All
      (All (IsFree 3 (argument 0)))
      (update_thunk_arg_uses true (argument 0) (function 0) (argument 0) 3 callee).blocks
update_thunk_arg_uses_lem_example =
    update_thunk_arg_uses_lem true (argument 0) (function 0) (argument 0) 3 callee tt

heads-update_thunk_arg_uses_example :
    map
      (heads 3)
      (update_thunk_arg_uses true (argument 0) (function 0) (argument 0) 3 callee).blocks
    ≡ map (heads 3) callee.blocks
heads-update_thunk_arg_uses_example =
    heads-update_thunk_arg_uses true (argument 0) (function 0) (argument 0) 3 callee
