-- ===== src/Lazyfication/Caller/Examples.antt =====
-- A caller of two instructions, lazified.
use wyvern.Base.{◌≡◌, refl, false, [], ◌∷◌, some, arith, All, map}
use wyvern.Ir.{
  inst, argument, constant, function, call, ret, store, alloca, other, Instruction, Function,
}
use wyvern.Thunk.Code.{generate_thunk_initialization_code, store_args}
use wyvern.Lazyfication.Uses.{
  thunk_code, before_last, insert_edge, insert_edges, replace_operands, replace_edges, update_inst,
  update_block, update_blocks, update_thunk_arg_uses,
}
use wyvern.Lazyfication.Uses.Kept.{heads}
use wyvern.Lazyfication.Uses.Replaced.{IsFree}
use wyvern.Lazyfication.Caller.{
  lower, insert_first, insert_entry, insert_before, place_code, set_call, prepare_caller,
  finish_caller, lazify_caller,
}
use wyvern.Lazyfication.Caller.Laws.{reset, lazify_caller_lem}

abbrev value : Instruction
value = record { id = 1; opcode = other; operands = argument 0 ∷ [] }

abbrev leave : Instruction
leave = record { id = 3; opcode = ret; operands = inst 1 ∷ [] }

abbrev caller : Function
caller = record {
  arg_types = 0 ∷ [];
  is_var_arg = false;
  blocks =
      (value
        ∷ record { id = 2; opcode = call (some (function 0)); operands = inst 1 ∷ [] }
        ∷ leave
        ∷ [])
      ∷ [];
}

-- Without memoization: the alloca, the two stores, the value that is now dead, the call of the clone
-- with the thunk, and a call of the delegate for the return.
lazified : lazify_caller false 2 0 1 7 8 (0 ∷ []) 10 caller ≡ record caller {
  blocks =
      (record { id = 10; opcode = alloca; operands = [] }
        ∷ record { id = 11; opcode = other; operands = inst 10 ∷ [] }
        ∷ record { id = 14; opcode = store; operands = constant 7 ∷ inst 11 ∷ [] }
        ∷ record { id = 13; opcode = other; operands = inst 10 ∷ [] }
        ∷ record { id = 15; opcode = store; operands = argument 0 ∷ inst 13 ∷ [] }
        ∷ value
        ∷ record { id = 2; opcode = call (some (function 8)); operands = inst 10 ∷ [] }
        ∷ record { id = 17; opcode = call (some (function 7)); operands = inst 10 ∷ [] }
        ∷ record { id = 3; opcode = ret; operands = inst 17 ∷ [] }
        ∷ [])
      ∷ [];
}
unfolding lazify_caller prepare_caller finish_caller lower insert_first insert_entry insert_before
    place_code set_call generate_thunk_initialization_code store_args thunk_code before_last
    insert_edge insert_edges replace_operands replace_edges update_inst update_block update_blocks
    update_thunk_arg_uses
lazified = refl

lazify_caller_lem_example :
    (let blocks = (lazify_caller false 2 0 1 7 8 (0 ∷ []) 10 caller).blocks in
      (map (heads 10) blocks ≡ map (map (reset 2 8)) (map (heads 10) caller.blocks))
      × All (All (IsFree 17 (inst 1))) blocks)
lazify_caller_lem_example = lazify_caller_lem false 2 0 1 7 8 (0 ∷ []) 10 caller (omega arith)
