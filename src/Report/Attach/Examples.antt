-- ===== src/Report/Attach/Examples.antt =====
-- The rows of a report attached to the call of a function of two instructions.
use wyvern.Base.{ℕ, zero, suc, ◌≡◌, refl, false, [], ◌∷◌, some, arith}
use wyvern.Base.Map
use wyvern.Base.Int.{pos}
use wyvern.Base.Map.{nat_order}
use wyvern.Ir.{constant, function, call, ret, Instruction, Function}
use wyvern.Report.{Row}
use wyvern.Report.Attach.{
  instructions, compute_instr_ids, attach, raw_row, same_text, count_instructions, attach_row,
}
use wyvern.Report.Attach.Agreement.{IsDistinct, attach-compute_instr_ids}

abbrev site : Instruction
site = record { id = 71; opcode = call (some (function 4)); operands = constant 5 ∷ [] }

abbrev end : Instruction
end = record { id = 72; opcode = ret; operands = [] }

abbrev caller : Function
caller = record { arg_types = []; is_var_arg = false; blocks = (site ∷ end ∷ []) ∷ [] }

abbrev row : ℕ → Row
row calls = record {
  caller_name = 102 ∷ [];
  inst_id = 0;
  num_calls = calls;
  unique_evals = pos 1 ∷ [];
  total_evals = pos 1 ∷ [];
}

-- The later of two rows counts.
attached : Map.find 71 (attach (row 3 ∷ row 4 ∷ []) (102 ∷ []) caller []) ≡ some (row 4)
unfolding attach attach_row count_instructions instructions raw_row same_text Map.find Map.assign
    Map.place
attached = refl

two-IsDistinct : IsDistinct (site ∷ end ∷ [])
two-IsDistinct zero zero I J p q e = refl
two-IsDistinct (suc zero) (suc zero) I J p q e = refl
two-IsDistinct zero (suc zero) I J p q e = ground arith
two-IsDistinct (suc zero) zero I J p q e = ground arith
two-IsDistinct (suc (suc i)) j I J p q e = cc p
two-IsDistinct zero (suc (suc j)) I J p q e = cc q
two-IsDistinct (suc zero) (suc (suc j)) I J p q e = cc q

attach-compute_instr_ids_example :
    (Map.find 71 (compute_instr_ids caller) ≡ some 0)
    × (Map.find 71 (attach (row 3 ∷ row 4 ∷ []) (102 ∷ []) caller [])
        ≡ raw_row (row 3 ∷ row 4 ∷ []) (102 ∷ []) 0)
unfolding instructions
attach-compute_instr_ids_example =
    attach-compute_instr_ids (row 3 ∷ row 4 ∷ []) (102 ∷ []) caller 0 site two-IsDistinct refl refl
