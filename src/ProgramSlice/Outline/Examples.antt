-- ===== src/ProgramSlice/Outline/Examples.antt =====
-- `canOutline` and the constructor of the slice, passes/ProgramSlice.cpp, on two small functions.
use wyvern.Base.{ℕ, ◌≡◌, refl, ◌↔◌, true, false, [], ◌∷◌, Memᴰ, some, arith}
use wyvern.Ir.{Value, inst, argument, constant, function, ret, call, other, Instruction, Function}
use wyvern.ProgramSlice.Dependences.{as_instruction, values, values_of, arguments_from}
use wyvern.ProgramSlice.Dependences.Closure.{Depends}
use wyvern.ProgramSlice.Dependences.Blocks.{IsBlockOf}
use wyvern.ProgramSlice.Dependences.Work.{is_listed}
use wyvern.ProgramSlice.Control.Examples.{
  diamond, flat, diamond_preds, diamond_gates, diamond-IsAddressed,
}
use wyvern.ProgramSlice.Outline.{
  Analyses, Slice, new_slice, can_outline, load_is_mod, clobbers_at, clobbers, calls_unknown,
  bad_access, bad_memory, bad_pointer, refuses, shallow, has_terminator, bad_criterion,
  is_slice_alloca,
}
use wyvern.ProgramSlice.Outline.Contents.{new_slice_lem}
use wyvern.ProgramSlice.Outline.Safety.{IsSafe, can_outline_lem}

abbrev computed : Instruction
computed = record { id = 1; opcode = other; operands = argument 0 ∷ constant 5 ∷ [] }

abbrev site : Instruction
site = record { id = 2; opcode = call (some (function 0)); operands = inst 1 ∷ [] }

abbrev pub caller : Function
caller = record {
  arg_types = 32 ∷ [];
  is_var_arg = false;
  blocks = (computed ∷ site ∷ record { id = 3; opcode = ret; operands = inst 2 ∷ [] } ∷ []) ∷ [];
}

-- No pointers, no loops, and instructions that do nothing but compute.
abbrev pub analyses : Analyses
analyses = record {
  is_mod = λ tracker a. false;
  underlying_object = λ v. v;
  may_throw = λ I. false;
  may_read_or_write = λ I. false;
  will_return = λ I. true;
  is_lib_fun = λ I. false;
  only_reads_memory = λ c. true;
  is_pointer = λ v. false;
  no_alias = λ u v. true;
  loop_depth = λ b. 0;
}

-- The same, but what the call passes may hang.
abbrev hanging : Analyses
hanging = record analyses { will_return = λ I. false }

abbrev slice : Slice
slice = record { insts = computed ∷ []; dep_args = 0 ∷ []; bbs = (0, tt) ∷ [] }

runs :
    (can_outline analyses (caller ∷ []) caller site 0 computed slice ≡ true)
    × (can_outline hanging (caller ∷ []) caller site 0 computed slice ≡ false)
unfolding can_outline load_is_mod clobbers_at clobbers calls_unknown bad_access bad_memory
    bad_pointer refuses shallow has_terminator bad_criterion is_slice_alloca
runs = (refl, refl)

can_outline_lem_example :
    (can_outline analyses (caller ∷ []) caller site 0 computed slice ≡ true)
    ↔ IsSafe analyses (caller ∷ []) caller site 0 computed slice
can_outline_lem_example = can_outline_lem analyses (caller ∷ []) caller site 0 computed slice

new_slice_lem_example :
    (S : Slice) × (new_slice diamond (flat 0) (flat 3) diamond_preds (inst 6) ≡ some S)
    × ((J : Instruction)
        → Memᴰ J S.insts ↔ (
            (v : Value) × Depends diamond diamond_gates (inst 6) v
            × ((b : ℕ) × (as_instruction diamond v ≡ some (b, J)))))
    × ((i : ℕ) → Memᴰ i S.dep_args ↔ Depends diamond diamond_gates (inst 6) (argument i))
    × ((c : ℕ)
        → Memᴰ (c, tt) S.bbs
          ↔ ((v : Value) × Depends diamond diamond_gates (inst 6) v × IsBlockOf diamond v c))
unfolding values values_of arguments_from is_listed
new_slice_lem_example =
    new_slice_lem diamond (flat 0) (flat 3) diamond_preds (inst 6) (ground arith)
      diamond-IsAddressed
