-- ===== src/Instrumentation/Examples.antt =====
-- A program of two functions through passes/Instrumentation.cpp.
use wyvern.Base.{ℕ, ◌≡◌, refl, true, false, [], ◌∷◌, none, some, map, get_elem?}
use wyvern.Base.Map
use wyvern.Ir.{
  argument, constant, Callee, function, phi, ret, branch, call, other, Instruction, Function,
  Module,
}
use wyvern.Report.{Text}
use wyvern.Report.Attach.{compute_instr_ids, set_id, count_instructions, instructions, same_text}
use wyvern.Instrumentation.{
  call_init_call, call_mark_eval, call_end_call, call_init_bits, call_init_prof, call_dump,
  alloca_bits, store_bits, code, added, Items, Symbols, main_name, is_prefix, contains_text, before,
  insert_first, insert_at_entry, marks_of, marks, push_marks, mark_uses, calls_named, is_main,
  ends_at, end_calls, instrument_function, is_call_site, init_calls, instrument_call_sites,
  is_marked, source_items, instrument_functions, instrument_entry_point, is_return, dumps,
  instrument_exit_points, run_pass,
}
use wyvern.Base.Int.{pos}
use wyvern.Runtime.Order.{CallsiteId, id_order}
use wyvern.Runtime.{ProfReport, Profiler}
use wyvern.Instrumentation.Blocks.{layouts}
use wyvern.Instrumentation.Order.{run_pass_lem}
use wyvern.Instrumentation.Erase.{erase_all, erase-run_pass}

-- main calls `pick(7, 8)` and returns; pick returns a phi node of its arguments.
abbrev the_call : Instruction
the_call = record {
  id = 1;
  opcode = call (some (function 1));
  operands = constant 7 ∷ constant 8 ∷ [];
}

abbrev leave : Instruction
leave = record { id = 2; opcode = ret; operands = constant 0 ∷ [] }

abbrev compute : Instruction
compute = record { id = 3; opcode = other; operands = argument 1 ∷ argument 1 ∷ [] }

abbrev jump : Instruction
jump = record { id = 4; opcode = branch (1 ∷ []); operands = [] }

abbrev merge : Instruction
merge = record { id = 5; opcode = phi (0 ∷ []); operands = argument 0 ∷ [] }

abbrev answer : Instruction
answer = record { id = 6; opcode = ret; operands = argument 1 ∷ [] }

abbrev main_function : Function
main_function = record { arg_types = []; is_var_arg = false; blocks = (the_call ∷ leave ∷ []) ∷ [] }

abbrev pick : Function
pick = record {
  arg_types = 0 ∷ 0 ∷ [];
  is_var_arg = false;
  blocks = (compute ∷ jump ∷ []) ∷ (merge ∷ answer ∷ []) ∷ [];
}

abbrev program : Module
program = main_function ∷ pick ∷ []

abbrev names : Callee → Text
names (function ℕ.zero) = main_name
names c = 112 ∷ []

abbrev symbols : Symbols
symbols = record { name = names; is_intrinsic = λ c. false }

abbrev main_items : Items
main_items =
    (added call_init_prof
      ∷ added alloca_bits
      ∷ added call_init_bits
      ∷ added store_bits
      ∷ added (call_init_call 0 2)
      ∷ code the_call
      ∷ added call_end_call
      ∷ added call_dump
      ∷ code leave
      ∷ [])
    ∷ []

abbrev pick_items : Items
pick_items =
    (added alloca_bits
      ∷ added call_init_bits
      ∷ added store_bits
      ∷ added (call_mark_eval 1)
      ∷ added (call_mark_eval 1)
      ∷ code compute
      ∷ code jump
      ∷ [])
    ∷ (code merge
        ∷ added (call_mark_eval 0)
        ∷ added call_end_call
        ∷ added (call_mark_eval 1)
        ∷ code answer
        ∷ [])
    ∷ []

program_run : run_pass symbols program true (111 ∷ []) none ≡ (true, main_items ∷ pick_items ∷ [])
unfolding run_pass instrument_exit_points instrument_entry_point instrument_functions
    instrument_call_sites instrument_function source_items before insert_first insert_at_entry
    marks_of marks push_marks mark_uses calls_named is_main ends_at end_calls is_call_site
    init_calls is_marked is_return dumps is_prefix contains_text compute_instr_ids set_id
    count_instructions instructions same_text Map.find Map.assign Map.place
program_run = refl

run_pass_lem_example :
    get_elem? (run_pass symbols program true (111 ∷ []) none).1 1
    ≡ some (layouts symbols program (is_marked symbols program none 1) 1 pick pick.blocks)
run_pass_lem_example = run_pass_lem symbols program 111 [] none 1 pick refl

erase-run_pass_example :
    map erase_all (run_pass symbols program true (111 ∷ []) none).1
    ≡ main_function.blocks ∷ pick.blocks ∷ []
erase-run_pass_example = erase-run_pass symbols program true (111 ∷ []) none

-- pick was called at `inner` by an activation of `outer`.
abbrev outer : CallsiteId
outer = record { fun_name = 1; call_id = pos 0 }

abbrev inner : CallsiteId
inner = record { fun_name = 2; call_id = pos 0 }

abbrev report : ℕ → ProfReport
report n = record {
  num_calls = 2;
  num_args = pos 2;
  unique_arg_evals = 0 ∷ n ∷ [];
  arg_evals = 0 ∷ n ∷ [];
}

abbrev inside : Profiler
inside = record {
  initialized = true;
  profile_info = (outer, report 0) ∷ (inner, report 0) ∷ [];
  call_stack = inner ∷ outer ∷ [];
}

-- The evaluation of pick's argument is in the report of `outer`.
abbrev returned : Profiler
returned = record {
  initialized = true;
  profile_info = (outer, report 1) ∷ (inner, report 0) ∷ [];
  call_stack = outer ∷ [];
}
