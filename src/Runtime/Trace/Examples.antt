-- ===== src/Runtime/Trace/Examples.antt =====
-- wyinstr.cpp on a small execution, and the theorems at it.
use wyvern.Base.{ℕ, suc, ◌+◌, ◌<◌, ◌≡◌, refl, true, ◌&&◌, ◌==◌, if◌then◌else◌, [], ◌∷◌, arith}
use wyvern.Base.Int.{pos, to_i8}
use wyvern.Base.Map
use wyvern.Runtime.Order.{CallsiteId, same_id, id_order}
use wyvern.Runtime.{
  ok, fault, bad_shift, ProfReport, Profiler, init_prof, init_bits, mark_eval, new_report,
  init_call, ensure_report, increment, increment_at, mark_report, arg_mask, end_call,
}
use wyvern.Runtime.Views.{tick, calls_of, uniques_of, evals_of}
use wyvern.Runtime.Trace.{
  Body, returns, evaluates, calls, run, weight, call_count, eval_count, does_evaluate, unique_count,
}
use wyvern.Runtime.Trace.Program.{pre_main, first_state, profile_counts, reported_calls}

abbrev pub site : CallsiteId
site = record { fun_name = 200; call_id = pos 5 }

abbrev pub sig : CallsiteId → ℕ
sig id = if id.fun_name == 100 then 2 else 3

-- main evaluates its first argument and calls through `site` twice: the first activation evaluates
-- argument 1 twice, the second calls `site` again, where argument 2 is evaluated.
abbrev pub program : Body
program = evaluates 0 (
    calls site (evaluates 1 (evaluates 1 returns))
      (calls site (calls site (evaluates 2 returns) returns) returns))

abbrev pub site_report : ProfReport
site_report = record {
  num_calls = 4;
  num_args = pos 3;
  unique_arg_evals = 0 ∷ 1 ∷ 1 ∷ [];
  arg_evals = 0 ∷ 2 ∷ 1 ∷ [];
}

abbrev main_report : ProfReport
main_report = record {
  num_calls = 1;
  num_args = pos 2;
  unique_arg_evals = 1 ∷ 0 ∷ [];
  arg_evals = 1 ∷ 0 ∷ [];
}

abbrev pub final_state : Profiler
final_state = record {
  initialized = true;
  profile_info = (pre_main 100, main_report) ∷ (site, site_report) ∷ [];
  call_stack = pre_main 100 ∷ [];
}

pub program_runs : run sig program init_bits (first_state 100) ≡ ok (1, final_state)
unfolding run init_prof init_call mark_eval end_call init_bits new_report to_i8 ensure_report
    increment increment_at mark_report arg_mask Map.find Map.insert Map.place Map.modify
program_runs = refl

profile_counts_example :
    (bits : ℕ) × (s : Profiler) × (run sig program init_bits (first_state 100) ≡ ok (bits, s))
    × (s.call_stack ≡ pre_main 100 ∷ [])
    × ((id : CallsiteId) → calls_of s.profile_info id ≡ call_count id program)
    × ((id : CallsiteId) (k : ℕ)
        → evals_of s.profile_info id k ≡ eval_count (pre_main 100) id k program)
    × ((id : CallsiteId) (k : ℕ)
        → k < 32
        → uniques_of s.profile_info id k
          ≡ tick (same_id (pre_main 100) id && does_evaluate k program) + unique_count id k program)
unfolding weight
profile_counts_example = profile_counts sig 100 program refl (omega arith) (omega arith)

reported_calls_example : 4 ≡ suc (call_count site program)
unfolding weight
reported_calls_example =
    reported_calls sig 100 program refl (omega arith) (omega arith) 1 final_state site site_report
      program_runs (unfold Map.find in refl)

-- A mark of argument 40 shifts a 32-bit int by 40.
wide_mark : mark_eval (pos 40) 0 final_state ≡ fault bad_shift
unfolding mark_eval mark_report arg_mask Map.find
wide_mark = refl
