-- ===== src/Runtime/Trace/Program.antt =====
-- A whole profiled execution: `_wyinstr_init_prof` of wyinstr.cpp at the entry of main, then main's
-- own activation.
use wyvern.Base.{
  ℕ, suc, ◌+◌, ◌-◌, ◌≤◌, ◌<◌, ◌≡◌, refl, Bool, true, false, ◌&&◌, [], ◌∷◌, some, arith, sym,
  get_or-replicate, subst,
}
use wyvern.Base.Int.{pos, to_i8}
use wyvern.Base.Map
use wyvern.Runtime.Order.{CallsiteId, same_id, same_id_iff, id_order}
use wyvern.Runtime.Mask.{is_first_zero}
use wyvern.Runtime.{
  ok, ProfReport, ProfileInfo, Profiler, start, i64_limit, new_report, init_prof, init_bits,
}
use wyvern.Runtime.Sound.{IsGood, new_report-IsGood}
use wyvern.Runtime.Views.{tick, calls_of, uniques_of, evals_of}
use wyvern.Runtime.Steps.{IsReady}
use wyvern.Runtime.Trace.{
  Body, run, Fits, weight, call_count, eval_count, does_evaluate, unique_count,
}
use wyvern.Runtime.Trace.Numbers.{Ran, run-Ran}

-- The call site that stands for the call of main.
abbrev pub pre_main : ℕ → CallsiteId
pre_main address = record { fun_name = address; call_id = pos 0 }

tick_le_one : (b : Bool) → tick b ≤ 1
tick_le_one true = omega arith
tick_le_one false = omega arith

calls_of_found :
    (id : CallsiteId) (info : ProfileInfo) (r : ProfReport)
    → Map.find id info ≡ some r
    → calls_of info id ≡ r.num_calls - 1
unfolding calls_of
calls_of_found id info r found = rw found

abbrev pub first_state : ℕ → Profiler
first_state address = init_prof address start

module _ (address : ℕ) where
  first_report :
      (id : CallsiteId) (r : ProfReport)
      → Map.find id (first_state address).profile_info ≡ some r
      → (pre_main address ≡ id) × (new_report 2 ≡ r)
  unfolding init_prof Map.insert Map.find Map.place
  first_report id r e = ground arith

  calls_of_first : (id : CallsiteId) → calls_of (first_state address).profile_info id ≡ 0
  unfolding calls_of init_prof new_report to_i8 Map.insert Map.find Map.place
  calls_of_first id = ground arith

  evals_of_first : (id : CallsiteId) (k : ℕ) → evals_of (first_state address).profile_info id k ≡ 0
  unfolding evals_of init_prof new_report to_i8 Map.insert Map.find Map.place
  evals_of_first id k = ground (arith, get_or-replicate {A = ℕ} 2 k 0)

  uniques_of_first :
      (id : CallsiteId) (k : ℕ) → uniques_of (first_state address).profile_info id k ≡ 0
  unfolding uniques_of init_prof new_report to_i8 Map.insert Map.find Map.place
  uniques_of_first id k = ground (arith, get_or-replicate {A = ℕ} 2 k 0)

module _ (sig : CallsiteId → ℕ) (address : ℕ) (b : Body) (two : sig (pre_main address) ≡ 2)
    (fits : Fits sig (pre_main address) b) (lim : 1 + weight b < i64_limit) where
  first_state-IsReady : IsReady sig 1 (first_state address)
  unfolding init_prof Map.insert Map.find Map.place
  first_state-IsReady = record {
    running = refl;
    positive = omega arith;
    sound = λ id r e.
        let (here, fresh) = first_report address id r e in
        rw (← fresh, ← here, two) (new_report-IsGood 2 (omega arith));
    active =
        ((new_report 2, ground (arith, same_id_iff (pre_main address) (pre_main address))), tt);
  }

  main_ran : Ran sig (pre_main address) b init_bits 1 (first_state address)
  unfolding init_prof
  main_ran =
      run-Ran sig (pre_main address) b init_bits 1 (first_state address) [] refl first_state-IsReady
        fits lim

  uniques_counted :
      (id : CallsiteId) (k : ℕ)
      → k < 32
      → uniques_of main_ran.after.profile_info id k
        ≡ tick (same_id (pre_main address) id && does_evaluate k b) + unique_count id k b
  unfolding init_bits
  uniques_counted id k h = omega (
    arith,
    rw (is_first_zero k) at (main_ran.counted.uniques_added id k h),
    uniques_of_first address id k,
  )

  -- In an execution of instrumented functions that do not return their own arguments, where each
  -- evaluated argument is one of the call site's and below 32, each call site has at most 127
  -- arguments and the one for main two, and there are fewer than 2 ^ 63 - 1 events: when main returns, the execution has met no fault, only the first entry is on
  -- the call stack, and for every call site and argument the profile's numbers of calls, evaluations
  -- and (below 32) evaluating activations are those of the execution's own events.
  pub profile_counts :
      (bits : ℕ) × (s : Profiler) × (run sig b init_bits (first_state address) ≡ ok (bits, s))
      × (s.call_stack ≡ pre_main address ∷ [])
      × ((id : CallsiteId) → calls_of s.profile_info id ≡ call_count id b)
      × ((id : CallsiteId) (k : ℕ)
          → evals_of s.profile_info id k ≡ eval_count (pre_main address) id k b)
      × ((id : CallsiteId) (k : ℕ)
          → k < 32
          → uniques_of s.profile_info id k
            ≡ tick (same_id (pre_main address) id && does_evaluate k b) + unique_count id k b)
  unfolding init_bits
  profile_counts = (
    main_ran.bits_after,
    main_ran.after,
    main_ran.returned,
    rw main_ran.same_stack (unfold init_prof in refl),
    λ id. omega (arith, main_ran.counted.calls_added id, calls_of_first address id),
    λ id k. omega (arith, main_ran.counted.evals_added id k, evals_of_first address id k),
    uniques_counted,
  )

  -- The reports keep the sizes of their call sites, and no counter has more than the events.
  pub reported-IsGood :
      (bits : ℕ) (s : Profiler) (id : CallsiteId) (r : ProfReport)
      → run sig b init_bits (first_state address) ≡ ok (bits, s)
      → Map.find id s.profile_info ≡ some r
      → IsGood (sig id) (1 + weight b) r
  reported-IsGood bits s id r ran found =
      let same : main_ran.after ≡ s = cc (main_ran.returned, ran) in
      main_ran.ready.sound id r
        (subst (λ (t : Profiler). Map.find id t.profile_info ≡ some r) (sym same) found)

  -- In an execution of instrumented functions that do not return their own arguments, where each
  -- evaluated argument is one of the call site's and below 32, each call site has at most 127
  -- arguments and the one for main two, and there are fewer than 2 ^ 63 - 1 events: in each report the count of calls is one more than the calls.
  pub reported_calls :
      (bits : ℕ) (s : Profiler) (id : CallsiteId) (r : ProfReport)
      → run sig b init_bits (first_state address) ≡ ok (bits, s)
      → Map.find id s.profile_info ≡ some r
      → r.num_calls ≡ suc (call_count id b)
  reported_calls bits s id r ran found =
      let same : main_ran.after ≡ s = cc (main_ran.returned, ran) in
      let there : Map.find id main_ran.after.profile_info ≡ some r =
        subst (λ (t : Profiler). Map.find id t.profile_info ≡ some r) (sym same) found in
      let counted = (main_ran.ready.sound id r there).counted in
      let calls = calls_of_found id main_ran.after.profile_info r there in
      omega (arith, counted, calls, main_ran.counted.calls_added id, calls_of_first address id)
