-- ===== src/Runtime/Trace/Numbers.antt =====
-- An activation runs without a fault and leaves in the report the numbers of its events.
use wyvern.Base.{
  ℕ, suc, ◌+◌, ◌≤◌, ◌<◌, ◌≡◌, refl, ap, subst, not, Bool, true, ◌&&◌, ◌||◌, List, ◌∷◌, some, arith,
  ◌==◌, length, All, Bool-cases, inl, inr, ==_iff, ◌^◌,
}
use wyvern.Base.Map
use wyvern.Runtime.Order.{CallsiteId, same_id, id_order}
use wyvern.Runtime.Mask.{is_first, is_first_zero, is_first-bit_or}
use wyvern.Runtime.{ok, ProfReport, ProfileInfo, Profiler, i64_limit, ensure_report, init_bits}
use wyvern.Runtime.Effects.{marked, marked_bits}
use wyvern.Runtime.Sound.{HasReport, ensure_report-HasReport_self, ensure_report-IsSound}
use wyvern.Runtime.Views.{
  tick, calls_of, uniques_of, evals_of, calls_of-ensure_report, uniques_of-ensure_report,
  evals_of-ensure_report, calls_of_called, uniques_of_called, evals_of_called, calls_of_marked,
  evals_of_marked, uniques_of_marked,
}
use wyvern.Runtime.Steps.{
  IsReady, mark_eval_lem, mark_eval-IsReady, init_call_lem, init_call-IsReady, end_call_lem,
}
use wyvern.Runtime.Trace.{
  Body, returns, evaluates, calls, run, Fits, weight, call_count, eval_count, does_evaluate,
  unique_count,
}

-- The numbers after the run of `b` by an activation of `here`, from those before.
pub record IsCounted (here : CallsiteId) (b : Body) (bits : ℕ) (before after : ProfileInfo)
    : Type 0 where
  pub calls_added : (id : CallsiteId) → calls_of after id ≡ calls_of before id + call_count id b
  pub evals_added :
      (id : CallsiteId) (k : ℕ)
      → evals_of after id k ≡ evals_of before id k + eval_count here id k b
  pub uniques_added :
      (id : CallsiteId) (k : ℕ)
      → k < 32
      → uniques_of after id k
        ≡ uniques_of before id k
          + tick (same_id here id && (is_first bits k && does_evaluate k b))
          + unique_count id k b

is_first-marked_bits :
    (bits k i : ℕ)
    → k < 32
    → i < 32
    → is_first (marked_bits bits k) i ≡ (not (k == i) && is_first bits i)
is_first-marked_bits bits k i hk hi = elim (Bool-cases (is_first bits k)) [
  | inl first ↦ rw first (ground (arith, is_first-bit_or bits k i hk hi))
  | inr again ↦ elim (Bool-cases (k == i)) [
    | inl e ↦ rw (again, e, ← (==_iff k i).0 e) again
    | inr e ↦ rw (again, e)
  ]
]

-- An argument counts once: now, or at a later evaluation.
tick_split :
    (here first_k first_i same later : Bool)
    → (same ≡ true → first_k ≡ first_i)
    → tick (here && (same && first_k)) + tick (here && ((not same && first_i) && later))
      ≡ tick (here && (first_i && (same || later)))
tick_split here first_k first_i same later h = ground arith

evaluates-IsCounted :
    (here : CallsiteId) (k bits : ℕ) (rest : Body) (before after : ProfileInfo) (r : ProfReport)
    → Map.find here before ≡ some r
    → k < length r.arg_evals
    → k < length r.unique_arg_evals
    → k < 32
    → IsCounted here rest
        (marked_bits bits k)
        (Map.modify here (λ _. marked (is_first bits k) k r) before)
        after
    → IsCounted here (evaluates k rest) bits before after
unfolding call_count eval_count unique_count does_evaluate
evaluates-IsCounted here k bits rest before after r found he hu hk later = record {
  calls_added = λ id.
      omega
        (arith, later.calls_added id, calls_of_marked here id before r found (is_first bits k) k);
  evals_added = λ id i. omega (
    arith,
    later.evals_added id i,
    evals_of_marked here id before r found (is_first bits k) k i he,
  );
  uniques_added = λ id i hi.
      let split =
        tick_split (same_id here id) (is_first bits k) (is_first bits i) (k == i)
          (does_evaluate i rest) (λ e. ap (is_first bits) ((==_iff k i).0 e)) in
      let now = uniques_of_marked here id before r found (is_first bits k) k i hu in
      let after_now = rw (is_first-marked_bits bits k i hk hi) at (later.uniques_added id i hi) in
      omega (arith, split, now, after_now);
}

calls-IsCounted :
    (here id : CallsiteId) (n bits : ℕ) (callee rest : Body) (before middle after : ProfileInfo)
    (r : ProfReport)
    → Map.find id (ensure_report id n before) ≡ some r
    → 1 ≤ r.num_calls
    → IsCounted id callee init_bits
        (Map.modify id (λ _. record r { num_calls = suc r.num_calls }) (ensure_report id n before))
        middle
    → IsCounted here rest bits middle after
    → IsCounted here (calls id callee rest) bits before after
unfolding call_count eval_count unique_count does_evaluate init_bits
calls-IsCounted here id n bits callee rest before middle after r found h inner later =
    let info = ensure_report id n before in
    record {
      calls_added = λ j. omega (
        arith,
        later.calls_added j,
        inner.calls_added j,
        calls_of_called id j info r found h,
        calls_of-ensure_report id j n before,
      );
      evals_added = λ j k. omega (
        arith,
        later.evals_added j k,
        inner.evals_added j k,
        evals_of_called id j info r found k,
        evals_of-ensure_report id j n before k,
      );
      uniques_added = λ j k hk. omega (
        arith,
        later.uniques_added j k hk,
        rw (is_first_zero k) at (inner.uniques_added j k hk),
        uniques_of_called id j info r found k,
        uniques_of-ensure_report id j n before k,
      );
    }

module _ (sig : CallsiteId → ℕ) where
  pub record Ran (here : CallsiteId) (b : Body) (bits c : ℕ) (s : Profiler) : Type 0 where
    pub bits_after : ℕ
    pub after : Profiler
    pub returned : run sig b bits s ≡ ok (bits_after, after)
    pub same_stack : after.call_stack ≡ s.call_stack
    pub ready : IsReady sig (c + weight b) after
    pub counted : IsCounted here b bits s.profile_info after.profile_info

  returns-Ran :
      (here : CallsiteId) (bits c : ℕ) (s : Profiler) → IsReady sig c s → Ran here returns bits c s
  unfolding run weight call_count eval_count unique_count does_evaluate
  returns-Ran here bits c s ready = record {
    bits_after = bits;
    after = s;
    returned = refl;
    same_stack = refl;
    ready = subst (λ n. IsReady sig n s) (omega arith) ready;
    counted = record {
      calls_added = λ id. omega arith;
      evals_added = λ id k. omega arith;
      uniques_added = λ id k h. ground arith;
    };
  }

  evaluates-Ran :
      (here : CallsiteId) (k bits c : ℕ) (rest : Body) (s : Profiler) (r : ProfReport)
      (frames : List CallsiteId)
      → s.call_stack ≡ here ∷ frames
      → Map.find here s.profile_info ≡ some r
      → IsReady sig c s
      → Fits sig here (evaluates k rest)
      → suc c < i64_limit
      → Ran here rest (marked_bits bits k) (suc c) (record s {
        profile_info = Map.modify here (λ _. marked (is_first bits k) k r) s.profile_info;
      })
      → Ran here (evaluates k rest) bits c s
  unfolding run weight
  evaluates-Ran here k bits c rest s r frames top found ready (h, w, fits) lim later =
      let good = ready.sound here r found in
      record {
        bits_after = later.bits_after;
        after = later.after;
        returned =
            rw (mark_eval_lem sig c k bits s here frames r ready top found h w lim) later.returned;
        same_stack = later.same_stack;
        ready = subst (λ n. IsReady sig n later.after) (omega arith) later.ready;
        counted =
            evaluates-IsCounted here k bits rest s.profile_info later.after.profile_info r found
              (omega (arith, good.sized.evals)) (omega (arith, good.sized.uniques)) w later.counted;
      }

  calls-Ran :
      (here id : CallsiteId) (bits c : ℕ) (callee rest : Body) (s : Profiler) (r : ProfReport)
      → Map.find id (ensure_report id (sig id) s.profile_info) ≡ some r
      → IsReady sig c s
      → sig id < 2 ^ 7
      → suc c < i64_limit
      → (inner : Ran id callee init_bits (suc c) (record s {
        profile_info =
            Map.modify id
              (λ _. record r { num_calls = suc r.num_calls })
              (ensure_report id (sig id) s.profile_info);
        call_stack = id ∷ s.call_stack;
      }))
      → Ran here rest bits
          (suc c + weight callee)
          (record inner.after { call_stack = s.call_stack })
      → Ran here (calls id callee rest) bits c s
  unfolding run weight
  calls-Ran here id bits c callee rest s r found ready few lim inner later =
      let counted_r = (init_call-IsReady sig c s id r ready found few).sound in
      record {
        bits_after = later.bits_after;
        after = later.after;
        returned =
            rw
              (
                init_call_lem sig c s id r ready found few lim,
                inner.returned,
                end_call_lem inner.after id s.call_stack inner.ready.running inner.same_stack,
              )
              later.returned;
        same_stack = later.same_stack;
        ready = subst (λ n. IsReady sig n later.after) (omega arith) later.ready;
        counted =
            calls-IsCounted here id (sig id) bits callee rest s.profile_info
              inner.after.profile_info later.after.profile_info r found
              (ensure_report-IsSound sig c id s.profile_info ready.positive few ready.sound id r
                found).counted
              inner.counted later.counted;
      }

  -- The state that a return leaves behind.
  end_call-IsReady :
      (c : ℕ) (s : Profiler) (id : CallsiteId) (frames : List CallsiteId)
      → s.call_stack ≡ id ∷ frames
      → IsReady sig c s
      → IsReady sig c (record s { call_stack = frames })
  end_call-IsReady c s id frames top ready = record {
    running = ready.running;
    positive = ready.positive;
    sound = ready.sound;
    active = (subst (All (HasReport s.profile_info)) top ready.active).1;
  }

  pub run-Ran :
      (here : CallsiteId) (b : Body) (bits c : ℕ) (s : Profiler) (frames : List CallsiteId)
      → s.call_stack ≡ here ∷ frames
      → IsReady sig c s
      → Fits sig here b
      → c + weight b < i64_limit
      → Ran here b bits c s
  unfolding weight
  run-Ran here returns bits c s frames top ready fits lim = returns-Ran here bits c s ready
  run-Ran here (evaluates k rest) bits c s frames top ready fits lim =
      let (r, found) = (subst (All (HasReport s.profile_info)) top ready.active).0 in
      evaluates-Ran here k bits c rest s r frames top found ready fits (omega arith) (
        run-Ran here rest (marked_bits bits k) (suc c)
          (record s {
            profile_info = Map.modify here (λ _. marked (is_first bits k) k r) s.profile_info;
          })
          frames top (mark_eval-IsReady sig c k bits s here r ready found fits.0) fits.2
          (omega arith))
  run-Ran here (calls id callee rest) bits c s frames top ready fits lim =
      let (r, found) = ensure_report-HasReport_self id (sig id) s.profile_info in
      let inner =
        run-Ran id callee init_bits (suc c)
          (record s {
            profile_info =
                Map.modify id (λ _. record r { num_calls = suc r.num_calls })
                  (ensure_report id (sig id) s.profile_info);
            call_stack = id ∷ s.call_stack;
          })
          s.call_stack refl (init_call-IsReady sig c s id r ready found fits.0) fits.1
          (omega arith) in
      calls-Ran here id bits c callee rest s r found ready fits.0 (omega arith) inner (
        run-Ran here rest bits (suc c + weight callee)
          (record inner.after { call_stack = s.call_stack }) frames top
          (end_call-IsReady (suc c + weight callee) inner.after id s.call_stack inner.same_stack
            inner.ready)
          fits.2 (omega arith))
