-- ===== src/Runtime/Steps.antt =====
-- The entry points of wyinstr.cpp on a sound state: each returns, keeps the state sound, and moves
-- the numbers of the report by one event.
use wyvern.Base.{ℕ, suc, ◌≤◌, ◌<◌, ◌^◌, ◌≡◌, true, List, ◌∷◌, some, arith, All, All-map}
use wyvern.Base.Int.{pos}
use wyvern.Base.Map
use wyvern.Runtime.Order.{CallsiteId, id_order}
use wyvern.Runtime.Mask.{is_first}
use wyvern.Runtime.{
  ok, ProfReport, Profiler, i64_limit, increment, ensure_report, init_call, mark_eval, end_call,
}
use wyvern.Runtime.Effects.{
  marked, marked_bits, mark_report-marked, marked-IsSized, marked-IsBounded,
}
use wyvern.Runtime.Sound.{
  IsSound, HasReport, modify-HasReport, modify-IsSound, ensure_report-HasReport,
  ensure_report-HasReport_self, ensure_report-IsSound,
}

-- Running, sound, and with a report for every call site on the stack.
pub record IsReady (sig : CallsiteId → ℕ) (c : ℕ) (s : Profiler) : Type 0 where
  pub running : s.initialized ≡ true
  pub positive : 1 ≤ c
  pub sound : IsSound sig c s.profile_info
  pub active : All (HasReport s.profile_info) s.call_stack

module _ (sig : CallsiteId → ℕ) (c : ℕ) where
  -- An evaluation of argument k in the activation of the call site on top.
  pub mark_eval_lem :
      (k bits : ℕ) (s : Profiler) (id : CallsiteId) (rest : List CallsiteId) (r : ProfReport)
      → IsReady sig c s
      → s.call_stack ≡ id ∷ rest
      → Map.find id s.profile_info ≡ some r
      → k < sig id
      → k < 32
      → suc c < i64_limit
      → mark_eval (pos k) bits s
        ≡ ok (
          marked_bits bits k,
          record s {
            profile_info = Map.modify id (λ _. marked (is_first bits k) k r) s.profile_info;
          },
        )
  unfolding mark_eval
  mark_eval_lem k bits s id rest r ready top found h w lim =
      let good = ready.sound id r found in
      rw (
        ready.running,
        top,
        found,
        mark_report-marked (sig id) c k bits r good.sized good.bounded h w lim,
      )

  pub mark_eval-IsReady :
      (k bits : ℕ) (s : Profiler) (id : CallsiteId) (r : ProfReport)
      → IsReady sig c s
      → Map.find id s.profile_info ≡ some r
      → k < sig id
      → IsReady sig (suc c) (record s {
        profile_info = Map.modify id (λ _. marked (is_first bits k) k r) s.profile_info;
      })
  mark_eval-IsReady k bits s id r ready found h =
      let good = ready.sound id r found in
      record {
        running = ready.running;
        positive = omega arith;
        sound =
            modify-IsSound sig c id s.profile_info (marked (is_first bits k) k r) ready.sound
              (record {
                sized = marked-IsSized (sig id) k (is_first bits k) r good.sized;
                bounded =
                    marked-IsBounded (sig id) c k (is_first bits k) r good.sized good.bounded h;
                counted = good.counted;
              });
        active =
            All-map (λ j. modify-HasReport id j (marked (is_first bits k) k r) s.profile_info)
              s.call_stack ready.active;
      }

  -- A call through call site `id`.
  pub init_call_lem :
      (s : Profiler) (id : CallsiteId) (r : ProfReport)
      → IsReady sig c s
      → Map.find id (ensure_report id (sig id) s.profile_info) ≡ some r
      → sig id < 2 ^ 7
      → suc c < i64_limit
      → init_call id (sig id) s
        ≡ ok (record s {
          profile_info =
              Map.modify id
                (λ _. record r { num_calls = suc r.num_calls })
                (ensure_report id (sig id) s.profile_info);
          call_stack = id ∷ s.call_stack;
        })
  unfolding init_call increment
  init_call_lem s id r ready found few lim =
      let good =
        ensure_report-IsSound sig c id s.profile_info ready.positive few ready.sound id r found in
      rw (ready.running, found) (ground (arith, good.bounded.calls))

  pub init_call-IsReady :
      (s : Profiler) (id : CallsiteId) (r : ProfReport)
      → IsReady sig c s
      → Map.find id (ensure_report id (sig id) s.profile_info) ≡ some r
      → sig id < 2 ^ 7
      → IsReady sig (suc c) (record s {
        profile_info =
            Map.modify id
              (λ _. record r { num_calls = suc r.num_calls })
              (ensure_report id (sig id) s.profile_info);
        call_stack = id ∷ s.call_stack;
      })
  init_call-IsReady s id r ready found few =
      let info = ensure_report id (sig id) s.profile_info in
      let called : ProfReport = record r { num_calls = suc r.num_calls } in
      let sound = ensure_report-IsSound sig c id s.profile_info ready.positive few ready.sound in
      let good = sound id r found in
      record {
        running = ready.running;
        positive = omega arith;
        sound = modify-IsSound sig c id info called sound (record {
          sized = record {
            args = good.sized.args;
            uniques = good.sized.uniques;
            evals = good.sized.evals;
          };
          bounded = record {
            calls = omega (arith, good.bounded.calls);
            uniques = λ k. omega (arith, good.bounded.uniques k);
            evals = λ k. omega (arith, good.bounded.evals k);
          };
          counted = omega arith;
        });
        active = (
          modify-HasReport id id called info
              (ensure_report-HasReport_self id (sig id) s.profile_info),
          All-map
              (λ j has.
                modify-HasReport id j called info
                  (ensure_report-HasReport id j (sig id) s.profile_info has))
              s.call_stack ready.active,
        );
      }

pub end_call_lem :
    (s : Profiler) (id : CallsiteId) (rest : List CallsiteId)
    → s.initialized ≡ true
    → s.call_stack ≡ id ∷ rest
    → end_call s ≡ ok (record s { call_stack = rest })
unfolding end_call
end_call_lem s id rest running top = rw (running, top)
