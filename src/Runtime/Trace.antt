-- ===== src/Runtime/Trace.antt =====
-- What an instrumented program makes of the entry points of wyinstr.cpp: passes/Instrumentation.cpp
-- puts `_wyinstr_init_call` before a call, `_wyinstr_initbits` at a function's entry,
-- `_wyinstr_mark_eval` at the uses of its arguments and `_wyinstr_end_call` before its return. A use
-- by the return itself is marked behind `_wyinstr_end_call`, and is not an event of a `Body`; nor is a
-- call of a function that is not instrumented, which never calls `_wyinstr_end_call`.
pub mod Numbers
pub mod Keys
pub mod Program
pub mod Examples
use wyvern.Base.{
  ℕ, suc, ◌+◌, ◌<◌, ◌^◌, ◌≡◌, Bool, true, false, ◌&&◌, ◌||◌, List, ◌∷◌, arith, ◌==◌, if◌then◌else◌,
}
use wyvern.Base.Int.{pos}
use wyvern.Runtime.Order.{CallsiteId, same_id}
use wyvern.Runtime.{Result, ok, fault, ◌>>=◌, Profiler, init_call, mark_eval, init_bits, end_call}
use wyvern.Runtime.Views.{tick}

-- The rest of an activation: it returns, evaluates argument k, or calls through a call site a
-- callee whose activation comes first.
pub data Body : Type 0 where
  returns : Body
  evaluates : ℕ → Body → Body
  calls : CallsiteId → Body → Body → Body

-- `sig` gives the constant `num_args` that the instrumentation passes at each call site.
module _ (sig : CallsiteId → ℕ) where
  unfoldable pub run : Body → ℕ → Profiler → Result (ℕ × Profiler)
  run returns bits s = ok (bits, s)
  run (evaluates k rest) bits s = do (bits', s') ← mark_eval (pos k) bits s; run rest bits' s'
  run (calls id callee rest) bits s = do
    s1 ← init_call id (sig id) s
    (_, s2) ← run callee init_bits s1
    s3 ← end_call s2
    run rest bits s3

  -- Each evaluated argument is one of the call site's, and has a bit of the 32-bit shift; the calls pass
  -- fewer arguments than an int8_t counts.
  abbrev pub Fits : CallsiteId → Body → Type 0
  Fits id returns = Unit
  Fits id (evaluates k rest) = (k < sig id) × (k < 32) × Fits id rest
  Fits id (calls j callee rest) = (sig j < 2 ^ 7) × Fits j callee × Fits id rest

-- The number of events.
unfoldable pub weight : Body → ℕ
weight returns = 0
weight (evaluates k rest) = suc (weight rest)
weight (calls id callee rest) = suc (weight callee + weight rest)

-- How often call site `id` is called.
unfoldable pub call_count : CallsiteId → Body → ℕ
call_count id returns = 0
call_count id (evaluates k rest) = call_count id rest
call_count id (calls j callee rest) =
    tick (same_id j id) + call_count id callee + call_count id rest

-- How often argument k is evaluated in activations of `id`; the first argument is the call site of
-- the activation itself.
pub eval_count : CallsiteId → CallsiteId → ℕ → Body → ℕ
eval_count here id k returns = 0
eval_count here id k (evaluates i rest) =
    tick (same_id here id && i == k) + eval_count here id k rest
eval_count here id k (calls j callee rest) = eval_count j id k callee + eval_count here id k rest

-- Whether an activation evaluates its own argument k.
pub does_evaluate : ℕ → Body → Bool
does_evaluate k returns = false
does_evaluate k (evaluates i rest) = i == k || does_evaluate k rest
does_evaluate k (calls j callee rest) = does_evaluate k rest

-- In how many activations of `id` below this one argument k is evaluated.
pub unique_count : CallsiteId → ℕ → Body → ℕ
unique_count id k returns = 0
unique_count id k (evaluates i rest) = unique_count id k rest
unique_count id k (calls j callee rest) =
    tick (same_id j id && does_evaluate k callee)
    + unique_count id k callee
    + unique_count id k rest
