-- ===== src/Instrumentation/Returns.antt =====
-- What the calls around a return do at run time: `_wyinstr_end_call` comes first, so the mark of the
-- returned argument finds the caller's call site on the stack.
use wyvern.Base.{ℕ, List, [], ◌∷◌}
use wyvern.Base.Int.{to_i8, pos}
use wyvern.Base.Map
use wyvern.Runtime.Order.{id_order}
use wyvern.Runtime.{
  Result, ok, ◌>>=◌, Profiler, init_prof, init_call, mark_eval, init_bits, end_call,
}
use wyvern.Instrumentation.{
  Added, call_init_call, call_mark_eval, call_end_call, call_init_prof, store_bits,
}

-- The execution of what was inserted, with the bitmap's cell; `caller` is the address of the
-- function's name and `pre_main` that of the runtime's first entry. The dump changes nothing.
module _ (caller pre_main : ℕ) where
  abbrev pub execute : Added → ℕ → Profiler → Result (ℕ × Profiler)
  execute (call_init_call id n) bits s = do
    s' ← init_call (record { fun_name = caller; call_id = pos id }) n s
    ok (bits, s')
  execute (call_mark_eval k) bits s = mark_eval (to_i8 k) bits s
  execute call_end_call bits s = do s' ← end_call s; ok (bits, s')
  execute call_init_prof bits s = ok (bits, init_prof pre_main s)
  execute store_bits bits s = ok (init_bits, s)
  execute _ bits s = ok (bits, s)

  abbrev pub execute_all : List Added → ℕ → Profiler → Result (ℕ × Profiler)
  execute_all [] bits s = ok (bits, s)
  execute_all (a ∷ calls) bits s = do (bits', s') ← execute a bits s; execute_all calls bits' s'
