-- ===== src/Instrumentation/Order.antt =====
-- The calls that passes/Instrumentation.cpp leaves in a function, in their order: runOnModule
-- against a description of each block at once.
use wyvern.Base.{
  ℕ, zero, suc, ◌+◌, arith, ◌≡◌, sym, ap, true, List, [], ◌∷◌, Option, some, get_elem?,
}
use wyvern.Base.Map.{Set}
use wyvern.Ir.{Function, Module}
use wyvern.Report.{Text}
use wyvern.Instrumentation.{
  Symbols, is_marked, source_items, instrument_functions, instrument_entry_point,
  instrument_exit_points, run_pass,
}
use wyvern.Instrumentation.Blocks.{layouts, function_blocks}

module _ (N : Symbols) (M : Module) where
  at_function :
      (promising : Option (Set ℕ)) (k j : ℕ) (Fs : List Function) (F : Function)
      → get_elem? Fs j ≡ some F
      → get_elem?
          (instrument_exit_points N M k
            (instrument_entry_point N M k (instrument_functions N M promising k Fs)))
          j
        ≡ some (layouts N M (is_marked N M promising (k + j)) (k + j) F F.blocks)
  unfolding instrument_exit_points instrument_entry_point instrument_functions source_items
  at_function promising k j [] F e = cc e
  at_function promising k zero (G ∷ Fs) F e =
      let start : k + 0 ≡ k = omega arith in
      let same : G ≡ F = cc e in
      rw (start, sym same) (ap some (function_blocks N M (is_marked N M promising k) k G))
  at_function promising k (suc j) (G ∷ Fs) F e =
      let next : k + suc j ≡ suc k + j = omega arith in
      rw next (at_function promising (suc k) j Fs F e)

  -- The loops of runOnModule over the functions, their blocks and instructions leave in each function
  -- the blocks of `layouts`.
  pub run_pass_lem :
      (c : ℕ) (cs : Text) (promising : Option (Set ℕ)) (f : ℕ) (F : Function)
      → get_elem? M f ≡ some F
      → get_elem? (run_pass N M true (c ∷ cs) promising).1 f
        ≡ some (layouts N M (is_marked N M promising f) f F F.blocks)
  unfolding run_pass
  run_pass_lem c cs promising f F e =
      let start : 0 + f ≡ f = omega arith in rw start at (at_function promising 0 f M F e)
