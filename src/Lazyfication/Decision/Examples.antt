-- ===== src/Lazyfication/Decision/Examples.antt =====
-- The decision at the report of a small execution.
use wyvern.Runtime.Trace.Program.{pre_main}
use wyvern.Report.RoundTrip.{IsLong}
use wyvern.Runtime.{ProfReport}
use wyvern.Runtime.Order.{CallsiteId, same_id_iff, id_order}
use wyvern.Base.Map
use wyvern.Base.{ℕ, suc, List, ltb, ◌*◌, ◌≡◌, refl, true, [], ◌∷◌, some, arith}
use wyvern.Runtime.Trace.{weight, call_count, unique_count}
use wyvern.Runtime.Trace.Examples.{site, sig, program, final_state, program_runs}
use wyvern.Report.{Row, dump, to_u64}
use wyvern.Report.Examples.{show, stol, name_at, stol-show, show-Lacks}
use wyvern.Report.Attach.{instructions, same_text}
use wyvern.Report.Profile.{load_profile_info}
use wyvern.Report.Profile.Examples.{
  caller, called, get_function, get_function-HasNames, caller-IsAddressed, site-IsOnly,
}
use wyvern.Lazyfication.{Doubles, should_lazify}
use wyvern.Lazyfication.Decision.{should_lazify-load_profile_info}

-- Quotients instead of doubles, with a threshold of one half.
abbrev rarely : Doubles
rarely = record {
  Double = ℕ × ℕ;
  of_u64 = λ n. (n, 1);
  divide = λ x y. (x.0 * y.1, x.1 * y.0);
  less = λ x y. ltb (x.0 * y.1) (y.0 * x.1);
  threshold = (1, 2);
}

ids-IsLong :
    (j : CallsiteId) (r : ProfReport)
    → Map.find j final_state.profile_info ≡ some r
    → IsLong j.call_id
unfolding Map.find
ids-IsLong j r e = ground (arith, same_id_iff (pre_main 100) j, same_id_iff site j)

-- Of the three calls through the site, one activation evaluated argument 1.
should_lazify-load_profile_info_example :
    (profile : List (ℕ × Row)) × (load_profile_info get_function stol
        (caller ∷ [])
        (some (dump show name_at (104 ∷ []) final_state.profile_info))
      ≡ some (true, profile))
    × (should_lazify rarely profile 5 1
        ≡ rarely.less
            (rarely.divide
              (rarely.of_u64 (unique_count site 1 program))
              (rarely.of_u64 (suc (call_count site program))))
            rarely.threshold)
unfolding weight instructions same_text to_u64 call_count
should_lazify-load_profile_info_example =
    should_lazify-load_profile_info sig 100 program refl (omega arith) (omega arith) 1 final_state
      program_runs show stol name_at stol-show show-Lacks (λ a. (refl, tt)) (λ j. ground arith)
      ids-IsLong get_function (caller ∷ []) (104 ∷ []) site 1 0 caller called rarely
      caller-IsAddressed get_function-HasNames (refl, tt) site-IsOnly refl refl refl refl
      (λ e. ground arith) (omega arith) (omega arith) (omega arith)
