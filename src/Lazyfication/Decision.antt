-- ===== src/Lazyfication/Decision.antt =====
-- The rate by which shouldLazifyCallsitePGO of passes/Lazyfication.cpp decides, after loadProfileInfo
-- has read what wyinstr.cpp wrote at the end of an execution: that of the execution's own events.
pub mod Examples
use wyvern.Base.{
  ℕ, zero, suc, ◌+◌, ◌≤◌, ◌<◌, ◌%◌, ◌^◌, ◌≡◌, ◌≢◌, refl, sym, ap, ◌∙◌, subst, Bool, true, false,
  ◌&&◌, List, [], ◌∷◌, Option, none, some, arith, map, All, get_elem?, get_or, length, Option-cases,
  Bool-cases, inl, inr, get_elem?-get_or,
}
use wyvern.Base.Int.{ℤ, pos}
use wyvern.Base.Map
use wyvern.Base.Map.{nat_order, IsMap, find-All}
use wyvern.Ir.{Instruction, Function, Module}
use wyvern.Runtime.Order.{CallsiteId, same_id, same_id_iff, id_order}
use wyvern.Runtime.{ok, ProfReport, ProfileInfo, Profiler, start, i64_limit, init_bits}
use wyvern.Runtime.Sound.{IsGood}
use wyvern.Runtime.Views.{tick, calls_of, uniques_of}
use wyvern.Runtime.Trace.{Body, run, Fits, weight, call_count, does_evaluate, unique_count}
use wyvern.Runtime.Trace.Keys.{run-HasKeys, init_prof-HasKeys}
use wyvern.Runtime.Trace.Program.{
  pre_main, first_state, profile_counts, reported_calls, reported-IsGood,
}
use wyvern.Report.{Text, comma, newline, to_u64, Row, dump}
use wyvern.Report.RoundTrip.{Lacks, IsLong, AreLong, row_of, IsPlain}
use wyvern.Report.Attach.{instructions, is_call}
use wyvern.Report.Profile.{load_profile_info}
use wyvern.Report.Profile.Rows.{IsAddressed, HasNames}
use wyvern.Report.Profile.Measured.{IsOnly, load_profile_info-dump}
use wyvern.Lazyfication.{Doubles, eval_rate, should_lazify}

get_elem?-map :
    (ns : List ℕ) (k : ℕ) → k < length ns → get_elem? (map pos ns) k ≡ some (pos (get_or ns k 0))
get_elem?-map [] k h = absurd (omega arith)
get_elem?-map (n ∷ ns) zero h = refl
get_elem?-map (n ∷ ns) (suc k) h = get_elem?-map ns k (omega arith)

-- A call site that was called has a report.
calls_of-found :
    (id : CallsiteId) (info : ProfileInfo)
    → 1 ≤ calls_of info id
    → (r : ProfReport) × (Map.find id info ≡ some r)
unfolding calls_of
calls_of-found id info h = elim (Option-cases (Map.find id info)) [
  | inl absent ↦ absurd (omega (arith, rw absent at h))
  | inr found ↦ found
]

uniques_of_found :
    (id : CallsiteId) (info : ProfileInfo) (r : ProfReport) (k : ℕ)
    → Map.find id info ≡ some r
    → uniques_of info id k ≡ get_or r.unique_arg_evals k 0
unfolding uniques_of
uniques_of_found id info r k found = rw found refl

-- What the decision reads of an entry of the profile.
should_lazify-found :
    (D : Doubles) (name_at : ℕ → Text) (profile : List (ℕ × Row)) (address k : ℕ) (id : CallsiteId)
    (r : ProfReport)
    → Map.find address profile ≡ some (row_of name_at (id, r))
    → k < length r.unique_arg_evals
    → get_or r.unique_arg_evals k 0 < 2 ^ 63
    → should_lazify D profile address k
      ≡ D.less (eval_rate D (get_or r.unique_arg_evals k 0) r.num_calls) D.threshold
unfolding should_lazify to_u64
should_lazify-found D name_at profile address k id r there h long =
    let same : get_or r.unique_arg_evals k 0 % 2 ^ 64 ≡ get_or r.unique_arg_evals k 0 =
      omega (arith, long) in
    rw (there, should_lazify, get_elem?-map r.unique_arg_evals k h, same) refl

AreLong-get_or : (ns : List ℕ) → ((k : ℕ) → get_or ns k 0 < 2 ^ 63) → AreLong ns
AreLong-get_or [] h = tt
AreLong-get_or (n ∷ ns) h = (h 0, AreLong-get_or ns (λ k. h (suc k)))

-- An instrumented execution, and what it leaves.
module _ (sig : CallsiteId → ℕ) (address : ℕ) (b : Body) (two : sig (pre_main address) ≡ 2)
    (fits : Fits sig (pre_main address) b) (lim : 1 + weight b < i64_limit) (bits : ℕ)
    (s : Profiler) (ran : run sig b init_bits (first_state address) ≡ ok (bits, s)) where
  left-IsMap : IsMap s.profile_info
  left-IsMap =
      run-HasKeys sig b init_bits (first_state address) (bits, s)
        (init_prof-HasKeys address start tt) ran

  left-IsPlain :
      (name_at : ℕ → Text)
      → ((a : ℕ) → Lacks comma (name_at a))
      → ((j : CallsiteId) → sig j < 2 ^ 7)
      → ((j : CallsiteId) (r : ProfReport) → Map.find j s.profile_info ≡ some r → IsLong j.call_id)
      → All (IsPlain name_at) s.profile_info
  left-IsPlain name_at plain few long =
      find-All (IsPlain name_at) s.profile_info left-IsMap (λ j r found.
        let good = reported-IsGood sig address b two fits lim bits s j r ran found in
        record {
          name_plain = plain j.fun_name;
          id_long = long j r found;
          calls_long = omega (arith, good.bounded.calls, lim);
          args = sig j;
          args_small = few j;
          has_args = good.sized.args;
          uniques = good.sized.uniques;
          totals = good.sized.evals;
          uniques_long =
              AreLong-get_or r.unique_arg_evals (λ k. omega (arith, good.bounded.uniques k, lim));
          totals_long = AreLong-get_or r.arg_evals (λ k. omega (arith, good.bounded.evals k, lim));
        })

  left_counts :
      (id : CallsiteId)
      → 1 ≤ call_count id b
      → (r : ProfReport) × (Map.find id s.profile_info ≡ some r)
        × ((k : ℕ)
            → k < 32
            → get_or r.unique_arg_evals k 0
              ≡ tick (same_id (pre_main address) id && does_evaluate k b) + unique_count id k b)
  left_counts id h =
      let (bits', s', ran', _, calls, _, uniques) = profile_counts sig address b two fits lim in
      let same : s' ≡ s = cc (ran', ran) in
      let counted : calls_of s.profile_info id ≡ call_count id b =
        subst (λ (t : Profiler). calls_of t.profile_info id ≡ call_count id b) same (calls id) in
      let (r, found) = calls_of-found id s.profile_info (omega (arith, counted, h)) in
      (
        r,
        found,
        λ k few.
            sym (uniques_of_found id s.profile_info r k found)
            ∙ ap (λ (t : Profiler). uniques_of t.profile_info id k) (sym same)
            ∙ uniques id k few,
      )

  -- After an execution of instrumented functions that do not return their arguments, with fewer than
  -- 2 ^ 63 - 1 events, at most 127 arguments at a call site and two at the one for main, and the
  -- evaluated ones below 32 and of their call site: the
  -- report that it leaves is loaded, and a call whose call site was called is lazified at an argument
  -- below 32 exactly when, in the arithmetic of `double`, the number of the call site's activations
  -- that evaluated the argument, divided by one more than the number of its calls, is less than the
  -- threshold. It needs that `stol` reads what `printf` prints of an int64_t, without commas; that the
  -- call sites' numbers are of that type; that no name has a comma and the header is one line; that
  -- no two instructions have one address and no two names one function; and that the report has one
  -- entry with the call site's name and number, which lead to the call. The call site is not the entry
  -- for main.
  pub should_lazify-load_profile_info :
      (show : ℤ → Text) (stol : Text → Option ℤ) (name_at : ℕ → Text)
      → ((n : ℤ) → IsLong n → stol (show n) ≡ some n)
      → ((n : ℤ) → IsLong n → Lacks comma (show n))
      → ((a : ℕ) → Lacks comma (name_at a))
      → ((j : CallsiteId) → sig j < 2 ^ 7)
      → ((j : CallsiteId) (r : ProfReport) → Map.find j s.profile_info ≡ some r → IsLong j.call_id)
      → (get_function : Text → Option ℕ) (M : Module) (header : Text) (id : CallsiteId) (k f : ℕ)
        (F : Function) (I : Instruction) (D : Doubles)
      → IsAddressed M
      → HasNames get_function
      → Lacks newline header
      → All (IsOnly name_at id) s.profile_info
      → get_function (name_at id.fun_name) ≡ some f
      → get_elem? M f ≡ some F
      → get_elem? (instructions F.blocks) (to_u64 id.call_id) ≡ some I
      → is_call I.opcode ≡ true
      → pre_main address ≢ id
      → 1 ≤ call_count id b
      → k < 32
      → k < sig id
      → (profile : List (ℕ × Row)) × (load_profile_info get_function stol M
            (some (dump show name_at header s.profile_info))
          ≡ some (true, profile))
        × (should_lazify D profile I.id k
            ≡ D.less
                (D.divide (D.of_u64 (unique_count id k b)) (D.of_u64 (suc (call_count id b))))
                D.threshold)
  should_lazify-load_profile_info show stol name_at read plain names_plain few long g M header id k
        f F I D addressed has_names one_line only named there at site inner called wide small =
      let (r, found, uniques) = left_counts id called in
      let good = reported-IsGood sig address b two fits lim bits s id r ran found in
      let evals : get_or r.unique_arg_evals k 0 ≡ unique_count id k b =
        ground (arith, uniques k wide, same_id_iff (pre_main address) id) in
      let (profile, loaded, attached) =
        load_profile_info-dump show stol name_at read plain g M header s.profile_info id r f F I
          addressed has_names one_line (left-IsPlain name_at names_plain few long) only left-IsMap
          found named there at site in
      (
        profile,
        loaded,
        should_lazify-found D name_at profile I.id k id r attached
              (omega (arith, good.sized.uniques, small))
              (omega (arith, good.bounded.uniques k, lim))
            ∙ rw (evals, reported_calls sig address b two fits lim bits s id r ran found)
                (unfold eval_rate in refl),
      )
