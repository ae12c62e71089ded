-- ===== src/Thunk/Calls.antt =====
-- The uses of a thunk: what the calls of its delegate, passes/ProgramSlice.cpp, return, and how often
-- they compute the slice.
use wyvern.Base.{
  ℕ, zero, suc, ◌≤◌, ◌≡◌, refl, ap, ◌∙◌, Bool, true, false, List, some, arith, get_elem?, set,
  length, length-set, replicate,
}
use wyvern.Thunk.{
  compute_struct_type, word, bit, Thunk, initialize, load_params, call_outlined, compute_and_store,
  return_memo, call_memoized, call_delegate, use_times,
}
use wyvern.Thunk.Memory.{
  get_elem?-set, get_elem?-set_other, initialize-load_params, initialize_flag,
}

module _ (count : ℕ) (compute : List ℕ → ℕ) where
  -- Once the flag is set, every use returns the stored value and computes nothing.
  use_times_stored :
      (n v : ℕ) (t : Thunk)
      → get_elem? t 2 ≡ some (bit true)
      → get_elem? t 1 ≡ some (word v)
      → use_times count compute true n t ≡ some (replicate n v, 0)
  unfolding use_times call_delegate call_memoized return_memo
  use_times_stored zero v t flag value = refl
  use_times_stored (suc n) v t flag value =
      rw (use_times, flag, return_memo, value, use_times_stored n v t flag value) refl

  module _ (env : List ℕ) where
    use_times_first :
        (n : ℕ) (t : Thunk)
        → 3 ≤ length t
        → get_elem? t 2 ≡ some (bit false)
        → load_params count 3 t ≡ some env
        → use_times count compute true (suc n) t ≡ some (replicate (suc n) (compute env), 1)
    unfolding use_times call_delegate call_memoized compute_and_store
    use_times_first n t h flag params =
        let u = set t 2 (bit true) in
        let stored = set u 1 (word (compute env)) in
        let set_flag =
          get_elem?-set_other u 1 2 (word (compute env)) (λ e. absurd (omega arith))
          ∙ get_elem?-set t 2 (bit true) (omega arith) in
        let set_value =
          get_elem?-set u 1 (word (compute env)) (omega (arith, length-set t 2 (bit true))) in
        rw
          (
            use_times,
            flag,
            compute_and_store,
            params,
            use_times_stored n (compute env) stored set_flag set_value,
          )
          refl

    use_times_plain :
        (n : ℕ) (t : Thunk)
        → load_params count 1 t ≡ some env
        → use_times count compute false n t ≡ some (replicate n (compute env), n)
    unfolding use_times call_delegate call_outlined
    use_times_plain zero t params = refl
    use_times_plain (suc n) t params =
        rw (use_times, params, use_times_plain n t params)
          (ap (λ (k : ℕ). some (replicate (suc n) (compute env), k)) (omega arith))

-- How many of n uses compute the slice.
abbrev pub computations : Bool → ℕ → ℕ
computations true zero = 0
computations true (suc n) = 1
computations false n = n

-- A thunk has the fields of its struct type. Every use of one that was initialized returns what the slice computes from the environment that the
-- thunk was made with; with memoization the slice is computed by the first use only, and without by
-- every use.
pub use_times-initialize :
    (memo : Bool) (function result : ℕ) (env types : List ℕ) (compute : List ℕ → ℕ) (n : ℕ)
    (t : Thunk)
    → length env ≡ length types
    → length t ≡ length (compute_struct_type memo result types)
    → use_times (length env) compute memo n (initialize memo function env t)
      ≡ some (replicate n (compute env), computations memo n)
use_times-initialize true function result env types compute zero t same size =
    unfold use_times in refl
use_times-initialize true function result env types compute (suc n) t same size =
    let flag = initialize_flag function result env types t same size in
    use_times_first (length env) compute env n (initialize true function env t) flag.1 flag.0
      (initialize-load_params function result env types t same true size).0
use_times-initialize false function result env types compute n t same size =
    use_times_plain (length env) compute env n (initialize false function env t)
      (initialize-load_params function result env types t same false size).0
