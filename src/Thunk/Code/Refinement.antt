-- ===== src/Thunk/Code/Refinement.antt =====
-- The emitted code of a thunk, passes/Lazyfication.cpp and passes/ProgramSlice.cpp, is a cell of call
-- by need: an environment that waits, or a value.
use wyvern.Base.{
  ℕ, suc, ◌+◌, ◌≤◌, ◌≡◌, refl, sym, ap, ◌∙◌, Bool, true, false, not, ◌||◌, List, [], ◌∷◌, some,
  arith, get_elem?, set, length, length-map, subst, map, get_elem?_total, length-set,
}
use wyvern.Base.Map
use wyvern.Base.Map.{nat_order}
use wyvern.Thunk.{compute_struct_type, Cell, word, bit, Thunk, Evaluation, load_params, initialize}
use wyvern.Thunk.Memory.{
  get_elem?-set, get_elem?-set_other, initialize-load_params, initialize_flag,
}
use wyvern.Thunk.Code.{
  load_args, struct_gep, load_field, add_memoization_code, Machine, enter, execute, run_emitted,
  generate_thunk_initialization_code, run_slice, run_memoized, run_delegate,
}
use wyvern.Thunk.Code.Runs.{
  find_head, find_tail, load_here, Loaded, load_args-load_params,
  generate_thunk_initialization_code-initialize,
}

-- A cell of call by need.
pub data Need : Type 0 where
  delayed : List ℕ → Need
  forced : ℕ → Need

unfoldable pub force : (List ℕ → ℕ) → Need → ℕ
force compute (delayed env) = compute env
force compute (forced v) = v

abbrev pub is_delayed : Need → Bool
is_delayed (delayed env) = true
is_delayed (forced v) = false

module _ (count : ℕ) (compute : List ℕ → ℕ) where
  -- What a thunk's memory says of the cell. Without memoization the environment stays.
  unfoldable pub Represents : Bool → Thunk → Need → Type 0
  Represents true t (delayed env) =
      (3 ≤ length t) × (get_elem? t 2 ≡ some (bit false)) × (load_params count 3 t ≡ some env)
  Represents true t (forced v) =
      (3 ≤ length t) × (get_elem? t 2 ≡ some (bit true)) × (get_elem? t 1 ≡ some (word v))
  Represents false t (delayed env) = load_params count 1 t ≡ some env
  Represents false t (forced v) =
      (env : List ℕ) × (load_params count 1 t ≡ some env) × (compute env ≡ v)

  pub run_slice_plain :
      (n : ℕ) (t : Thunk) (env : List ℕ)
      → load_params count 1 t ≡ some env
      → run_delegate count compute false n t
        ≡ some (record { value = compute env; after = t; computed = true })
  unfolding run_delegate run_slice run_emitted
  run_slice_plain n t env e =
      let (m, ran, loaded) = load_args-load_params (λ a. 0) 0 n 1 count env (enter t) e in
      rw (ran, run_slice, loaded.args)
        (ap (λ (u : Thunk). some (record { value = compute env; after = u; computed = true }))
          loaded.same_thunk)

  module _ (n : ℕ) (t : Thunk) (memo flag : Cell) (at_value : get_elem? t 1 ≡ some memo)
      (at_flag : get_elem? t 2 ≡ some flag) where
    abbrev k : ℕ
    k = n + (count + count)

    abbrev entered : Machine
    entered = record {
      fields = (suc (suc k), 2) ∷ (k, 1) ∷ [];
      loaded = (suc (suc (suc k)), flag) ∷ (suc k, memo) ∷ [];
      thunk = t;
    }

    entry_runs : run_emitted (λ a. 0) 0 (add_memoization_code k).entry (enter t) ≡ some entered
    unfolding add_memoization_code run_emitted
    entry_runs =
        load_here (λ a. 0) 0 (suc k) k 1 memo
          (struct_gep (suc (suc k)) 2 ∷ load_field (suc (suc (suc k))) (suc (suc k)) ∷ []) (enter t)
          at_value
        ∙ load_here (λ a. 0) 0 (suc (suc (suc k))) (suc (suc k)) 2 flag []
            (record (enter t) { fields = (k, 1) ∷ []; loaded = (suc k, memo) ∷ [] }) at_flag

    found_memo : Map.find (suc k) entered.loaded ≡ some memo
    found_memo =
        find_tail (suc k) (suc (suc (suc k))) flag ((suc k, memo) ∷ []) (λ e. absurd (omega arith))
        ∙ find_head (suc k) memo []

    -- The two stores in front of the return, behind the loads of the slice.
    update_runs :
        (env : List ℕ) (v : ℕ) (m : Machine)
        → Loaded n count env entered m
        → run_emitted (λ a. 0) v (add_memoization_code k).update m
          ≡ some (record m { thunk = set (set m.thunk 2 (bit true)) 1 (word v) })
    unfolding add_memoization_code run_emitted execute
    update_runs env v m loaded =
        let flag_field =
          loaded.fields_above (suc (suc k)) (omega arith)
          ∙ find_head (suc (suc k)) 2 ((k, 1) ∷ []) in
        let value_field =
          loaded.fields_above k (omega arith)
          ∙ find_tail k (suc (suc k)) 2 ((k, 1) ∷ []) (λ e. absurd (omega arith))
          ∙ find_head k 1 [] in
        rw (flag_field, run_emitted, execute, value_field) refl

    run_slice_memo :
        (env : List ℕ)
        → load_params count 3 t ≡ some env
        → run_slice count compute n (load_args n 3 count) (add_memoization_code k).update entered
          ≡ some (record {
            value = compute env;
            after = set (set t 2 (bit true)) 1 (word (compute env));
            computed = true;
          })
    unfolding run_slice
    run_slice_memo env e =
        let (m, ran, loaded) = load_args-load_params (λ a. 0) 0 n 3 count env entered e in
        rw (ran, run_slice, loaded.args, update_runs env (compute env) m loaded)
          (ap
            (λ (u : Thunk). some (record {
              value = compute env;
              after = set (set u 2 (bit true)) 1 (word (compute env));
              computed = true;
            }))
            loaded.same_thunk)

  run_memoized_delayed :
      (n : ℕ) (t : Thunk) (memo : Cell) (env : List ℕ)
      → get_elem? t 1 ≡ some memo
      → get_elem? t 2 ≡ some (bit false)
      → load_params count 3 t ≡ some env
      → run_delegate count compute true n t
        ≡ some (record {
          value = compute env;
          after = set (set t 2 (bit true)) 1 (word (compute env));
          computed = true;
        })
  unfolding run_delegate run_memoized add_memoization_code
  run_memoized_delayed n t memo env value flag e =
      let at = n + (count + count) in
      rw
        (
          entry_runs n t memo (bit false) value flag,
          run_memoized,
          find_head (suc (suc (suc at))) (bit false) ((suc at, memo) ∷ []),
        )
        (run_slice_memo n t memo (bit false) value flag env e)

  run_memoized_forced :
      (n v : ℕ) (t : Thunk)
      → get_elem? t 1 ≡ some (word v)
      → get_elem? t 2 ≡ some (bit true)
      → run_delegate count compute true n t
        ≡ some (record { value = v; after = t; computed = false })
  unfolding run_delegate run_memoized add_memoization_code
  run_memoized_forced n v t value flag =
      let at = n + (count + count) in
      rw
        (
          entry_runs n t (word v) (bit true) value flag,
          run_memoized,
          find_head (suc (suc (suc at))) (bit true) ((suc at, word v) ∷ []),
          found_memo n t (word v) (bit true) value flag,
        )
        refl

  -- A call of a delegate forces the cell that its thunk represents: it returns the cell's value, the
  -- thunk then represents the forced cell, and the slice is computed only if the cell was delayed or
  -- nothing is memoized.
  pub run_delegate-force :
      (memo : Bool) (n : ℕ) (t : Thunk) (c : Need)
      → Represents memo t c
      → (e : Evaluation) × (run_delegate count compute memo n t ≡ some e)
        × (e.value ≡ force compute c)
        × Represents memo e.after (forced (force compute c))
        × (e.computed ≡ (not memo || is_delayed c))
  unfolding Represents force
  run_delegate-force false n t (delayed env) e =
      (_, run_slice_plain n t env e, refl, (env, e, refl), refl)
  run_delegate-force false n t (forced v) (env, e, same) =
      (_, run_slice_plain n t env e, same, (env, e, same), refl)
  run_delegate-force true n t (delayed env) (size, flag, e) =
      let (memo, value) = get_elem?_total t 1 (omega arith) in
      let u = set t 2 (bit true) in
      (
        _,
        run_memoized_delayed n t memo env value flag e,
        refl,
        (
          omega (arith, length-set u 1 (word (compute env)), length-set t 2 (bit true)),
          get_elem?-set_other u 1 2 (word (compute env)) (λ q. absurd (omega arith))
              ∙ get_elem?-set t 2 (bit true) (omega arith),
          get_elem?-set u 1 (word (compute env)) (omega (arith, length-set t 2 (bit true))),
        ),
        refl,
      )
  run_delegate-force true n t (forced v) (size, flag, value) =
      (_, run_memoized_forced n v t value flag, refl, (size, flag, value), refl)

initialize-Represents :
    (memo : Bool) (f result : ℕ) (env types : List ℕ) (compute : List ℕ → ℕ) (t : Thunk)
    → length env ≡ length types
    → length t ≡ length (compute_struct_type memo result types)
    → Represents (length env) compute memo (initialize memo f env t) (delayed env)
unfolding Represents
initialize-Represents true f result env types compute t same size =
    let (flag, long) = initialize_flag f result env types t same size in
    (long, flag, (initialize-load_params f result env types t same true size).0)
initialize-Represents false f result env types compute t same size =
    (initialize-load_params f result env types t same false size).0

-- The code that initializes a thunk of the size of its struct type runs, and leaves a thunk that
-- represents the cell of the environment.
pub generate_thunk_initialization_code-Represents :
    (memo : Bool) (delegate_function result : ℕ) (args types : List ℕ) (values : ℕ → ℕ)
    (compute : List ℕ → ℕ) (n : ℕ) (t : Thunk)
    → length args ≡ length types
    → length t ≡ length (compute_struct_type memo result types)
    → (m : Machine) × (run_emitted values 0
          (generate_thunk_initialization_code memo delegate_function args n)
          (enter t)
        ≡ some m)
      × Represents (length args) compute memo m.thunk (delayed (map values args))
generate_thunk_initialization_code-Represents memo f result args types values compute n t same
      size =
    let (m, ran, filled) = generate_thunk_initialization_code-initialize values 0 memo f args n t in
    (
      m,
      ran,
      subst (λ (u : Thunk). Represents (length args) compute memo u (delayed (map values args)))
          (sym filled)
          (subst
            (λ (i : ℕ).
              Represents i compute memo (initialize memo f (map values args) t)
                (delayed (map values args)))
            (length-map values args)
            (initialize-Represents memo f result (map values args) types compute t
              (length-map values args ∙ same) size)),
    )
