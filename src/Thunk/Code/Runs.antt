-- ===== src/Thunk/Code/Runs.antt =====
-- The emitted code does to a thunk what the functions of Thunk do.
use wyvern.Base.{
  ℕ, zero, suc, ◌+◌, ◌≤◌, ◌<◌, ◌≡◌, ◌≢◌, refl, ap, ◌∙◌, Bool, true, false, List, [], ◌∷◌, Option,
  none, some, arith, get_elem?, set, map, ==_iff, Option-cases, inl, inr,
}
use wyvern.Base.Map
use wyvern.Base.Map.{nat_order}
use wyvern.Thunk.{
  Cell, undef, delegate, word, bit, Thunk, as_word, store_env, initialize, load_params,
}
use wyvern.Thunk.Code.{
  Stored, function, constant_bit, variable, Emitted, struct_gep, store_field, load_field,
  store_args, generate_thunk_initialization_code, load_args, Machine, enter, stored_cell, execute,
  run_emitted, loaded_args,
}

pub find_head {ℓ} :
    {V : Type ℓ} (a : ℕ) (v : V) (m : List (ℕ × V)) → Map.find a ((a, v) ∷ m) ≡ some v
unfolding Map.find
find_head a v m = rw ((==_iff a a).1 refl) refl

pub find_tail {ℓ} :
    {V : Type ℓ} (a b : ℕ) (v : V) (m : List (ℕ × V))
    → b ≢ a
    → Map.find a ((b, v) ∷ m) ≡ Map.find a m
unfolding Map.find
find_tail a b v m h = ground arith

module _ (values : ℕ → ℕ) (result : ℕ) where
  -- A computed address and a store through it.
  store_here :
      (v : Stored) (a i : ℕ) (es : List Emitted) (m : Machine)
      → run_emitted values result (struct_gep a i ∷ store_field v a ∷ es) m
        ≡ run_emitted values result es (record m {
          fields = (a, i) ∷ m.fields;
          thunk = set m.thunk i (stored_cell values result v);
        })
  unfolding run_emitted execute
  store_here v a i es m = rw (find_head a i m.fields, run_emitted, execute) refl

  store_args-store_env :
      (n i : ℕ) (args : List ℕ) (m : Machine)
      → (m' : Machine) × (run_emitted values result (store_args n i args) m ≡ some m')
        × (m'.thunk ≡ store_env i (map values args) m.thunk)
  unfolding run_emitted store_args store_env
  store_args-store_env n i [] m = (m, refl, refl)
  store_args-store_env n i (arg ∷ args) m =
      let (m', ran, thunk) =
        store_args-store_env (suc n) (suc i) args
          (record m { fields = (n, i) ∷ m.fields; thunk = set m.thunk i (word (values arg)) }) in
      (m', store_here (variable arg) n i (store_args (suc n) (suc i) args) m ∙ ran, thunk)

  -- The initialization of a thunk.
  pub generate_thunk_initialization_code-initialize :
      (memo : Bool) (f : ℕ) (args : List ℕ) (n : ℕ) (t : Thunk)
      → (m : Machine) × (run_emitted values result
            (generate_thunk_initialization_code memo f args n)
            (enter t)
          ≡ some m)
        × (m.thunk ≡ initialize memo f (map values args) t)
  unfolding generate_thunk_initialization_code initialize
  generate_thunk_initialization_code-initialize false f args n t =
      let (m, ran, thunk) =
        store_args-store_env (suc (suc n)) 1 args
          (record (enter t) { fields = (n, 0) ∷ []; thunk = set t 0 (delegate f) }) in
      (m, store_here (function f) n 0 (store_args (suc (suc n)) 1 args) (enter t) ∙ ran, thunk)
  generate_thunk_initialization_code-initialize true f args n t =
      let first = record (enter t) { fields = (n, 0) ∷ []; thunk = set t 0 (delegate f) } in
      let rest = store_args (suc (suc n)) 3 args in
      let (m, ran, thunk) = store_args-store_env (suc (suc n)) 3 args (record first {
        fields = (suc n, 2) ∷ first.fields;
        thunk = set first.thunk 2 (bit false);
      }) in
      (
        m,
        store_here (function f) n 0
              (struct_gep (suc n) 2 ∷ store_field (constant_bit false) (suc n) ∷ rest) (enter t)
            ∙ store_here (constant_bit false) (suc n) 2 rest first
            ∙ ran,
        thunk,
      )

as_word-some : (o : Option Cell) (v : ℕ) → as_word o ≡ some v → o ≡ some (word v)
as_word-some (some (word w)) v e =
    ap (λ (o : Option ℕ). elim o [ none ↦ none | some u ↦ some (word u) ]) e
as_word-some (some (delegate f)) v e = cc e
as_word-some (some (bit b)) v e = cc e
as_word-some (some undef) v e = cc e
as_word-some none v e = cc e

load_params-suc :
    (count i : ℕ) (t : Thunk) (env : List ℕ)
    → load_params (suc count) i t ≡ some env
    → (v : ℕ) × (vs : List ℕ) × (get_elem? t i ≡ some (word v))
      × (load_params count (suc i) t ≡ some vs)
      × (v ∷ vs ≡ env)
unfolding load_params
load_params-suc count i t env e = elim (Option-cases (as_word (get_elem? t i))) [
  | inl bad ↦
      let never : ◌≡◌ {A = Option (List ℕ)} none (some env) = rw (bad, load_params) at e in cc never
  | inr (v, good) ↦ elim (Option-cases (load_params count (suc i) t)) [
    | inl bad ↦
        let never : ◌≡◌ {A = Option (List ℕ)} none (some env) = rw (good, load_params, bad) at e in
        cc never
    | inr (vs, later) ↦
        let same : ◌≡◌ {A = Option (List ℕ)} (some (v ∷ vs)) (some env) =
          rw (good, load_params, later) at e in
        (v, vs, as_word-some (get_elem? t i) v good, later, cc same)
  ]
]

-- The loads of a delegate: what its instructions find, and what is left as it was.
pub record Loaded (n count : ℕ) (env : List ℕ) (m m' : Machine) : Type 0 where
  pub args : loaded_args n count m'.loaded ≡ some env
  pub same_thunk : m'.thunk ≡ m.thunk
  pub fields_kept : (a : ℕ) → a < n → Map.find a m'.fields ≡ Map.find a m.fields
  pub fields_above : (a : ℕ) → n + (count + count) ≤ a → Map.find a m'.fields ≡ Map.find a m.fields
  pub loaded_kept : (a : ℕ) → a < n → Map.find a m'.loaded ≡ Map.find a m.loaded

module _ (values : ℕ → ℕ) (result : ℕ) where
  -- A computed address and a load through it.
  pub load_here :
      (r a i : ℕ) (c : Cell) (es : List Emitted) (m : Machine)
      → get_elem? m.thunk i ≡ some c
      → run_emitted values result (struct_gep a i ∷ load_field r a ∷ es) m
        ≡ run_emitted values result es
            (record m { fields = (a, i) ∷ m.fields; loaded = (r, c) ∷ m.loaded })
  unfolding run_emitted execute
  load_here r a i c es m there = rw (find_head a i m.fields, run_emitted, execute, there) refl

  pub load_args-load_params :
      (n i count : ℕ) (env : List ℕ) (m : Machine)
      → load_params count i m.thunk ≡ some env
      → (m' : Machine) × (run_emitted values result (load_args n i count) m ≡ some m')
        × Loaded n count env m m'
  unfolding run_emitted load_args loaded_args load_params
  load_args-load_params n i zero env m e = (
    m,
    refl,
    record {
      args = e;
      same_thunk = refl;
      fields_kept = λ a h. refl;
      fields_above = λ a h. refl;
      loaded_kept = λ a h. refl;
    },
  )
  load_args-load_params n i (suc count) env m e =
      let (v, vs, there, later, whole) = load_params-suc count i m.thunk env e in
      let next = (record m { fields = (n, i) ∷ m.fields; loaded = (suc n, word v) ∷ m.loaded }) in
      let (m', ran, rest) = load_args-load_params (suc (suc n)) (suc i) count vs next later in
      let first = rest.loaded_kept (suc n) (omega arith) ∙ find_head (suc n) (word v) m.loaded in
      (
        m',
        load_here (suc n) n i (word v) (load_args (suc (suc n)) (suc i) count) m there ∙ ran,
        record {
          args = rw (first, loaded_args, rest.args) (ap some whole);
          same_thunk = rest.same_thunk;
          fields_kept = λ a h.
              rest.fields_kept a (omega arith)
              ∙ find_tail a n i m.fields (λ q. absurd (omega arith));
          fields_above = λ a h.
              rest.fields_above a (omega arith)
              ∙ find_tail a n i m.fields (λ q. absurd (omega arith));
          loaded_kept = λ a h.
              rest.loaded_kept a (omega arith)
              ∙ find_tail a (suc n) (word v) m.loaded (λ q. absurd (omega arith));
        },
      )
