-- ===== src/Thunk/Memory.antt =====
-- The cells of a thunk under the stores and loads of passes/Lazyfication.cpp and
-- passes/ProgramSlice.cpp.
use wyvern.Base.{
  ℕ, zero, suc, ◌+◌, ◌≤◌, ◌<◌, ◌≡◌, ◌≢◌, refl, ap, ◌∙◌, Bool, true, false, List, [], ◌∷◌, some,
  arith, get_elem?, set, length, length-set, length-map,
}
use wyvern.Thunk.{
  compute_struct_type, value_of_type, Cell, word, bit, delegate, Thunk, first_param, store_env,
  initialize, load_params,
}

pub get_elem?-set : (t : Thunk) (i : ℕ) (c : Cell) → i < length t → get_elem? (set t i c) i ≡ some c
get_elem?-set [] i c h = absurd (omega arith)
get_elem?-set (x ∷ t) zero c h = refl
get_elem?-set (x ∷ t) (suc i) c h = get_elem?-set t i c (omega arith)

pub get_elem?-set_other :
    (t : Thunk) (i j : ℕ) (c : Cell) → i ≢ j → get_elem? (set t i c) j ≡ get_elem? t j
get_elem?-set_other [] i j c h = refl
get_elem?-set_other (x ∷ t) zero zero c h = absurd (h refl)
get_elem?-set_other (x ∷ t) zero (suc j) c h = refl
get_elem?-set_other (x ∷ t) (suc i) zero c h = refl
get_elem?-set_other (x ∷ t) (suc i) (suc j) c h = get_elem?-set_other t i j c (λ e. h (ap suc e))

-- The environment leaves the fields before it alone.
store_env_before :
    (env : List ℕ) (i j : ℕ) (t : Thunk) → j < i → get_elem? (store_env i env t) j ≡ get_elem? t j
unfolding store_env
store_env_before [] i j t h = refl
store_env_before (v ∷ vs) i j t h =
    store_env_before vs (suc i) j (set t i (word v)) (omega arith)
    ∙ get_elem?-set_other t i j (word v) (λ e. absurd (omega arith))

length-store_env : (env : List ℕ) (i : ℕ) (t : Thunk) → length (store_env i env t) ≡ length t
unfolding store_env
length-store_env [] i t = refl
length-store_env (v ∷ vs) i t =
    length-store_env vs (suc i) (set t i (word v)) ∙ length-set t i (word v)

pub load_params-set :
    (count i j : ℕ) (c : Cell) (t : Thunk)
    → j < i
    → load_params count i (set t j c) ≡ load_params count i t
unfolding load_params
load_params-set zero i j c t h = refl
load_params-set (suc count) i j c t h =
    let kept = get_elem?-set_other t j i c (λ e. absurd (omega arith)) in
    ground (arith, kept, load_params-set count (suc i) j c t (omega arith))

load_params-store_env :
    (env : List ℕ) (i : ℕ) (t : Thunk)
    → i + length env ≤ length t
    → load_params (length env) i (store_env i env t) ≡ some env
unfolding load_params store_env
load_params-store_env [] i t h = refl
load_params-store_env (v ∷ vs) i t h =
    let here =
      store_env_before vs (suc i) i (set t i (word v)) (omega arith)
      ∙ get_elem?-set t i (word v) (omega arith) in
    let rest =
      load_params-store_env vs (suc i) (set t i (word v))
        (omega (arith, length-set t i (word v))) in
    rw (here, load_params, rest) refl

length-compute_struct_type :
    (memo : Bool) (result : ℕ) (types : List ℕ)
    → length (compute_struct_type memo result types) ≡ first_param memo + length types
unfolding compute_struct_type
length-compute_struct_type true result types = omega (arith, length-map value_of_type types)
length-compute_struct_type false result types = omega (arith, length-map value_of_type types)

-- A thunk of the struct's size that `generateThunkInitializationCode` has filled holds the delegate,
-- a memoized one a cleared flag, and the delegate's loads read the environment back.
module _ (function result : ℕ) (env types : List ℕ) (t : Thunk)
    (same : length env ≡ length types) where
  pub initialize-load_params :
      (memo : Bool)
      → length t ≡ length (compute_struct_type memo result types)
      → (load_params (length env) (first_param memo) (initialize memo function env t) ≡ some env)
        × (get_elem? (initialize memo function env t) 0 ≡ some (delegate function))
  unfolding initialize
  initialize-load_params true size =
      let n = length-compute_struct_type true result types in
      let u = set t 0 (delegate function) in
      (
        load_params-store_env env 3 (set u 2 (bit false))
            (omega (arith, length-set u 2 (bit false), length-set t 0 (delegate function))),
        store_env_before env 3 0 (set u 2 (bit false)) (omega arith)
            ∙ get_elem?-set_other u 2 0 (bit false) (λ e. absurd (omega arith))
            ∙ get_elem?-set t 0 (delegate function) (omega arith),
      )
  initialize-load_params false size =
      let n = length-compute_struct_type false result types in
      (
        load_params-store_env env 1 (set t 0 (delegate function))
            (omega (arith, length-set t 0 (delegate function))),
        store_env_before env 1 0 (set t 0 (delegate function)) (omega arith)
            ∙ get_elem?-set t 0 (delegate function) (omega arith),
      )

  pub initialize_flag :
      length t ≡ length (compute_struct_type true result types)
      → (get_elem? (initialize true function env t) 2 ≡ some (bit false))
        × (3 ≤ length (initialize true function env t))
  unfolding initialize
  initialize_flag size =
      let n = length-compute_struct_type true result types in
      let u = set t 0 (delegate function) in
      (
        store_env_before env 3 2 (set u 2 (bit false)) (omega arith)
            ∙ get_elem?-set u 2 (bit false) (omega (arith, length-set t 0 (delegate function))),
        omega (
          arith,
          length-store_env env 3 (set u 2 (bit false)),
          length-set u 2 (bit false),
          length-set t 0 (delegate function),
        ),
      )
