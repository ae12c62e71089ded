-- ===== src/FindLazyfiable/Pass.antt =====
-- `analyzeCall` and `runOnModule` of passes/FindLazyfiable.cpp.
use wyvern.Base.{
  ℕ, zero, suc, ◌+◌, ◌≡◌, refl, ◌↔◌, ◌⊎◌, inl, inr, ⊎_elim, Bool, true, false, List, [], ◌∷◌,
  Option, none, some, arith, Bool-cases, get_elem?, ◌||◌, ◌∙◌, All,
}
use wyvern.Base.Map.{add, contains-empty, nat_order, pair_order}
use wyvern.Ir.{
  Value, inst, argument, constant, Callee, function, dummy_fun, Opcode, call, Block, Function,
  Module, is_declaration, callee_body, IsClosed,
}
use wyvern.FindLazyfiable.{Analysis, find_lazyfiable_paths}
use wyvern.FindLazyfiable.Promising.{is_promising, IsPromising, find_lazyfiable_paths_lem}
use wyvern.FindLazyfiable.MissingUses.{add_missing_uses, dummy_functions, remove_dummy_functions}

-- The loop over the arguments of a call, from `index` on. `isArgumentComplex` is always true.
unfoldable pub record_args : ℕ → ℕ → ℕ → List Value → Analysis → Analysis
record_args site callee index [] A = A
record_args site callee index (v ∷ vs) A = record_args site callee (suc index) vs (elim v [
  | inst _ ↦ record A {
    callsite_stats = add (callee, index) A.callsite_stats;
    callsites = add (site, index) A.callsites;
  }
  | _ ↦ A
])

unfoldable pub analyze_call : Module → ℕ → Option Callee → List Value → Analysis → Analysis
analyze_call M site none args A = A
analyze_call M site (some c) args A = elim (callee_body M c) [
  | none ↦ A
  | some g ↦ record_args site g 0 args A
]

unfoldable pub analyze_inst : Module → ℕ → List Value → Opcode → Analysis → Analysis
analyze_inst M site args (call c) A = analyze_call M site c args A
analyze_inst M site args _ A = A

unfoldable pub analyze_block : Module → Block → Analysis → Analysis
analyze_block M [] A = A
analyze_block M (I ∷ rest) A = analyze_block M rest (analyze_inst M I.id I.operands I.opcode A)

unfoldable pub analyze_calls : Module → List Block → Analysis → Analysis
analyze_calls M [] A = A
analyze_calls M (BB ∷ rest) A = analyze_calls M rest (analyze_block M BB A)

abbrev pub is_skipped : Function → Bool
is_skipped F = is_declaration F || F.is_var_arg

-- The loop over the functions of the module; `f` is the position of the next.
unfoldable pub analyze_functions : Module → ℕ → List Function → Analysis → Analysis
analyze_functions M f [] A = A
analyze_functions M f (F ∷ rest) A = analyze_functions M (suc f) rest (elim (is_skipped F) [
  | true ↦ A
  | false ↦ analyze_calls M F.blocks (find_lazyfiable_paths f F A)
])

abbrev pub no_results : Analysis
no_results = record {
  promising_functions = [];
  promising_args = [];
  callsites = [];
  callsite_stats = [];
}

-- `runOnModule`, after LLVM's passes. The results, and the module that is left, or `none` where the
-- removal reads freed memory.
unfoldable pub run_on_module : ℕ → Module → Analysis × Option Module
run_on_module fresh M =
    let searched = add_missing_uses fresh M in
    (
      analyze_functions searched 0 searched no_results,
      remove_dummy_functions (dummy_functions M []) searched,
    )

-- The calls leave the promising arguments alone.
record_args-promising :
    (site callee index : ℕ) (vs : List Value) (A : Analysis)
    → (record_args site callee index vs A).promising_args ≡ A.promising_args
unfolding record_args
record_args-promising site callee index [] A = refl
record_args-promising site callee index (inst a ∷ vs) A =
    record_args-promising site callee (suc index) vs _
record_args-promising site callee index (argument a ∷ vs) A =
    record_args-promising site callee (suc index) vs A
record_args-promising site callee index (constant a ∷ vs) A =
    record_args-promising site callee (suc index) vs A

analyze_call-promising :
    (M : Module) (site : ℕ) (c : Option Callee) (vs : List Value) (A : Analysis)
    → (analyze_call M site c vs A).promising_args ≡ A.promising_args
unfolding analyze_call
analyze_call-promising M site none vs A = refl
analyze_call-promising M site (some (dummy_fun t)) vs A = refl
analyze_call-promising M site (some (function g)) vs A =
    ground (arith, record_args-promising site g 0 vs A)

analyze_inst-promising :
    (M : Module) (site : ℕ) (vs : List Value) (o : Opcode) (A : Analysis)
    → (analyze_inst M site vs o A).promising_args ≡ A.promising_args
unfolding analyze_inst
analyze_inst-promising M site vs (call c) A = analyze_call-promising M site c vs A
analyze_inst-promising M site vs _ A = refl

analyze_block-promising :
    (M : Module) (BB : Block) (A : Analysis)
    → (analyze_block M BB A).promising_args ≡ A.promising_args
unfolding analyze_block
analyze_block-promising M [] A = refl
analyze_block-promising M (I ∷ rest) A =
    analyze_block-promising M rest _ ∙ analyze_inst-promising M I.id I.operands I.opcode A

analyze_calls-promising :
    (M : Module) (blocks : List Block) (A : Analysis)
    → (analyze_calls M blocks A).promising_args ≡ A.promising_args
unfolding analyze_calls
analyze_calls-promising M [] A = refl
analyze_calls-promising M (BB ∷ rest) A =
    analyze_calls-promising M rest (analyze_block M BB A) ∙ analyze_block-promising M BB A

-- Function g, counted from position f, has a body and a promising argument i.
abbrev IsFoundFrom : ℕ → List Function → ℕ → ℕ → Type 0
IsFoundFrom f Fs g i =
    (n : ℕ) × (F : Function) × (g ≡ f + n)
    × (get_elem? Fs n ≡ some F)
    × (is_skipped F ≡ false)
    × IsPromising F i

IsFoundFrom-tail :
    (f : ℕ) (F : Function) (rest : List Function) (g i : ℕ)
    → IsFoundFrom (suc f) rest g i
    → IsFoundFrom f (F ∷ rest) g i
IsFoundFrom-tail f F rest g i (n, G, e, at, body, p) = (suc n, G, omega arith, at, body, p)

IsFoundFrom-cons :
    (f : ℕ) (F : Function) (rest : List Function) (g i : ℕ)
    → IsFoundFrom f (F ∷ rest) g i
    → ((is_skipped F ≡ false) × (g ≡ f) × IsPromising F i) ⊎ IsFoundFrom (suc f) rest g i
IsFoundFrom-cons f F rest g i (zero, G, e, at, body, p) =
    let same : F ≡ G = cc in inl (rw same body, omega arith, rw same p)
IsFoundFrom-cons f F rest g i (suc n, G, e, at, body, p) = inr (n, G, omega arith, at, body, p)

analyze_functions_lem :
    (M : Module) (f : ℕ) (rest : List Function) (g i : ℕ) (A : Analysis)
    → All IsClosed rest
    → (is_promising (analyze_functions M f rest A) g i ≡ true)
      ↔ ((is_promising A g i ≡ true) ⊎ IsFoundFrom f rest g i)
unfolding analyze_functions
analyze_functions_lem M f [] g i A closed = (inl, ⊎_elim (λ m. m) (λ (n, F, e, at, body, p). cc))
analyze_functions_lem M f (F ∷ rest) g i A closed = elim (Bool-cases (is_skipped F)) [
  | inl skip ↦
      let later = analyze_functions_lem M (suc f) rest g i A closed.1 in
      rw (skip, analyze_functions)
        (
          λ m. ⊎_elim inl (λ q. inr (IsFoundFrom-tail f F rest g i q)) (later.0 m),
          ⊎_elim (λ m. later.1 (inl m))
              (λ q.
                ⊎_elim (λ r. cc (r.0, skip)) (λ r. later.1 (inr r))
                  (IsFoundFrom-cons f F rest g i q)),
        )
  | inr body ↦
      let paths = find_lazyfiable_paths_lem f F g i A closed.0 in
      let same = analyze_calls-promising M F.blocks (find_lazyfiable_paths f F A) in
      let later =
        analyze_functions_lem M (suc f) rest g i
          (analyze_calls M F.blocks (find_lazyfiable_paths f F A)) closed.1 in
      rw (body, analyze_functions)
        (
          λ m.
              ⊎_elim
                (λ q.
                  ⊎_elim inl (λ r. inr (0, F, omega arith, refl, body, r.1))
                    (paths.0 (rw (← same) q)))
                (λ q. inr (IsFoundFrom-tail f F rest g i q)) (later.0 m),
          ⊎_elim (λ m. later.1 (inl (rw same (paths.1 (inl m)))))
              (λ q.
                ⊎_elim (λ r. later.1 (inl (rw same (paths.1 (inr (r.1, r.2))))))
                  (λ r. later.1 (inr r)) (IsFoundFrom-cons f F rest g i q)),
        )
]

-- Where all successors are blocks of their function: when `runOnModule` returns, (g, i) is among the promising pairs if and only if function g of the
-- module with the phi uses added has a body and takes no variable arguments, and some path from its
-- entry to its exit crosses no use of argument i.
pub run_on_module_lem :
    (fresh : ℕ) (M : Module) (g i : ℕ)
    → All IsClosed (add_missing_uses fresh M)
    → (is_promising (run_on_module fresh M).0 g i ≡ true) ↔ (
        (F : Function) × (get_elem? (add_missing_uses fresh M) g ≡ some F)
        × (is_skipped F ≡ false)
        × IsPromising F i)
unfolding run_on_module
run_on_module_lem fresh M g i closed =
    let loop =
      analyze_functions_lem (add_missing_uses fresh M) 0 (add_missing_uses fresh M) g i no_results
        closed in
    (
      λ m.
          ⊎_elim (λ q. cc (contains-empty {K = ℕ × ℕ} (g, i), q))
            (λ (n, F, e, at, body, p). let same : g ≡ n = omega arith in (F, rw same at, body, p))
            (loop.0 m),
      λ (F, at, body, p). loop.1 (inr (g, F, omega arith, at, body, p)),
    )
