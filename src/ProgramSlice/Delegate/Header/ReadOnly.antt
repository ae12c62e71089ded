-- ===== src/ProgramSlice/Delegate/Header/ReadOnly.antt =====
-- The attribute ReadOnly of the delegates of passes/ProgramSlice.cpp against what they write.

use wyvern.Base.{
  [], ℕ, ◌+◌, ◌≡◌, ◌≢◌, refl, sym, ap, ◌∙◌, subst, true, false, List, Memᴰ, Option, some, none,
  get_elem?, length,
}
use wyvern.Ir.{Function}
use wyvern.Report.{Text}
use wyvern.Thunk.{Cell, bit, Thunk, Evaluation}
use wyvern.Thunk.Code.{
  load_args, add_memoization_code, enter, run_slice, run_memoized, run_delegate,
}
use wyvern.Thunk.Code.Refinement.{delayed, forced, force, Represents, run_delegate-force}
use wyvern.ProgramSlice.Control.{DomTree}
use wyvern.ProgramSlice.Outline.{Slice}
use wyvern.ProgramSlice.Delegate.Reroute.{DomNode}
use wyvern.ProgramSlice.Delegate.Finish.{Result, ok, fault, ◌>>=◌, Delegate, outline}
use wyvern.ProgramSlice.Delegate.Header.{
  read_only, memo_prefix, Named, create, Outlined, memoized_outline,
}

-- What is made of a delegate that was built.
built :
    (x : Result Delegate) (make : Delegate → Outlined) (O : Outlined)
    → (x >>= (λ d. ok (make d))) ≡ ok O
    → (d : Delegate) × (make d ≡ O)
built (ok d) make O e = (d, cc e)
built (fault f) make O e = cc e

raised_flag :
    (count : ℕ) (compute : List ℕ → ℕ) (t u : Thunk) (env : List ℕ) (v : ℕ)
    → Represents count compute true t (delayed env)
    → Represents count compute true u (forced v)
    → u ≢ t
unfolding Represents
raised_flag count compute t u env v (_, low, _) (_, high, _) same =
    let never : ◌≡◌ {A = Option Cell} (some (bit true)) (some (bit false)) =
      sym high ∙ ap (λ (w : Thunk). get_elem? w 2) same ∙ low in
    cc never

-- A call of a delegate as far as the thunk goes: its loads, and the code for memoization around its
-- blocks, run; what the blocks make of the `count` loaded values is `compute`, and they write nothing.
unfoldable pub run_outlined : ℕ → (List ℕ → ℕ) → ℕ → Outlined → Thunk → Option Evaluation
run_outlined count compute n O t = elim O.memo_code [
  | none ↦ run_slice count compute n O.loads [] (enter t)
  | some code ↦ run_memoized count compute n O.loads code t
]

module _ (F : Function) (S : Slice) (DT : DomTree) (root : DomNode) (attractors : List (Option ℕ))
    (initial exit : ℕ) (to_string : ℕ → Text) (N : Named) (random_num n : ℕ) (O : Outlined)
    (compute : List ℕ → ℕ) (t : Thunk) (env : List ℕ) where
  -- The delegate of `memoizedOutline` has the attribute ReadOnly, and writes to a thunk whose slice was
  -- not computed yet.
  pub memoized_outline-writes :
      memoized_outline F S DT root attractors initial exit to_string N random_num n ≡ ok O
      → Represents (length S.dep_args) compute true t (delayed env)
      → Memᴰ read_only O.header.attributes
        × ((e : Evaluation) × (run_outlined (length S.dep_args) compute n O t ≡ some e)
            × (e.value ≡ compute env)
            × (e.after ≢ t))
  unfolding memoized_outline create run_outlined run_delegate force
  memoized_outline-writes made waits =
      let count = length S.dep_args in
      let make : Delegate → Outlined = λ d. record {
        header = create to_string memo_prefix N random_num;
        delegate = d;
        loads = load_args n 3 count;
        memo_code = some (add_memoization_code (n + (count + count)));
      } in
      let (d, same) = built (outline F S DT root attractors initial exit) make O made in
      let (e, ran, value, now, _) = run_delegate-force count compute true n t (delayed env) waits in
      subst
        (λ (P : Outlined).
          Memᴰ read_only P.header.attributes
          × ((x : Evaluation) × (run_outlined count compute n P t ≡ some x)
              × (x.value ≡ compute env)
              × (x.after ≢ t)))
        same
        (
          Memᴰ.head refl,
          (e, ran, value, raised_flag count compute t e.after env (compute env) waits now),
        )
