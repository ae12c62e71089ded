-- ===== src/Lazyfication/Run/Invariant.antt =====
-- runOnModule of passes/Lazyfication.cpp returns, and keeps its counters and its cache consistent.
use wyvern.Base.{
  ℕ, zero, suc, ◌<◌, ◌%◌, ◌^◌, ◌≡◌, refl, subst, Bool, true, false, List, [], ◌∷◌, Option, none,
  some, arith, All, ltb, Bool-cases, Option-cases, inl, inr,
}
use wyvern.Base.Map.{Set, contains, pair_order}
use wyvern.Ir.{Module}
use wyvern.Report.{Row}
use wyvern.Lazyfication.Run.Arguments.{arguments_total}
use wyvern.Lazyfication.{Site, Llvm, Driver, Doubles, lazify_callsite, should_lazify}
use wyvern.Lazyfication.Run.{
  arguments, try_profiled, run_profiled, called_function, run_static, calls_of_module, start_driver,
  finish, Source, analysis, profile_file, run_driver,
}
use wyvern.Lazyfication.Counters.{IsConsistent, lazify_callsite-IsConsistent}

start-IsConsistent : (M : Module) → IsConsistent (start_driver M)
unfolding start_driver
start-IsConsistent M = record {
  pairs = refl;
  fewer = omega arith;
  own_clones = refl;
  old_types = tt;
  ordered = λ _. refl;
  bounded = omega arith;
  least = λ h. absurd (omega (arith, h));
}

finish-IsConsistent : (b : Bool) (d : Driver) → IsConsistent d → IsConsistent (finish (b, d)).1
unfolding finish
finish-IsConsistent b d c = record {
  pairs = c.pairs;
  fewer = c.fewer;
  own_clones = c.own_clones;
  old_types = c.old_types;
  ordered = c.ordered;
  bounded = c.bounded;
  least = λ h. ground (arith, c.least h);
}

run_static-IsConsistent :
    (L : Llvm) (memo : Bool) (promising : Set (ℕ × ℕ)) (sites : List (Site × ℕ)) (changed : Bool)
    (d : Driver)
    → IsConsistent d
    → IsConsistent (run_static L memo promising sites changed d).1
unfolding run_static
run_static-IsConsistent L memo promising [] changed d c = c
run_static-IsConsistent L memo promising ((s, arg_idx) ∷ rest) changed d c =
    elim (Option-cases (called_function L memo d.program s)) [
      | inl none_there ↦
          rw (none_there, run_static) (run_static-IsConsistent L memo promising rest changed d c)
      | inr (g, found) ↦ elim (Bool-cases (contains (g, arg_idx % 2 ^ 8) promising)) [
        | inl there ↦
            rw (found, run_static, there)
              (run_static-IsConsistent L memo promising rest
                (lazify_callsite L memo s (arg_idx % 2 ^ 8) d).0
                (lazify_callsite L memo s (arg_idx % 2 ^ 8) d).1
                (lazify_callsite-IsConsistent L memo s (arg_idx % 2 ^ 8) d c))
        | inr not_there ↦
            rw (found, run_static, not_there)
              (run_static-IsConsistent L memo promising rest changed d c)
      ]
    ]

some_state :
    (a b : Bool) (d e : Driver)
    → ◌≡◌ {A = Option (Bool × Driver)} (some (a, d)) (some (b, e))
    → d ≡ e
some_state a b d e q = cc q

-- What each attempt keeps, the loop over the arguments keeps.
arguments_keep :
    (P : Driver → Type 0) (try : ℕ → Driver → Option (Bool × Driver))
    → ((i : ℕ) (d : Driver) (b : Bool) (e : Driver) → P d → try i d ≡ some (b, e) → P e)
    → (fuel arg_size arg_idx : ℕ) (changed : Bool) (d : Driver) (b : Bool) (e : Driver) → P d
    → arguments try fuel arg_size arg_idx changed d ≡ some (b, e)
    → P e
unfolding arguments
arguments_keep P try h zero arg_size arg_idx changed d b e p q = cc q
arguments_keep P try h (suc fuel) arg_size arg_idx changed d b e p q =
    elim (Bool-cases (ltb arg_idx arg_size)) [
      | inr over ↦ subst P (some_state changed b d e (rw (over, arguments) at q)) p
      | inl more ↦ elim (Option-cases (try arg_idx d)) [
        | inl skipped ↦
            arguments_keep P try h fuel arg_size (suc arg_idx % 2 ^ 8) changed d b e p
              (rw (more, arguments, skipped) at q)
        | inr ((true, e'), tried) ↦
            subst P (some_state true b e' e (rw (more, arguments, tried) at q))
              (h arg_idx d true e' p tried)
        | inr ((false, e'), tried) ↦
            arguments_keep P try h fuel arg_size (suc arg_idx % 2 ^ 8) false e' b e
              (h arg_idx d false e' p tried) (rw (more, arguments, tried) at q)
      ]
    ]

try_profiled-IsConsistent :
    (L : Llvm) (memo : Bool) (D : Doubles) (rows : List (ℕ × Row)) (s : Site) (i : ℕ) (d : Driver)
    (b : Bool) (e : Driver)
    → IsConsistent d
    → try_profiled L memo D rows s i d ≡ some (b, e)
    → IsConsistent e
unfolding try_profiled
try_profiled-IsConsistent L memo D rows s i d b e c q =
    elim (Bool-cases (should_lazify D rows s.address i)) [
      | inl low ↦
          let r = lazify_callsite L memo s i d in
          subst IsConsistent (some_state r.0 b r.1 e (rw (low, try_profiled) at q))
            (lazify_callsite-IsConsistent L memo s i d c)
      | inr high ↦
          let never : ◌≡◌ {A = Option (Bool × Driver)} none (some (b, e)) =
            rw (high, try_profiled) at q in
          cc never
    ]

run_profiled-IsConsistent :
    (L : Llvm) (memo : Bool) (D : Doubles) (rows : List (ℕ × Row)) (sites : List (Site × ℕ))
    (changed : Bool) (d : Driver)
    → IsConsistent d
    → All (λ (x : Site × ℕ). x.1 < 256) sites
    → (b : Bool) × (e : Driver) × (run_profiled L memo D rows 256 sites changed d ≡ some (b, e))
      × IsConsistent e
unfolding run_profiled
run_profiled-IsConsistent L memo D rows [] changed d c small = (changed, d, refl, c)
run_profiled-IsConsistent L memo D rows ((s, arg_size) ∷ rest) changed d c (p, small) =
    let try = try_profiled L memo D rows s in
    let (b, e, ran) =
      arguments_total try 256 arg_size 0 changed d p (omega (arith, p)) (omega (arith, p)) in
    let c' =
      arguments_keep IsConsistent try (try_profiled-IsConsistent L memo D rows s) 256 arg_size 0
        changed d b e c ran in
    let (b', e', ran', c'') = run_profiled-IsConsistent L memo D rows rest b e c' small in
    (b', e', rw (ran, run_profiled) ran', c'')

-- The calls of the program with more arguments than an index of type uint8_t can count.
abbrev pub FewArguments : Module → Type 0
FewArguments M = All (λ (x : Site × ℕ). x.1 < 256) (calls_of_module 0 M)

-- Where every call has fewer than 256 arguments, runOnModule returns, and its counters and its cache
-- are consistent, whatever is written into the module.
pub run_driver-IsConsistent :
    (L : Llvm) (memo : Bool) (D : Doubles) (enabled : Bool) (source : Source) (M : Module)
    → FewArguments M
    → (b : Bool) × (d : Driver) × (run_driver L memo D enabled source M ≡ some (b, d))
      × IsConsistent d
unfolding run_driver
run_driver-IsConsistent L memo D false source M few =
    (false, start_driver M, refl, start-IsConsistent M)
run_driver-IsConsistent L memo D true (analysis sites promising) M few =
    let r = run_static L memo promising sites false (start_driver M) in
    (
      (finish r).0,
      (finish r).1,
      refl,
      finish-IsConsistent r.0 r.1 (
          run_static-IsConsistent L memo promising sites false (start_driver M)
            (start-IsConsistent M)),
    )
run_driver-IsConsistent L memo D true (profile_file none) M few =
    (false, start_driver M, refl, start-IsConsistent M)
run_driver-IsConsistent L memo D true (profile_file (some rows)) M few =
    let (b, e, ran, c) =
      run_profiled-IsConsistent L memo D rows (calls_of_module 0 M) false (start_driver M)
        (start-IsConsistent M) few in
    ((finish (b, e)).0, (finish (b, e)).1, rw (ran, run_driver) refl, finish-IsConsistent b e c)
