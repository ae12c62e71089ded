-- ===== src/Lazyfication/Run.antt =====
-- runOnModule of passes/Lazyfication.cpp: the loops over the call sites and over their arguments.
pub mod Arguments
pub mod Invariant
use wyvern.Base.{
  ℕ, zero, suc, ◌+◌, ◌-◌, ◌%◌, ◌^◌, ◌≡◌, Bool, true, false, not, ◌&&◌, ◌||◌, List, [], ◌∷◌, ◌++◌,
  Option, none, some, ltb, ◌==◌, if◌then◌else◌, length, get_elem?, any,
}
use wyvern.Base.Int.{ℤ}
use wyvern.Base.Map
use wyvern.Base.Map.{Set, contains, add, nat_order, pair_order}
use wyvern.Ir.{
  Value, inst, argument, Callee, Opcode, call, Instruction, Block, Function, Module, same_value,
  callee_body, call_args,
}
use wyvern.Report.{Row}
use wyvern.Report.Attach.{instructions, is_call}
use wyvern.ProgramSlice.Control.{DomTree}
use wyvern.ProgramSlice.Dependences.{as_instruction}
use wyvern.ProgramSlice.Outline.{Analyses, Slice, new_slice, can_outline}
use wyvern.Lazyfication.{Site, Llvm, Driver, Doubles, unsigned_max, lazify_callsite, should_lazify}

-- The loop over the arguments of a call with an index of type uint8_t, on fuel: whether the last
-- call site that was tried was changed, and the state. `none` means that the fuel ran out.
module _ (try : ℕ → Driver → Option (Bool × Driver)) where
  unfoldable pub arguments : ℕ → ℕ → ℕ → Bool → Driver → Option (Bool × Driver)
  arguments zero arg_size arg_idx changed d = none
  arguments (suc fuel) arg_size arg_idx changed d =
      let next = (λ (b : Bool) (e : Driver). arguments fuel arg_size (suc arg_idx % 2 ^ 8) b e) in
      elim (ltb arg_idx arg_size) [
        | false ↦ some (changed, d)
        | true ↦ elim (try arg_idx d) [
          | none ↦ next changed d
          | some (true, e) ↦ some (true, e)
          | some (false, e) ↦ next false e
        ]
      ]

-- One argument of a call: `none` where it should not be lazified.
unfoldable pub try_profiled :
    Llvm → Bool → Doubles → List (ℕ × Row) → Site → ℕ → Driver → Option (Bool × Driver)
try_profiled L memo D profile s arg_idx d =
    if should_lazify D profile s.address arg_idx
    then some (lazify_callsite L memo s arg_idx d)
    else none

-- The calls of the module with their numbers of arguments. Those that the pass itself makes have no
-- profile.
unfoldable pub calls_in : ℕ → List Instruction → List (Site × ℕ)
calls_in f [] = []
calls_in f (I ∷ rest) =
    if is_call I.opcode
    then (record { caller = f; address = I.id }, length (call_args I)) ∷ calls_in f rest
    else calls_in f rest

unfoldable pub calls_of_module : ℕ → Module → List (Site × ℕ)
calls_of_module f [] = []
calls_of_module f (F ∷ Fs) = calls_in f (instructions F.blocks) ++ calls_of_module (suc f) Fs

-- The loops over the module with a profile; `fuel` is for the arguments of each call.
module _ (L : Llvm) (memo : Bool) where
  unfoldable pub run_profiled :
      Doubles → List (ℕ × Row) → ℕ → List (Site × ℕ) → Bool → Driver → Option (Bool × Driver)
  run_profiled D profile fuel [] changed d = some (changed, d)
  run_profiled D profile fuel ((s, arg_size) ∷ rest) changed d =
      elim (arguments (try_profiled L memo D profile s) fuel arg_size 0 changed d) [
        | none ↦ none
        | some (b, e) ↦ run_profiled D profile fuel rest b e
      ]

  -- The callee of a call as the module has it now.
  unfoldable pub called_function : Module → Site → Option ℕ
  called_function M s = elim (get_elem? M s.caller) [
    | none ↦ none
    | some F ↦ elim (as_instruction F (inst s.address)) [
      | none ↦ none
      | some (b, CI) ↦ elim CI.opcode [ call (some (Callee.function g)) ↦ some g | _ ↦ none ]
    ]
  ]

  -- The loop over the analysis's call sites; `argIdx` is a uint8_t.
  unfoldable pub run_static : Set (ℕ × ℕ) → List (Site × ℕ) → Bool → Driver → Bool × Driver
  run_static promising [] changed d = (changed, d)
  run_static promising ((s, arg_idx) ∷ rest) changed d = elim (called_function d.program s) [
    | none ↦ run_static promising rest changed d
    | some g ↦
        let i = arg_idx % 2 ^ 8 in
        let (b, e) =
          (if contains (g, i) promising then lazify_callsite L memo s i d else (changed, d)) in
        run_static promising rest b e
  ]

unfoldable pub start_driver : Module → Driver
start_driver M = record {
  program = M;
  num_callsites = 0;
  num_functions = 0;
  largest = 0;
  smallest = unsigned_max;
  total = 0;
  lazified = [];
  cloned = [];
  next_type = 0;
}

-- `SmallestSliceSize` at the end.
unfoldable pub finish : Bool × Driver → Bool × Driver
finish (b, d) = (b, record d { smallest = if d.smallest == unsigned_max then 0 else d.smallest })

-- What the options and the other passes give: no profile is asked for, and there are the call sites
-- and the promising arguments of the analysis; or one is asked for, which may fail to load.
pub data Source : Type 0 where
  analysis : List (Site × ℕ) → Set (ℕ × ℕ) → Source
  profile_file : Option (List (ℕ × Row)) → Source

-- `runOnModule`; `enabled` is the option `wylazy-enable`.
unfoldable pub run_driver : Llvm → Bool → Doubles → Bool → Source → Module → Option (Bool × Driver)
run_driver L memo D false source M = some (false, start_driver M)
run_driver L memo D true (analysis sites promising) M =
    some (finish (run_static L memo promising sites false (start_driver M)))
run_driver L memo D true (profile_file none) M = some (false, start_driver M)
run_driver L memo D true (profile_file (some rows)) M =
    elim (run_profiled L memo D rows 256 (calls_of_module 0 M) false (start_driver M)) [
      | none ↦ none
      | some r ↦ some (finish r)
    ]
