-- ===== src/Lazyfication.antt =====
-- The driver of passes/Lazyfication.cpp: which call sites it lazifies, its counters and its cache of
-- cloned callees; the loops of runOnModule are in Run. How a lazified call site is written into
-- LLVM's functions is a parameter here, and a function in Write.
pub mod Guards
pub mod Counters
pub mod Run
pub mod Uses
pub mod Decision
pub mod Clone
pub mod Caller
pub mod Write
pub mod Examples
use wyvern.Base.{
  ℕ, zero, suc, ◌+◌, ◌-◌, ◌%◌, ◌^◌, ◌≡◌, Bool, true, false, not, ◌&&◌, ◌||◌, List, [], ◌∷◌, ◌++◌,
  Option, none, some, ltb, ◌==◌, if◌then◌else◌, length, get_elem?, any,
}
use wyvern.Base.Int.{ℤ}
use wyvern.Base.Map
use wyvern.Base.Map.{Set, contains, add, nat_order, pair_order}
use wyvern.Ir.{
  Value, inst, argument, Callee, Opcode, call, Instruction, Block, Function, Module, same_value,
  callee_body, call_args,
}
use wyvern.Report.{Row, to_u64}
use wyvern.Report.Attach.{instructions, is_call}
use wyvern.ProgramSlice.Control.{DomTree}
use wyvern.ProgramSlice.Dependences.{as_instruction}
use wyvern.ProgramSlice.Outline.{Analyses, Slice, new_slice, can_outline}

-- A call: the function it is in and its address.
pub record Site : Type 0 where
  pub caller : ℕ
  pub address : ℕ

-- A lazified argument: the instruction that computes it, and the callee.
pub record Lazified : Type 0 where
  pub arg : ℕ
  pub callee : ℕ

-- LLVM's analyses of a function of a module, and the writing of a lazified call site: the delegate,
-- the clone of the callee and the thunk. `write` is given the clone to reuse, if there is one, and
-- gives the module, the callee that is called, and the delegate's number of instructions.
pub record Llvm : Type 0 where
  pub dom_tree : Function → DomTree
  pub post_dom_tree : Function → DomTree
  pub preds : Function → ℕ → List ℕ
  pub analyses : Module → Function → Analyses
  pub write : Module → Site → ℕ → Lazified → Option ℕ → Module × (ℕ × ℕ)

-- `clonedCallees`: the callee, the index and the thunk type of each clone.
pub record CloneKey : Type 0 where
  pub callee : ℕ
  pub index : ℕ
  pub thunk_type : ℕ

abbrev pub same_key : CloneKey → CloneKey → Bool
same_key a b = a.callee == b.callee && (a.index == b.index && a.thunk_type == b.thunk_type)

-- The module, the statistics, `lazifiedFunctions` and `clonedCallees`. `next_type` counts the struct
-- types: `StructType::create` gives a new one each time.
pub record Driver : Type 0 where
  pub program : Module
  pub num_callsites : ℕ
  pub num_functions : ℕ
  pub largest : ℕ
  pub smallest : ℕ
  pub total : ℕ
  pub lazified : Set (ℕ × ℕ)
  pub cloned : List (CloneKey × ℕ)
  pub next_type : ℕ

-- `std::numeric_limits<unsigned int>::max()`
abbrev pub unsigned_max : ℕ
unsigned_max = 2 ^ 32 - 1

unfoldable pub find_clone : CloneKey → List (CloneKey × ℕ) → Option ℕ
find_clone k [] = none
find_clone k ((j, g) ∷ rest) = if same_key j k then some g else find_clone k rest

-- `callee_arg->getNumUses() == 0`, negated.
abbrev pub uses_argument : Function → ℕ → Bool
uses_argument G i = any (any (λ I. any (same_value (argument i)) I.operands)) G.blocks

module _ (L : Llvm) (M : Module) (s : Site) (index : ℕ) where
  -- The tests on the callee.
  unfoldable pub check_callee : ℕ → Opcode → Option Lazified
  check_callee a (call (some c)) = elim (callee_body M c) [
    | none ↦ none
    | some g ↦ elim (get_elem? M g) [
      | none ↦ none
      | some G ↦ elim (G.is_var_arg || not (uses_argument G index)) [
        | true ↦ none
        | false ↦ some (record { arg = a; callee = g })
      ]
    ]
  ]
  check_callee a _ = none

  -- The slice of the argument and its test.
  unfoldable pub outlines : Function → ℕ → Instruction → ℕ → Bool
  outlines F site_block CI a = elim (as_instruction F (inst a)) [
    | none ↦ false
    | some (b, initial) ↦
        elim (new_slice F (L.dom_tree F) (L.post_dom_tree F) (L.preds F) (inst a)) [
          | none ↦ false
          | some S ↦ can_outline (L.analyses M F) M F CI site_block initial S
        ]
  ]

  unfoldable pub check_argument : Function → ℕ → Instruction → Option Value → Option Lazified
  check_argument F site_block CI (some (inst a)) =
      if outlines F site_block CI a then check_callee a CI.opcode else none
  check_argument F site_block CI _ = none

  -- The early returns of `lazifyCallsite`.
  unfoldable pub check : Option Lazified
  check = elim (get_elem? M s.caller) [
    | none ↦ none
    | some F ↦ elim (as_instruction F (inst s.address)) [
      | none ↦ none
      | some (b, CI) ↦ check_argument F b CI (get_elem? (call_args CI) index)
    ]
  ]

abbrev pub is_some {ℓ} : {A : Type ℓ} → Option A → Bool
is_some none = false
is_some (some a) = true

-- The statistics after one more call site.
unfoldable pub count_slice : ℕ → Driver → Driver
count_slice size d = record d {
  total = d.total + size;
  largest = if ltb d.largest size then size else d.largest;
  smallest = if ltb size d.smallest then size else d.smallest;
}

unfoldable pub count_site : ℕ × ℕ → Driver → Driver
count_site pair d = record d {
  num_callsites = suc d.num_callsites;
  num_functions = if contains pair d.lazified then d.num_functions else suc d.num_functions;
  lazified = add pair d.lazified;
}

-- A slice has two struct types; `memo` picks one.
abbrev pub thunk_type : Bool → Driver → ℕ
thunk_type memo d = if memo then suc d.next_type else d.next_type

-- The part of `lazifyCallsite` behind the early returns. A clone that is reused stays in the map.
unfoldable pub lazify : Llvm → Bool → Site → ℕ → Lazified → Driver → Driver
lazify L memo s index l d =
    let key : CloneKey = record {
      callee = l.callee;
      index = index;
      thunk_type = thunk_type memo d;
    } in
    let previous = find_clone key d.cloned in
    let (M, (new_callee, size)) = L.write d.program s index l previous in
    count_slice size (
      count_site (s.caller, l.arg)
        (record d {
          program = M;
          cloned = if is_some previous then d.cloned else (key, new_callee) ∷ d.cloned;
          next_type = suc (suc d.next_type);
        }))

-- Whether `lazifyCallsite` builds a slice: where the argument is an instruction.
abbrev pub is_inst : Option Value → Bool
is_inst (some (inst a)) = true
is_inst _ = false

unfoldable pub builds_slice : Module → Site → ℕ → Bool
builds_slice M s index = elim (get_elem? M s.caller) [
  | none ↦ false
  | some F ↦ elim (as_instruction F (inst s.address)) [
    | none ↦ false
    | some (b, CI) ↦ is_inst (get_elem? (call_args CI) index)
  ]
]

-- The slice of a refused call site has used up its types too.
unfoldable pub types_after : Module → Site → ℕ → ℕ → ℕ
types_after M s index n = if builds_slice M s index then suc (suc n) else n

-- `lazifyCallsite`
unfoldable pub lazify_callsite : Llvm → Bool → Site → ℕ → Driver → Bool × Driver
lazify_callsite L memo s index d = elim (check L d.program s index) [
  | none ↦ (false, record d { next_type = types_after d.program s index d.next_type })
  | some l ↦ (true, lazify L memo s index l d)
]

-- The arithmetic of `double`, and `WyvernPGOThreshold`.
pub record Doubles : Type 1 where
  pub Double : Type 0
  pub of_u64 : ℕ → Double
  pub divide : Double → Double → Double
  pub less : Double → Double → Bool
  pub threshold : Double

-- `evalRate`
unfoldable pub eval_rate : (D : Doubles) → ℕ → ℕ → D.Double
eval_rate D unique_evals num_calls = D.divide (D.of_u64 unique_evals) (D.of_u64 num_calls)

-- `shouldLazifyCallsitePGO`
unfoldable pub should_lazify : Doubles → List (ℕ × Row) → ℕ → ℕ → Bool
should_lazify D profile address arg_idx = elim (Map.find address profile) [
  | none ↦ false
  | some row ↦ elim (get_elem? row.unique_evals arg_idx) [
    | none ↦ false
    | some evals ↦ D.less (eval_rate D (to_u64 evals) row.num_calls) D.threshold
  ]
]
