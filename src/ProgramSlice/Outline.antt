-- ===== src/ProgramSlice/Outline.antt =====
-- The constructor of the slice and `canOutline`, passes/ProgramSlice.cpp. LLVM's intrinsics for
-- memset and memcpy are calls, so the branches of `canOutline` behind the one for calls are for none.
pub mod Safety
pub mod Contents
pub mod Examples
use wyvern.Base.{
  ℕ, ◌≡◌, Bool, true, false, not, ◌&&◌, ◌||◌, List, [], ◌∷◌, ◌++◌, Option, none, some, ltb, leb,
  ◌==◌, if◌then◌else◌, any, get_or,
}
use wyvern.Base.Map.{Set}
use wyvern.Ir.{
  Value, inst, argument, constant, Callee, Opcode, phi, call, store, load, alloca, Instruction,
  Block, Function, Module, block_at, last, same_value, callee_body, call_args,
}
use wyvern.ProgramSlice.Dependences.{as_instruction, Search}
use wyvern.ProgramSlice.Dependences.Criterion.{get_data_dependences_for}
use wyvern.ProgramSlice.Control.{DomTree, compute_gates}

-- What LLVM's analyses tell of the function, its instructions and its callees.
pub record Analyses : Type 0 where
  -- The alias set of the location that a load reads, in a tracker of the listed instructions.
  pub is_mod : List ℕ → ℕ → Bool
  pub underlying_object : Value → Value
  pub may_throw : Instruction → Bool
  pub may_read_or_write : Instruction → Bool
  pub will_return : Instruction → Bool
  pub is_lib_fun : Instruction → Bool
  pub only_reads_memory : Callee → Bool
  pub is_pointer : Value → Bool
  pub no_alias : Value → Value → Bool
  pub loop_depth : ℕ → ℕ

-- The member variables: the instructions, the arguments and the blocks of the slice.
pub record Slice : Type 0 where
  pub insts : List Instruction
  pub dep_args : List ℕ
  pub bbs : Set ℕ

-- The constructor's split of the values into instructions and arguments.
pub insts_of : Function → Set Value → List Instruction
insts_of F [] = []
insts_of F ((v, _) ∷ rest) = elim (as_instruction F v) [
  | some (b, I) ↦ I ∷ insts_of F rest
  | none ↦ insts_of F rest
]

pub args_of : Set Value → List ℕ
args_of [] = []
args_of ((argument i, _) ∷ rest) = i ∷ args_of rest
args_of (_ ∷ rest) = args_of rest

pub slice_of : Function → Search → Slice
slice_of F t = record { insts = insts_of F t.deps; dep_args = args_of t.deps; bbs = t.bbs }

-- The constructor, up to the thunk types and the attractors.
pub new_slice : Function → DomTree → DomTree → (ℕ → List ℕ) → Value → Option Slice
new_slice F DT PDT preds I = elim (get_data_dependences_for F (compute_gates F DT PDT preds) I) [
  | none ↦ none
  | some t ↦ some (slice_of F t)
]

-- The instructions that the alias sets are built from.
pub is_tracked : ℕ → ℕ → Opcode → Bool
is_tracked site a store = true
is_tracked site a load = true
is_tracked site a (call _) = not (a == site)
is_tracked site a _ = false

pub tracked_in : ℕ → Block → List ℕ
tracked_in site [] = []
tracked_in site (I ∷ rest) =
    if is_tracked site I.id I.opcode then I.id ∷ tracked_in site rest else tracked_in site rest

pub tracked : ℕ → List Block → List ℕ
tracked site [] = []
tracked site (BB ∷ rest) = tracked_in site BB ++ tracked site rest

abbrev pub is_alloca : Opcode → Bool
is_alloca alloca = true
is_alloca _ = false

-- `allocasInSlice.contains(V)`
pub is_slice_alloca : Slice → Value → Bool
is_slice_alloca S v = any (λ I. is_alloca I.opcode && same_value (inst I.id) v) S.insts

-- `CS` is the call, in block `site_block`; `initial` is the criterion.
module _ (A : Analyses) (M : Module) (F : Function) (CS : Instruction) (site_block : ℕ)
    (initial : Instruction) (S : Slice) where
  pub load_is_mod : Instruction → Bool
  load_is_mod I = A.is_mod (tracked CS.id F.blocks) I.id

  -- The loop over the function's instructions: an alloca of the slice is written.
  pub clobbers_at : Instruction → Opcode → Bool
  clobbers_at I store = is_slice_alloca S (A.underlying_object (get_or I.operands 1 (constant 0)))
  clobbers_at I load =
      load_is_mod I && is_slice_alloca S (A.underlying_object (get_or I.operands 0 (constant 0)))
  clobbers_at I _ = false

  pub clobbers : Instruction → Bool
  clobbers I = clobbers_at I I.opcode

  -- The call goes to a function that is not known, or that has no body and is no library function.
  pub calls_unknown : Instruction → Opcode → Bool
  calls_unknown I (call none) = true
  calls_unknown I (call (some c)) = elim (callee_body M c) [
    | none ↦ not (A.is_lib_fun I)
    | some _ ↦ false
  ]
  calls_unknown I _ = false

  -- What may read or write memory must be a load that nothing modifies or a call that only reads.
  pub bad_access : Instruction → Opcode → Bool
  bad_access I load = load_is_mod I
  bad_access I (call (some c)) = not (A.only_reads_memory c)
  bad_access I _ = true

  pub bad_memory : Instruction → Bool
  bad_memory I = elim (A.may_read_or_write I) [
    | true ↦ bad_access I I.opcode
    | false ↦ not (A.will_return I)
  ]

  pub bad_pointer : Instruction → Value → Bool
  bad_pointer I arg =
      not (same_value arg (inst initial.id))
      && (A.is_pointer arg && A.is_pointer (inst I.id))
      && not (A.no_alias arg (inst I.id))

  -- The loop over the slice's instructions.
  pub refuses : Instruction → Bool
  refuses I =
      A.may_throw I
      || calls_unknown I I.opcode
      || bad_memory I
      || any (bad_pointer I) (call_args CS)

  pub shallow : ℕ × Unit {0} → Bool
  shallow (b, _) = leb (A.loop_depth b) (A.loop_depth site_block)

  -- `_instsInSlice.count(BB->getTerminator())`
  pub has_terminator : ℕ → Bool
  has_terminator b = elim (last (block_at F b)) [
    | none ↦ false
    | some T ↦ any (λ I. I.id == T.id) S.insts
  ]

  pub bad_criterion : Opcode → Bool
  bad_criterion alloca = true
  bad_criterion (phi (b ∷ [])) = not (has_terminator b)
  bad_criterion _ = false

  -- `canOutline`: each of the tests returns false at once.
  pub can_outline : Bool
  can_outline = not (
      any (any clobbers) F.blocks
      || any refuses S.insts
      || (ltb 0 (A.loop_depth site_block) && any shallow S.bbs)
      || bad_criterion initial.opcode)
