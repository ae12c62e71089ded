-- ===== src/Ir.antt =====
-- What the passes read of the LLVM module that they are given. LLVM itself is not part of the
-- repository: its functions, blocks and instructions are the data below, with the fields that the
-- code looks at, and its analyses (dominators, alias sets, …) are parameters where they are used.
-- A `BasicBlock *` is the block's position in its function, and an `Instruction *` is `id`.
use mathlib.Core.List.Memᴰ
use wyvern.Base.{
  ℕ, zero, suc, All, All-mem, ◌<◌, Bool, true, false, List, [], ◌∷◌, Memᴰ, Option, none, some, ◌==◌,
  get_or, get_elem?, if◌then◌else◌, length,
}

-- What an operand can be. `constant` stands for every value that is neither of the other two.
pub data Value : Type 0 where
  inst : ℕ → Value
  argument : ℕ → Value
  constant : ℕ → Value

-- A callee: a function of the module by its position, or one of the dummy functions of
-- `getDummyFunctionForType`, by the type that it takes.
pub data Callee : Type 0 where
  function : ℕ → Callee
  dummy_fun : ℕ → Callee

-- `call` is a CallInst, those of intrinsics such as memset included; the functions have no invokes.
pub data Opcode : Type 0 where
  phi : List ℕ → Opcode
  ret : Opcode
  branch : List ℕ → Opcode
  switch : List ℕ → Opcode
  call : Option Callee → Opcode
  store load alloca : Opcode
  other : Opcode

-- The operands of a phi node match its incoming blocks. Those of a call are its arguments, and behind
-- them the pointer that is called where it is no function of the module's (`call none`): a direct call
-- has no operand for the function.
pub record Instruction : Type 0 where
  pub id : ℕ
  pub opcode : Opcode
  pub operands : List Value

abbrev pub without_last {ℓ} : {A : Type ℓ} → List A → List A
without_last [] = []
without_last (v ∷ []) = []
without_last (v ∷ w ∷ vs) = v ∷ without_last (w ∷ vs)

-- `CI.args()`
abbrev pub call_args : Instruction → List Value
call_args I = elim I.opcode [ call none ↦ without_last I.operands | _ ↦ I.operands ]

abbrev pub Block : Type 0
Block = List Instruction

pub record Function : Type 0 where
  pub arg_types : List ℕ
  pub is_var_arg : Bool
  pub blocks : List Block

abbrev pub Module : Type 0
Module = List Function

-- A declaration has no body.
abbrev pub is_declaration : Function → Bool
is_declaration F = elim F.blocks [ [] ↦ true | _ ∷ _ ↦ false ]

-- The position of a callee that has a body. A dummy function is a declaration.
abbrev pub callee_body : Module → Callee → Option ℕ
callee_body M (dummy_fun t) = none
callee_body M (function g) = elim (get_elem? M g) [
  | none ↦ none
  | some G ↦ if is_declaration G then none else some g
]

abbrev pub block_at : Function → ℕ → Block
block_at F b = get_or F.blocks b []

-- `BB->getTerminator()` reads the last instruction.
abbrev pub last : Block → Option Instruction
last [] = none
last (I ∷ []) = some I
last (I ∷ I' ∷ rest) = last (I' ∷ rest)

abbrev pub targets : Option Instruction → List ℕ
targets none = []
targets (some I) = elim I.opcode [ branch bs ↦ bs | switch bs ↦ bs | _ ↦ [] ]

-- `successors(BB)`
unfoldable pub successors : Function → ℕ → List ℕ
successors F b = targets (last (block_at F b))

abbrev pub same_value : Value → Value → Bool
same_value (inst a) (inst b) = a == b
same_value (argument a) (argument b) = a == b
same_value (constant a) (constant b) = a == b
same_value _ _ = false

abbrev pub is_phi : Instruction → Bool
is_phi I = elim I.opcode [ phi _ ↦ true | _ ↦ false ]

abbrev pub is_return : Instruction → Bool
is_return I = elim I.opcode [ ret ↦ true | _ ↦ false ]

-- Every successor is a block of the function.
abbrev pub IsClosed : Function → Type 0
IsClosed F = All (λ BB. All (λ s. s < length F.blocks) (targets (last BB))) F.blocks

targets-lt :
    (n : ℕ) (blocks : List Block) (b s : ℕ)
    → All (λ BB. All (λ t. t < n) (targets (last BB))) blocks
    → Memᴰ s (targets (last (get_or blocks b [])))
    → s < n
targets-lt n [] b s h m = absurd (Memᴰ.not-nil m)
targets-lt n (BB ∷ rest) zero s h m = All-mem (λ t. t < n) s (targets (last BB)) h.0 m
targets-lt n (BB ∷ rest) (suc b) s h m = targets-lt n rest b s h.1 m

pub successors-lt :
    (F : Function) (b s : ℕ) → IsClosed F → Memᴰ s (successors F b) → s < length F.blocks
unfolding successors
successors-lt F b s h m = targets-lt (length F.blocks) F.blocks b s h m
