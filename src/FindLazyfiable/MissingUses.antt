-- ===== src/FindLazyfiable/MissingUses.antt =====
-- `addMissingUses` and `removeDummyFunctions` of passes/FindLazyfiable.cpp. A phi node uses its
-- operand at the end of the incoming block; while the search runs, a call of a dummy function
-- stands there for the use.
pub mod Uses
pub mod Removal
use wyvern.Base.{
  ℕ, zero, suc, ◌≡◌, Bool, true, false, not, ◌&&◌, ◌||◌, List, [], ◌∷◌, ◌++◌, Option, none, some,
  ◌==◌, length, any, if◌then◌else◌, map, get_or,
}
use wyvern.Base.Map.{Set, contains, add, nat_order}
use wyvern.Ir.{
  Value, inst, argument, constant, Callee, function, dummy_fun, Opcode, phi, call, Instruction,
  Block, Function, Module,
}

-- The operands of a phi node that are arguments, each with the block it comes from.
unfoldable pub argument_edges : List Value → List ℕ → List (ℕ × ℕ)
argument_edges (v ∷ vs) (b ∷ bs) = elim v [
  | argument i ↦ (b, i) ∷ argument_edges vs bs
  | _ ↦ argument_edges vs bs
]
argument_edges _ _ = []

-- The uses to add for a block's phi nodes. The added calls are no phi nodes, so the walk over the
-- instructions meets the same ones whether or not a call was put before it.
unfoldable pub phi_uses : Block → List (ℕ × ℕ)
phi_uses [] = []
phi_uses (I ∷ rest) = elim I.opcode [
  | phi bs ↦ argument_edges I.operands bs ++ phi_uses rest
  | _ ↦ phi_uses rest
]

unfoldable pub missing_uses : List Block → List (ℕ × ℕ)
missing_uses [] = []
missing_uses (BB ∷ rest) = phi_uses BB ++ missing_uses rest

-- `IRBuilder(incBlock, --incBlock->end())`: in front of the last instruction.
unfoldable pub insert_before_last : Instruction → Block → Block
insert_before_last C [] = []
insert_before_last C (I ∷ []) = C ∷ I ∷ []
insert_before_last C (I ∷ I' ∷ rest) = I ∷ insert_before_last C (I' ∷ rest)

unfoldable pub insert_at : ℕ → Instruction → List Block → List Block
insert_at b C [] = []
insert_at zero C (BB ∷ rest) = insert_before_last C BB ∷ rest
insert_at (suc b) C (BB ∷ rest) = BB ∷ insert_at b C rest

-- `fresh` is the address of a new call, which nothing reads.
module _ (fresh : ℕ) where
  unfoldable pub dummy_call : List ℕ → ℕ → Instruction
  dummy_call types i = record {
    id = fresh;
    opcode = call (some (dummy_fun (get_or types i 0)));
    operands = argument i ∷ [];
  }

  unfoldable pub add_uses : List ℕ → List (ℕ × ℕ) → List Block → List Block
  add_uses types [] blocks = blocks
  add_uses types ((b, i) ∷ uses) blocks =
      add_uses types uses (insert_at b (dummy_call types i) blocks)

  unfoldable pub add_missing_uses_in : Function → Function
  add_missing_uses_in F = record F {
    blocks = add_uses F.arg_types (missing_uses F.blocks) F.blocks;
  }

  unfoldable pub add_missing_uses : Module → Module
  add_missing_uses M = map add_missing_uses_in M

-- The dummy functions that were made for a function's uses, by type.
unfoldable pub dummies_of : List ℕ → List (ℕ × ℕ) → Set ℕ → Set ℕ
dummies_of types [] D = D
dummies_of types ((b, i) ∷ uses) D = dummies_of types uses (add (get_or types i 0) D)

unfoldable pub dummy_functions : Module → Set ℕ → Set ℕ
dummy_functions [] D = D
dummy_functions (F ∷ M) D = dummy_functions M (dummies_of F.arg_types (missing_uses F.blocks) D)

unfoldable pub calls_dummy : Set ℕ → Instruction → Bool
calls_dummy D I = elim I.opcode [ call (some (dummy_fun t)) ↦ contains t D | _ ↦ false ]

-- Whether a dummy function has a user left.
unfoldable pub has_users : Set ℕ → Module → Bool
has_users D M = any (λ (F : Function). any (any (calls_dummy D)) F.blocks) M

-- `removeDummyFunctions`. The loop over the users of a function erases the user that its iterator
-- stands on, and then reads the next one out of the freed use: `none` where there is a user at all.
-- The functions themselves are not part of the model's module.
unfoldable pub remove_dummy_functions : Set ℕ → Module → Option Module
remove_dummy_functions D M = if has_users D M then none else some M
