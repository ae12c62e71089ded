-- ===== src/Lazyfication/Clone/Laws.antt =====
-- What cloneCalleeFunction and removeAttributesFromThunkArgument, passes/Lazyfication.cpp, make.

use wyvern.Base.{
  ℕ, zero, suc, ◌<◌, ◌≡◌, refl, ◌∙◌, true, false, List, [], ◌∷◌, some, arith, map, set, length,
  get_elem?, All, ◌==◌, lt→ltb, if◌then◌else◌,
}
use wyvern.Ir.{argument, Callee, Opcode, Instruction, Block, Function}
use wyvern.Lazyfication.Uses.{update_thunk_arg_uses}
use wyvern.Lazyfication.Uses.Replaced.{IsFree, update_thunk_arg_uses_lem}
use wyvern.Lazyfication.Uses.Kept.{heads, heads-update_thunk_arg_uses}
use wyvern.Lazyfication.Clone.{clone_instruction, clone_blocks, clone_callee_function}

pub get_elem?-set_at {ℓ} :
    {A : Type ℓ} (xs : List A) (i j : ℕ) (v : A)
    → i < length xs
    → get_elem? (set xs i v) j ≡ (if i == j then some v else get_elem? xs j)
get_elem?-set_at [] i j v h = absurd (omega arith)
get_elem?-set_at (x ∷ xs) zero zero v h = refl
get_elem?-set_at (x ∷ xs) zero (suc j) v h = ground arith
get_elem?-set_at (x ∷ xs) (suc i) zero v h = ground arith
get_elem?-set_at (x ∷ xs) (suc i) (suc j) v h =
    ground (arith, get_elem?-set_at xs i j v (omega arith))

module _ (address : ℕ → ℕ) (n : ℕ) where
  -- The copies are at addresses below n.
  abbrev pub IsBelow : Instruction → Type 0
  IsBelow I = address I.id < n

  abbrev pub head : Instruction → ℕ × Opcode
  head I = (address I.id, I.opcode)

  heads_below :
      (B : Block) → All IsBelow B → heads n (map (clone_instruction address) B) ≡ map head B
  unfolding clone_instruction
  heads_below [] h = refl
  heads_below (I ∷ B) (p, h) = rw (lt→ltb (address I.id) n p, heads_below B h) refl

  heads-clone_blocks :
      (Bs : List Block)
      → All (All IsBelow) Bs
      → map (heads n) (clone_blocks address Bs) ≡ map (map head) Bs
  unfolding clone_blocks
  heads-clone_blocks [] h = refl
  heads-clone_blocks (B ∷ Bs) (p, h) = rw (heads_below B p, heads-clone_blocks Bs h) refl

-- Where the copies of a callee's instructions are at addresses below n: the clone has a fixed number
-- of parameters, with the thunk's type at the lazified one and the callee's types at the others; its
-- blocks have the copies in the callee's order with the callee's opcodes, beside new instructions;
-- and no copy uses the lazified parameter.
pub clone_callee_function_lem :
    (address : ℕ → ℕ) (F : Function) (index : ℕ) (sliced_function : Callee) (thunk_pointer n : ℕ)
    → index < length F.arg_types
    → All (All (IsBelow address n)) F.blocks
    → (let clone = clone_callee_function address F index sliced_function thunk_pointer n in
        (clone.is_var_arg ≡ false)
        × ((j : ℕ)
            → get_elem? clone.arg_types j
              ≡ (if index == j then some thunk_pointer else get_elem? F.arg_types j))
        × (map (heads n) clone.blocks ≡ map (map (head address n)) F.blocks)
        × All (All (IsFree n (argument index))) clone.blocks)
unfolding clone_callee_function update_thunk_arg_uses
clone_callee_function_lem address F index d thunk_pointer n h below =
    let copied : Function = record {
      arg_types = set F.arg_types index thunk_pointer;
      is_var_arg = false;
      blocks = clone_blocks address F.blocks;
    } in
    (
      refl,
      λ j. get_elem?-set_at F.arg_types index j thunk_pointer h,
      heads-update_thunk_arg_uses true (argument index) d (argument index) n copied
          ∙ heads-clone_blocks address n F.blocks below,
      update_thunk_arg_uses_lem true (argument index) d (argument index) n copied tt,
    )
