-- ===== src/ProgramSlice/Control.antt =====
-- The control part of the slice, passes/ProgramSlice.cpp: `getController`, `getGate`, `computeGates`
-- and `computeAttractorBlocks`.
pub mod Nearest
pub mod Terminators
pub mod Examples
use wyvern.Base.{
  ℕ, zero, suc, ◌+◌, ◌<◌, ◌≡◌, Bool, true, false, not, ◌&&◌, List, [], ◌∷◌, ◌++◌, Option, none,
  some, length, ltb,
}
use wyvern.Base.Map.{Set, contains, nat_order}
use wyvern.Ir.{Value, inst, Opcode, branch, switch, Instruction, Block, Function, block_at, last}
use wyvern.ProgramSlice.Dependences.{Gates}

-- LLVM's (post-)dominator tree of a function, as the code reads it: the node above a block's node,
-- none at the root; and the depth of a node, which `getIDom` lowers. The virtual root of a
-- post-dominator tree is a number that is no block's.
pub record DomTree : Type 0 where
  pub idom : ℕ → Option ℕ
  pub level : ℕ → ℕ
  pub dominates : ℕ → ℕ → Bool
  pub idom_lower : (b d : ℕ) → idom b ≡ some d → level d < level b

module _ (T : DomTree) (test : ℕ → Bool) where
  -- `while (node) { if (test(node)) break; node = node->getIDom(); }`
  pub climb : ℕ → Option ℕ → Option ℕ
  climb fuel none = none
  climb zero (some b) = none
  climb (suc fuel) (some b) = elim (test b) [ true ↦ some b | false ↦ climb fuel (T.idom b) ]

  -- There are no more nodes above one than its depth.
  pub climb_from : ℕ → Option ℕ
  climb_from b = climb (suc (T.level b)) (some b)

-- `getController`: the first dominator of `BB`, itself included, that `BB` does not post-dominate.
pub get_controller : DomTree → DomTree → ℕ → Option ℕ
get_controller DT PDT BB = climb_from DT (λ d. not (PDT.dominates BB d)) BB

-- `getGate`: the terminator, if it is a branch or a switch. For another terminator the code returns
-- an uninitialised pointer.
pub gate_in : ℕ → Opcode → Option Value
gate_in a (branch _) = some (inst a)
gate_in a (switch _) = some (inst a)
gate_in a _ = none

pub gate_of : Option Instruction → Option Value
gate_of none = none
gate_of (some I) = gate_in I.id I.opcode

pub get_gate : Function → ℕ → Option Value
get_gate F b = gate_of (last (block_at F b))

module _ (F : Function) (DT PDT : DomTree) (preds : ℕ → List ℕ) where
  -- The gate that a predecessor contributes, if any.
  pub pred_gate : ℕ → ℕ → List (Option Value)
  pred_gate BB pred = elim (DT.dominates pred BB && not (PDT.dominates BB pred)) [
    | true ↦ get_gate F pred ∷ []
    | false ↦ elim (get_controller DT PDT pred) [ none ↦ [] | some ctrl ↦ get_gate F ctrl ∷ [] ]
  ]

  pub pred_gates : ℕ → List ℕ → List (Option Value)
  pred_gates BB [] = []
  pred_gates BB (p ∷ ps) = pred_gate BB p ++ pred_gates BB ps

  pub block_gates : ℕ → List (Option Value)
  block_gates BB = elim (ltb 1 (length (preds BB))) [ true ↦ pred_gates BB (preds BB) | false ↦ [] ]

  pub gates_from : ℕ → List Block → Gates
  gates_from BB [] = []
  gates_from BB (_ ∷ rest) = block_gates BB ∷ gates_from (suc BB) rest

  -- `computeGates`
  pub compute_gates : Gates
  compute_gates = gates_from 0 F.blocks

module _ (PDT : DomTree) (bbs : Set ℕ) where
  -- The attractor of one block: itself in the slice, else the first block of the slice above it.
  pub attractor : ℕ → Option ℕ
  attractor BB = elim (contains BB bbs) [
    | true ↦ some BB
    | false ↦ climb PDT (λ b. contains b bbs) (PDT.level BB) (PDT.idom BB)
  ]

  pub attractors_from : ℕ → List Block → List (Option ℕ)
  attractors_from BB [] = []
  attractors_from BB (_ ∷ rest) = attractor BB ∷ attractors_from (suc BB) rest

-- `computeAttractorBlocks`, an entry for each block.
pub compute_attractor_blocks : DomTree → Set ℕ → Function → List (Option ℕ)
compute_attractor_blocks PDT bbs F = attractors_from PDT bbs 0 F.blocks
