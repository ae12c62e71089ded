-- ===== src/ProgramSlice/Control/Examples.antt =====
-- The slice of passes/ProgramSlice.cpp on a diamond: block 0 branches to the blocks 1 and 2, and the
-- phi node of block 3 joins them.
use wyvern.Base.{
  ℕ, zero, suc, ◌≡◌, ◌<◌, refl, subst, not, false, ◌||◌, List, [], ◌∷◌, Option, none, some, arith,
  ◌==◌, if◌then◌else◌, get_elem?,
}
use wyvern.Base.Map.{nat_order}
use wyvern.Ir.{Value, inst, argument, constant, phi, ret, branch, other, Instruction, Function}
use wyvern.ProgramSlice.Dependences.{value_order, as_instruction, find_from, find_in}
use wyvern.ProgramSlice.Control.{
  DomTree, get_controller, compute_attractor_blocks, compute_gates, climb, climb_from, gates_from,
  block_gates, pred_gates, pred_gate, get_gate, gate_of, gate_in,
}
use wyvern.ProgramSlice.Control.Nearest.{
  Climbs, Attracts, get_controller_lem, compute_attractor_blocks_lem,
}
use wyvern.ProgramSlice.Control.Terminators.{IsAddressed}

abbrev pub diamond : Function
diamond = record {
  arg_types = 32 ∷ 32 ∷ [];
  is_var_arg = false;
  blocks =
      (record { id = 1; opcode = other; operands = argument 0 ∷ constant 0 ∷ [] }
        ∷ record { id = 2; opcode = branch (1 ∷ 2 ∷ []); operands = inst 1 ∷ [] }
        ∷ [])
      ∷ (record { id = 3; opcode = other; operands = argument 1 ∷ [] }
          ∷ record { id = 4; opcode = branch (3 ∷ []); operands = [] }
          ∷ [])
      ∷ (record { id = 5; opcode = branch (3 ∷ []); operands = [] } ∷ [])
      ∷ (record { id = 6; opcode = phi (1 ∷ 2 ∷ []); operands = inst 3 ∷ constant 7 ∷ [] }
          ∷ record { id = 7; opcode = ret; operands = inst 6 ∷ [] }
          ∷ [])
      ∷ [];
}

abbrev pub flat_idom : ℕ → ℕ → Option ℕ
flat_idom root b = if b == root then none else some root

pub flat-idom_lower :
    (root b d : ℕ)
    → flat_idom root b ≡ some d
    → (if d == root then 0 else 1) < (if b == root then 0 else 1)
flat-idom_lower root b d e = ground arith

-- The tree in which every block but the root is right below it.
abbrev pub flat : ℕ → DomTree
flat root = record {
  idom = flat_idom root;
  level = λ b. if b == root then 0 else 1;
  dominates = λ a b. a == b || a == root;
  idom_lower = flat-idom_lower root;
}

abbrev pub diamond_preds : ℕ → List ℕ
diamond_preds b = if b == 3 then 1 ∷ 2 ∷ [] else if b == 0 then [] else 0 ∷ []

abbrev pub diamond_gates : List (List (Option Value))
diamond_gates = compute_gates diamond (flat 0) (flat 3) diamond_preds

-- The phi node of block 3 is gated by the branch of block 0.
gates_run : diamond_gates ≡ [] ∷ [] ∷ [] ∷ (some (inst 2) ∷ some (inst 2) ∷ []) ∷ []
unfolding compute_gates climb climb_from gates_from block_gates pred_gates pred_gate get_gate
    gate_of gate_in get_controller
gates_run = refl

move_address :
    (c : ℕ) (K I : Instruction)
    → some K ≡ some I
    → as_instruction diamond (inst K.id) ≡ some (c, K)
    → as_instruction diamond (inst I.id) ≡ some (c, I)
move_address c K I e at =
    let same : K ≡ I = cc e in
    subst (λ (J : Instruction). as_instruction diamond (inst J.id) ≡ some (c, J)) same at

pub diamond-IsAddressed : IsAddressed diamond
unfolding as_instruction find_from find_in
diamond-IsAddressed zero I e = (0, move_address _ _ I e refl)
diamond-IsAddressed (suc zero) I e = (1, move_address _ _ I e refl)
diamond-IsAddressed (suc (suc zero)) I e = (2, move_address _ _ I e refl)
diamond-IsAddressed (suc (suc (suc zero))) I e = (3, move_address _ _ I e refl)
diamond-IsAddressed (suc (suc (suc (suc b)))) I e = cc e

get_controller_lem_example :
    Climbs (flat 0) (λ d. not ((flat 3).dominates 1 d)) 1 (get_controller (flat 0) (flat 3) 1)
get_controller_lem_example = get_controller_lem (flat 0) (flat 3) 1

compute_attractor_blocks_lem_example :
    (r : Option ℕ) × (get_elem?
        (compute_attractor_blocks (flat 3) ((0, tt) ∷ (3, tt) ∷ []) diamond)
        1
      ≡ some r)
    × Attracts (flat 3) ((0, tt) ∷ (3, tt) ∷ []) 1 r
compute_attractor_blocks_lem_example =
    compute_attractor_blocks_lem (flat 3) ((0, tt) ∷ (3, tt) ∷ []) diamond 1 (omega arith)
