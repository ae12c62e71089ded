-- ===== src/ProgramSlice/Control/Terminators.antt =====
-- The gates of `computeGates`, passes/ProgramSlice.cpp, are terminators, so the worklist of the
-- dependences ends with them.
use wyvern.Base.{
  ℕ, suc, ◌≡◌, refl, ◌↔◌, true, not, ◌&&◌, List, [], ◌∷◌, Option, none, some, length, Bool-cases,
  Option-cases, inl, inr, All, All-append, ltb,
}
use wyvern.Base.Map.{contains, nat_order}
use wyvern.Ir.{Value, inst, Opcode, branch, switch, Instruction, Block, Function, block_at, last}
use wyvern.ProgramSlice.Dependences.{value_order, as_instruction, Gates, Search}
use wyvern.ProgramSlice.Dependences.Closure.{Depends}
use wyvern.ProgramSlice.Dependences.Work.{IsScoped, IsGate, weight_plain}
use wyvern.ProgramSlice.Dependences.Blocks.{IsBlockOf}
use wyvern.ProgramSlice.Dependences.Criterion.{
  get_data_dependences_for, get_data_dependences_for_lem,
}
use wyvern.ProgramSlice.Control.{
  DomTree, get_controller, gate_in, gate_of, get_gate, pred_gate, pred_gates, block_gates,
  gates_from, compute_gates,
}

-- The address of a block's last instruction is that instruction's alone.
abbrev pub IsAddressed : Function → Type 0
IsAddressed F =
    (b : ℕ) (I : Instruction)
    → last (block_at F b) ≡ some I
    → (c : ℕ) × (as_instruction F (inst I.id) ≡ some (c, I))

module _ (F : Function) (gates : Gates) (addressed : IsAddressed F) where
  gate_in-IsGate :
      (b : ℕ) (I : Instruction) (o : Opcode)
      → last (block_at F b) ≡ some I
      → I.opcode ≡ o
      → IsGate F gates (gate_in I.id o)
  unfolding gate_in
  gate_in-IsGate b I (branch bs) e op =
      let (c, at) = addressed b I e in weight_plain F gates (inst I.id) c I at (rw op)
  gate_in-IsGate b I (switch bs) e op =
      let (c, at) = addressed b I e in weight_plain F gates (inst I.id) c I at (rw op)
  gate_in-IsGate b I _ e op = tt

  gate_of-IsGate :
      (b : ℕ) (o : Option Instruction) → last (block_at F b) ≡ o → IsGate F gates (gate_of o)
  unfolding gate_of
  gate_of-IsGate b none e = tt
  gate_of-IsGate b (some I) e = gate_in-IsGate b I I.opcode e refl

  get_gate-IsGate : (b : ℕ) → IsGate F gates (get_gate F b)
  unfolding get_gate
  get_gate-IsGate b = gate_of-IsGate b (last (block_at F b)) refl

  module _ (DT PDT : DomTree) (preds : ℕ → List ℕ) where
    pred_gate-IsGate : (BB pred : ℕ) → All (IsGate F gates) (pred_gate F DT PDT preds BB pred)
    unfolding pred_gate
    pred_gate-IsGate BB pred =
        elim (Bool-cases (DT.dominates pred BB && not (PDT.dominates BB pred))) [
          | inl direct ↦ rw (direct, pred_gate) (get_gate-IsGate pred, tt)
          | inr far ↦ elim (Option-cases (get_controller DT PDT pred)) [
            | inl no_control ↦ rw (far, pred_gate, no_control) tt
            | inr (ctrl, e) ↦ rw (far, pred_gate, e) (get_gate-IsGate ctrl, tt)
          ]
        ]

    pred_gates-IsGate :
        (BB : ℕ) (ps : List ℕ) → All (IsGate F gates) (pred_gates F DT PDT preds BB ps)
    unfolding pred_gates
    pred_gates-IsGate BB [] = tt
    pred_gates-IsGate BB (p ∷ ps) =
        All-append (IsGate F gates) (pred_gate F DT PDT preds BB p)
          (pred_gates F DT PDT preds BB ps) (pred_gate-IsGate BB p) (pred_gates-IsGate BB ps)

    block_gates-IsGate : (BB : ℕ) → All (IsGate F gates) (block_gates F DT PDT preds BB)
    unfolding block_gates
    block_gates-IsGate BB = elim (Bool-cases (ltb 1 (length (preds BB)))) [
      | inl many ↦ rw (many, block_gates) (pred_gates-IsGate BB (preds BB))
      | inr few ↦ rw (few, block_gates) tt
    ]

    gates_from-IsGate :
        (BB : ℕ) (blocks : List Block)
        → All (All (IsGate F gates)) (gates_from F DT PDT preds BB blocks)
    unfolding gates_from
    gates_from-IsGate BB [] = tt
    gates_from-IsGate BB (_ ∷ rest) = (block_gates-IsGate BB, gates_from-IsGate (suc BB) rest)

-- With the gates of `computeGates` the worklist empties, for every criterion, and returns exactly
-- what the criterion depends on through operands and gates, and the blocks of those instructions
-- with the incoming blocks of the phi nodes among them.
pub slice_terminates :
    (F : Function) (DT PDT : DomTree) (preds : ℕ → List ℕ) (I : Value)
    → IsScoped F (compute_gates F DT PDT preds)
    → IsAddressed F
    → let gates = compute_gates F DT PDT preds in
      (t : Search) × (get_data_dependences_for F gates I ≡ some t)
      × ((v : Value) → (contains v t.deps ≡ true) ↔ Depends F gates I v)
      × ((c : ℕ)
          → (contains c t.bbs ≡ true) ↔ ((v : Value) × Depends F gates I v × IsBlockOf F v c))
slice_terminates F DT PDT preds I scoped addressed =
    get_data_dependences_for_lem F (compute_gates F DT PDT preds) I scoped (
      unfold compute_gates in
      gates_from-IsGate F (compute_gates F DT PDT preds) addressed DT PDT preds 0 F.blocks)
