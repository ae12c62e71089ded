-- ===== src/ProgramSlice/Delegate/Missing.antt =====
-- addMissingTerminators of passes/ProgramSlice.cpp, which the delegate's construction leaves out.
pub mod Laws
pub mod Examples
use wyvern.Base.{ℕ, List, [], ◌∷◌, ◌++◌, Option, none, some}
use wyvern.Ir.{Instruction, Function, block_at, last}
use wyvern.ProgramSlice.Delegate.{Clone, clone_of, Blocks}
use wyvern.ProgramSlice.Delegate.Reroute.{terminator}

module _ (F : Function) where
  -- One block, a copy of block b; `none` where that has no instruction to clone.
  unfoldable pub add_missing_terminator : ℕ → List Clone → Option (List Clone)
  add_missing_terminator b cs = elim (terminator cs) [
    | some _ ↦ some cs
    | none ↦ elim (last (block_at F b)) [ none ↦ none | some I ↦ some (cs ++ clone_of I ∷ []) ]
  ]

  -- `addMissingTerminators`
  unfoldable pub add_missing_terminators : Blocks → Option Blocks
  add_missing_terminators [] = some []
  add_missing_terminators ((b, cs) ∷ rest) = elim (add_missing_terminator b cs) [
    | none ↦ none
    | some cs' ↦ elim (add_missing_terminators rest) [
      | none ↦ none
      | some rest' ↦ some ((b, cs') ∷ rest')
    ]
  ]
