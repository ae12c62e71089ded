-- ===== src/ProgramSlice/Delegate/Missing/Examples.antt =====
-- The blocks of a diamond's delegate before they are rerouted.
use wyvern.Base.{ℕ, ◌≡◌, refl, [], ◌∷◌, some}
use wyvern.Ir.{Opcode, Instruction}
use wyvern.ProgramSlice.Control.Examples.{diamond}
use wyvern.ProgramSlice.Delegate.{Blocks}
use wyvern.ProgramSlice.Delegate.Missing.{add_missing_terminators}
use wyvern.ProgramSlice.Delegate.Missing.Laws.{AllCompletes, add_missing_terminators_lem}

abbrev open_blocks : Blocks
open_blocks = (1, []) ∷ (2, []) ∷ []

abbrev jump : ℕ → Instruction
jump a = record { id = a; opcode = Opcode.branch (3 ∷ []); operands = [] }

add_missing_terminators_lem_example :
    (Bs' : Blocks) × (add_missing_terminators diamond open_blocks ≡ some Bs')
    × AllCompletes diamond open_blocks Bs'
add_missing_terminators_lem_example =
    add_missing_terminators_lem diamond open_blocks
      ((jump 4, refl, refl), ((jump 5, refl, refl), tt))
