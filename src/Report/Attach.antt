-- ===== src/Report/Attach.antt =====
-- The numbers of instructions: `computeInstrIDs` of passes/Instrumentation.cpp, whose numbers the
-- profile is kept under, and the last loop of `loadProfileInfo`, passes/Lazyfication.cpp, which
-- counts again to attach the rows of the report to calls. A function has fewer than 2 ^ 32
-- instructions, so the counters of both do not wrap.
pub mod Agreement
pub mod Examples
use wyvern.Base.{
  ℕ, zero, suc, ◌≡◌, Bool, true, false, ◌&&◌, List, [], ◌∷◌, ◌++◌, Option, none, some, ◌==◌,
  if◌then◌else◌,
}
use wyvern.Base.Map
use wyvern.Base.Map.{nat_order}
use wyvern.Ir.{Opcode, call, Instruction, Block, Function}
use wyvern.Report.{Text, Row}

-- `inst_begin(F)` to `inst_end(F)`
unfoldable pub instructions : List Block → List Instruction
instructions [] = []
instructions (BB ∷ rest) = BB ++ instructions rest

-- A loop over instructions with a counter.
unfoldable pub count_instructions {ℓ} :
    {V : Type ℓ}
    → (ℕ → Instruction → List (ℕ × V) → List (ℕ × V))
    → ℕ
    → List Instruction
    → List (ℕ × V)
    → List (ℕ × V)
count_instructions body id [] m = m
count_instructions body id (I ∷ rest) m = count_instructions body (suc id) rest (body id I m)

-- `instr_ids[&*I] = instr_id`
unfoldable pub set_id : ℕ → Instruction → List (ℕ × ℕ) → List (ℕ × ℕ)
set_id id I m = Map.assign I.id id m

-- `computeInstrIDs`
unfoldable pub compute_instr_ids : Function → List (ℕ × ℕ)
compute_instr_ids F = count_instructions set_id 0 (instructions F.blocks) []

unfoldable pub same_text : Text → Text → Bool
same_text [] [] = true
same_text (a ∷ cs) (b ∷ bs) = a == b && same_text cs bs
same_text _ _ = false

-- `rawProfInfo[name][id]`, to which each row with that name and number was assigned in turn.
unfoldable pub raw_row : List Row → Text → ℕ → Option Row
raw_row [] name id = none
raw_row (row ∷ rest) name id = elim (raw_row rest name id) [
  | some later ↦ some later
  | none ↦ if same_text row.caller_name name && row.inst_id == id then some row else none
]

abbrev pub is_call : Opcode → Bool
is_call (call _) = true
is_call _ = false

-- `if (prof_infos.count(inst_id)) profileInfo[CB] = …`
unfoldable pub attach_row : (ℕ → Option Row) → ℕ → Instruction → List (ℕ × Row) → List (ℕ × Row)
attach_row prof_infos id I m = elim (is_call I.opcode) [
  | true ↦ elim (prof_infos id) [ some row ↦ Map.assign I.id row m | none ↦ m ]
  | false ↦ m
]

-- The loop over the instructions of one function of the report.
unfoldable pub attach : List Row → Text → Function → List (ℕ × Row) → List (ℕ × Row)
attach rows name F m =
    count_instructions (attach_row (raw_row rows name)) 0 (instructions F.blocks) m
