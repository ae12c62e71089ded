-- ===== src/ProgramSlice/Delegate/Missing/Laws.antt =====
-- What addMissingTerminators, passes/ProgramSlice.cpp, adds.
use wyvern.Base.{
  ℕ, ◌≡◌, refl, ◌∙◌, true, false, List, [], ◌∷◌, ◌++◌, Option, none, some, All, Option-cases, inl,
  inr,
}
use wyvern.Ir.{Instruction, Function, block_at, last}
use wyvern.ProgramSlice.Delegate.{Kind, Clone, clone_kind, clone_of, Blocks}
use wyvern.ProgramSlice.Delegate.Reroute.{is_terminator, terminator}
use wyvern.ProgramSlice.Delegate.Reroute.Edits.{terminator_snoc}
use wyvern.ProgramSlice.Delegate.Missing.{add_missing_terminator, add_missing_terminators}

-- The block of the sliced function ends with a terminator.
abbrev pub IsEnded : Function → ℕ × List Clone → Type 0
IsEnded F (b, cs) =
    (I : Instruction) × (last (block_at F b) ≡ some I)
    × (is_terminator (clone_kind I.opcode) ≡ true)

abbrev pub IsAdded : Function → ℕ → List Clone → List Clone → Option Kind → Type 0
IsAdded F b cs cs' (some k) = cs' ≡ cs
IsAdded F b cs cs' none =
    (I : Instruction) × (last (block_at F b) ≡ some I) × (cs' ≡ cs ++ clone_of I ∷ [])

-- The block is as it was, where it had a terminator, and else ends with that of the sliced function.
abbrev pub Completes : Function → ℕ → List Clone → List Clone → Type 0
Completes F b cs cs' = (k : Kind) × (terminator cs' ≡ some k) × IsAdded F b cs cs' (terminator cs)

abbrev pub AllCompletes : Function → Blocks → Blocks → Type 0
AllCompletes F [] [] = Unit
AllCompletes F ((b, cs) ∷ Bs) ((b', cs') ∷ Bs') =
    (b ≡ b') × Completes F b cs cs' × AllCompletes F Bs Bs'
AllCompletes F _ _ = true ≡ false

one_completed :
    (F : Function) (b : ℕ) (cs : List Clone)
    → IsEnded F (b, cs)
    → (cs' : List Clone) × (add_missing_terminator F b cs ≡ some cs') × Completes F b cs cs'
unfolding add_missing_terminator clone_of
one_completed F b cs (I, at, ends) = elim (Option-cases (terminator cs)) [
  | inr (k, own) ↦ (cs, rw (own, add_missing_terminator) refl, (k, own, rw own refl))
  | inl bare ↦ (
    cs ++ clone_of I ∷ [],
    rw (bare, add_missing_terminator, at) refl,
    (clone_kind I.opcode, terminator_snoc (clone_of I) cs ∙ rw ends refl, rw bare (I, at, refl)),
  )
]

-- Where the blocks of the sliced function end with terminators: every block of the delegate gets one,
-- a clone of its original's if it had none, and nothing else changes.
pub add_missing_terminators_lem :
    (F : Function) (Bs : Blocks)
    → All (IsEnded F) Bs
    → (Bs' : Blocks) × (add_missing_terminators F Bs ≡ some Bs') × AllCompletes F Bs Bs'
unfolding add_missing_terminators
add_missing_terminators_lem F [] h = ([], refl, tt)
add_missing_terminators_lem F ((b, cs) ∷ Bs) (p, h) =
    let (cs', added, here) = one_completed F b cs p in
    let (Bs', rest, later) = add_missing_terminators_lem F Bs h in
    ((b, cs') ∷ Bs', rw (added, add_missing_terminators, rest) refl, (refl, here, later))
