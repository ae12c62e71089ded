-- ===== src/ProgramSlice/Dependences/Lookup.antt =====
-- Finding the instruction at an address, as `dyn_cast<Instruction>` and `getParent` do in
-- passes/ProgramSlice.cpp.

use wyvern.Base.{
  ℕ, suc, ◌≡◌, refl, sym, ap, ◌∙◌, inl, inr, true, false, ◌||◌, List, [], ◌∷◌, ◌++◌, Memᴰ, some,
  map, arith, ◌==◌, ==_iff, Bool-cases, Option-cases,
}
use wyvern.Ir.{Value, inst, argument, constant, Instruction, Block, Function, block_at, last}
use wyvern.ProgramSlice.Dependences.{
  find_in, find_from, as_instruction, values, values_of, arguments_from, Gates,
}
use wyvern.ProgramSlice.Dependences.Work.{is_listed}

-- Each instruction is the one at its address.
abbrev pub IsUnique : Function → Type 0
IsUnique F =
    (b : ℕ) (I : Instruction) → Memᴰ I (block_at F b) → as_instruction F (inst I.id) ≡ some (b, I)

pub last-mem : (BB : Block) (I : Instruction) → last BB ≡ some I → Memᴰ I BB
last-mem [] I e = cc e
last-mem (K ∷ []) I e = Memᴰ.head (sym (cc e))
last-mem (K ∷ L ∷ rest) I e = Memᴰ.tail (last-mem (L ∷ rest) I e)

find_in-id :
    (b a : ℕ) (BB : Block) (c : ℕ) (I : Instruction) → find_in b a BB ≡ some (c, I) → I.id ≡ a
unfolding find_in
find_in-id b a [] c I e = cc e
find_in-id b a (K ∷ rest) c I e = elim (Bool-cases (K.id == a)) [
  | inl hit ↦ let same : K ≡ I = cc (rw hit at e) in rw (← same) ((==_iff K.id a).0 hit)
  | inr miss ↦ find_in-id b a rest c I (rw miss at e)
]

find_from-id :
    (b a : ℕ) (blocks : List Block) (c : ℕ) (I : Instruction)
    → find_from b a blocks ≡ some (c, I)
    → I.id ≡ a
unfolding find_from
find_from-id b a [] c I e = cc e
find_from-id b a (BB ∷ rest) c I e = elim (Option-cases (find_in b a BB)) [
  | inl none_here ↦ find_from-id (suc b) a rest c I (rw (none_here, find_from) at e)
  | inr ((d, K), here) ↦
      let same : K ≡ I = cc (rw (here, find_from) at e) in rw (← same) (find_in-id b a BB d K here)
]

-- The instruction that a value is has that value as its address.
pub as_instruction-id :
    (F : Function) (v : Value) (c : ℕ) (I : Instruction)
    → as_instruction F v ≡ some (c, I)
    → v ≡ inst I.id
unfolding as_instruction
as_instruction-id F (inst a) c I e = ap inst (sym (find_from-id 0 a F.blocks c I e))
as_instruction-id F (argument i) c I e = cc e
as_instruction-id F (constant i) c I e = cc e

module _ (F : Function) (gates : Gates) where
  find_in-listed :
      (b a : ℕ) (BB : Block)
      → is_listed F gates (inst a) (map (λ I. inst I.id) BB) ≡ true
      → (r : ℕ × Instruction) × (find_in b a BB ≡ some r)
  unfolding find_in is_listed
  find_in-listed b a [] h = cc h
  find_in-listed b a (K ∷ rest) h = elim (Bool-cases (K.id == a)) [
    | inl hit ↦ ((b, K), rw hit refl)
    | inr miss ↦ let (r, e) = find_in-listed b a rest (rw miss at h) in (r, rw miss e)
  ]

  is_listed-append :
      (v : Value) (us vs : List Value)
      → is_listed F gates v (us ++ vs) ≡ (is_listed F gates v us || is_listed F gates v vs)
  unfolding is_listed
  is_listed-append v [] vs = refl
  is_listed-append v (u ∷ us) vs = ground (arith, is_listed-append v us vs)

  find_from-listed :
      (b a : ℕ) (blocks : List Block)
      → is_listed F gates (inst a) (values_of blocks) ≡ true
      → (r : ℕ × Instruction) × (find_from b a blocks ≡ some r)
  unfolding find_from values_of is_listed
  find_from-listed b a [] h = cc h
  find_from-listed b a (BB ∷ rest) h = elim (Option-cases (find_in b a BB)) [
    | inr (r, here) ↦ (r, rw (here, find_from) refl)
    | inl none_here ↦
        let both = is_listed-append (inst a) (map (λ I. inst I.id) BB) (values_of rest) in
        elim (Bool-cases (is_listed F gates (inst a) (map (λ I. inst I.id) BB))) [
          | inl here ↦ let (r, e) = find_in-listed b a BB here in cc (none_here, e)
          | inr elsewhere ↦
              let (r, e) = find_from-listed (suc b) a rest (rw elsewhere at (sym both ∙ h)) in
              (r, rw (none_here, find_from) e)
        ]
  ]

  arguments_unlisted :
      (a i : ℕ) (types : List ℕ) → is_listed F gates (inst a) (arguments_from i types) ≡ false
  unfolding arguments_from is_listed
  arguments_unlisted a i [] = refl
  arguments_unlisted a i (t ∷ types) = arguments_unlisted a (suc i) types

  -- A listed address is that of an instruction.
  pub as_instruction-listed :
      (a : ℕ)
      → is_listed F gates (inst a) (values F) ≡ true
      → (r : ℕ × Instruction) × (as_instruction F (inst a) ≡ some r)
  unfolding as_instruction values
  as_instruction-listed a h = find_from-listed 0 a F.blocks (
      rw (arguments_unlisted a 0 F.arg_types) at
        (sym (is_listed-append (inst a) (arguments_from 0 F.arg_types) (values_of F.blocks)) ∙ h))
