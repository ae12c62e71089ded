-- ===== src/ProgramSlice/Dependences/Work.antt =====
-- How long `get_data_dependences_for` of passes/ProgramSlice.cpp runs. Each value is marked once, and
-- brings its gates with it.

use wyvern.Base.{
  ℕ, suc, ◌+◌, ◌≤◌, ◌<◌, ◌≡◌, refl, subst, inl, inr, Bool, true, false, not, ◌||◌, List, [], ◌∷◌,
  ◌++◌, Option, none, some, arith, Bool-cases, Option-cases, if◌then◌else◌, zero, All, length,
  All-get_or, ◌==◌,
}
use wyvern.Base.Map.{Set, contains, add, contains-add, contains_self, nat_order}
use wyvern.Ir.{
  Value, inst, argument, constant, Opcode, phi, Instruction, Block, Function, same_value,
}
use wyvern.ProgramSlice.Dependences.{
  value_order, same_value_iff, as_instruction, is_local, push_operands, push_gates, Search, Gates,
  gates_for, visit, rounds, find_in, find_from, values,
}

module _ (F : Function) (gates : Gates) where
  weight_of : Option (ℕ × Instruction) → ℕ
  weight_of none = 1
  weight_of (some (b, I)) = suc (length (gates_for gates b I.opcode))

  pub weight : Value → ℕ
  unfolding weight_of
  weight v = weight_of (as_instruction F v)

  -- An instruction with no gates weighs one.
  pub weight_plain :
      (v : Value) (b : ℕ) (I : Instruction)
      → as_instruction F v ≡ some (b, I)
      → gates_for gates b I.opcode ≡ []
      → weight v ≡ 1
  unfolding weight
  weight_plain v b I found plain = rw (found, weight_of, plain)

  pub pending : List Value → ℕ
  pending [] = 0
  pending (v ∷ vs) = weight v + pending vs

  -- The values of the function that are not marked.
  pub unmarked : List Value → Set Value → ℕ
  unmarked [] visited = 0
  unmarked (u ∷ us) visited = (if contains u visited then 0 else weight u) + unmarked us visited

  unfoldable pub is_listed : Value → List Value → Bool
  is_listed v [] = false
  is_listed v (u ∷ us) = same_value u v || is_listed v us

  -- A gate is a terminator, which is no phi node: no gates hang on it.
  abbrev pub IsGate : Option Value → Type 0
  IsGate none = Unit
  IsGate (some g) = weight g ≡ 1

  pending-append : (us vs : List Value) → pending (us ++ vs) ≡ pending us + pending vs
  unfolding pending
  pending-append [] vs = omega arith
  pending-append (u ∷ us) vs = omega (arith, pending-append us vs)

  unmarked-add_le :
      (us : List Value) (v : Value) (visited : Set Value)
      → unmarked us (add v visited) ≤ unmarked us visited
  unfolding unmarked
  unmarked-add_le [] v visited = omega arith
  unmarked-add_le (u ∷ us) v visited =
      ground (arith, unmarked-add_le us v visited, contains-add v u visited)

  unmarked-add :
      (us : List Value) (v : Value) (visited : Set Value)
      → is_listed v us ≡ true
      → contains v visited ≡ false
      → unmarked us (add v visited) + weight v ≤ unmarked us visited
  unfolding unmarked is_listed
  unmarked-add [] v visited h e = cc
  unmarked-add (u ∷ us) v visited h e = elim (Bool-cases (same_value u v)) [
    | inl hit ↦
        let same : u ≡ v = (same_value_iff u v).0 hit in
        rw same (rw (e, contains_self v visited) (omega (arith, unmarked-add_le us v visited)))
    | inr miss ↦
        ground (arith, unmarked-add us v visited, contains-add v u visited, same_value_iff u v)
  ]

  push_operands-work :
      (U us : List Value) (visited : Set Value) (queue : List Value)
      → All (λ u. (not (is_local u) || is_listed u U) ≡ true) us
      → let r = push_operands us visited queue in
        unmarked U r.0 + pending r.1 ≤ unmarked U visited + pending queue
  unfolding push_operands pending
  push_operands-work U [] visited queue h = omega arith
  push_operands-work U (u ∷ us) visited queue h =
      elim (Bool-cases (not (is_local u) || contains u visited)) [
        | inl skip ↦ rw (skip, push_operands) (push_operands-work U us visited queue h.1)
        | inr push ↦
            rw (push, push_operands)
              (omega (
                arith,
                push_operands-work U us (add u visited) (queue ++ u ∷ []) h.1,
                pending-append queue (u ∷ []),
                unmarked-add U u visited (ground (arith, h.0)) (ground arith),
              ))
      ]

  push_gates-work :
      (gs : List (Option Value)) (visited : Set Value) (queue : List Value)
      → All IsGate gs
      → pending (push_gates gs visited queue) ≤ pending queue + length gs
  unfolding push_gates pending
  push_gates-work [] visited queue h = omega arith
  push_gates-work (none ∷ gs) visited queue h = omega (arith, push_gates-work gs visited queue h.1)
  push_gates-work (some g ∷ gs) visited queue h = elim (Bool-cases (contains g visited)) [
    | inl old ↦ rw (old, push_gates) (omega (arith, push_gates-work gs visited queue h.1))
    | inr new ↦
        rw (new, push_gates)
          (omega (
            arith,
            push_gates-work gs visited (queue ++ g ∷ []) h.1,
            pending-append queue (g ∷ []),
            h.0,
          ))
  ]

  find_in-All :
      (P : Instruction → Type 0) (b a : ℕ) (BB : Block) (c : ℕ) (I : Instruction)
      → All P BB
      → find_in b a BB ≡ some (c, I)
      → P I
  unfolding find_in
  find_in-All P b a [] c I h e = cc
  find_in-All P b a (K ∷ rest) c I h e = elim (Bool-cases (K.id == a)) [
    | inl hit ↦ let same : K ≡ I = ground arith in subst P same h.0
    | inr miss ↦ find_in-All P b a rest c I h.1 (ground arith)
  ]

  pub find_from-All :
      (P : Instruction → Type 0) (b a : ℕ) (blocks : List Block) (c : ℕ) (I : Instruction)
      → All (All P) blocks
      → find_from b a blocks ≡ some (c, I)
      → P I
  unfolding find_from
  find_from-All P b a [] c I h e = cc
  find_from-All P b a (BB ∷ rest) c I h e = elim (Option-cases (find_in b a BB)) [
    | inl none_here ↦ find_from-All P (suc b) a rest c I h.1 (rw (none_here, find_from) at e)
    | inr ((d, K), here) ↦
        let same : K ≡ I = cc (rw (here, find_from) at e) in
        subst P same (find_in-All P b a BB d K h.0 here)
  ]

  -- Every operand that is an instruction or an argument is one of the function's.
  abbrev pub IsScoped : Type 0
  IsScoped =
      All (All (λ I. All (λ u. (not (is_local u) || is_listed u (values F)) ≡ true) I.operands))
        F.blocks

  pub work : Search → ℕ
  work s = unmarked (values F) s.visited + pending s.to_visit

  module _ (scoped : IsScoped) (ok_gates : All (All IsGate) gates) where
    operands-scoped :
        (cur : Value) (b : ℕ) (I : Instruction)
        → as_instruction F cur ≡ some (b, I)
        → All (λ u. (not (is_local u) || is_listed u (values F)) ≡ true) I.operands
    unfolding as_instruction
    operands-scoped (inst a) b I e =
        find_from-All
          (λ K. All (λ u. (not (is_local u) || is_listed u (values F)) ≡ true) K.operands) 0 a
          F.blocks b I scoped e
    operands-scoped (argument a) b I e = cc
    operands-scoped (constant a) b I e = cc

    gates_for-ok : (b : ℕ) (o : Opcode) → All IsGate (gates_for gates b o)
    gates_for-ok b (phi _) = All-get_or (All IsGate) gates b [] ok_gates tt
    gates_for-ok b _ = tt

    visit-work :
        (s : Search) (cur : Value) (rest : List Value)
        → s.to_visit ≡ cur ∷ rest
        → work (visit F gates cur rest s) < work s
    unfolding visit work weight pending unmarked
    visit-work s cur rest e = elim (Option-cases (as_instruction F cur)) [
      | inl leaf ↦ rw (e, pending) (rw (leaf, visit) (omega arith))
      | inr ((b, I), found) ↦
          let r = push_operands I.operands s.visited rest in
          rw (e, pending)
            (rw (found, visit)
              (omega (
                arith,
                push_operands-work (values F) I.operands s.visited rest
                    (operands-scoped cur b I found),
                push_gates-work (gates_for gates b I.opcode) r.0 r.1 (gates_for-ok b I.opcode),
              )))
    ]

    pub rounds_total :
        (fuel : ℕ) (queue : List Value) (s : Search)
        → s.to_visit ≡ queue
        → work s ≤ fuel
        → (t : Search) × (rounds F gates fuel queue s ≡ some t)
    unfolding rounds
    rounds_total fuel [] s e h = (s, refl)
    rounds_total zero (cur ∷ rest) s e h = absurd (omega (arith, visit-work s cur rest e))
    rounds_total (suc fuel) (cur ∷ rest) s e h =
        rounds_total fuel (visit F gates cur rest s).to_visit (visit F gates cur rest s) refl
          (omega (arith, visit-work s cur rest e))
