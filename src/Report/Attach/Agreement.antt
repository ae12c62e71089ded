-- ===== src/Report/Attach/Agreement.antt =====
-- The two passes, passes/Instrumentation.cpp and passes/Lazyfication.cpp, give an instruction the
-- same number.
use wyvern.Base.{
  ℕ, zero, suc, ◌+◌, ◌≡◌, ◌≢◌, refl, ap, ◌∙◌, true, List, [], ◌∷◌, Option, none, some, arith,
  get_elem?, Option-cases, Bool-cases, inl, inr,
}
use wyvern.Base.Map
use wyvern.Base.Map.{nat_order, find-assign}
use wyvern.Ir.{Instruction, Function}
use wyvern.Report.{Text, Row}
use wyvern.Report.Attach.{
  instructions, count_instructions, set_id, compute_instr_ids, raw_row, attach_row, attach, is_call,
}

-- No two instructions are at one address.
abbrev pub IsDistinct : List Instruction → Type 0
IsDistinct xs =
    (i j : ℕ) (I J : Instruction)
    → get_elem? xs i ≡ some I
    → get_elem? xs j ≡ some J
    → I.id ≡ J.id
    → i ≡ j

module _ {ℓ} {V : Type ℓ} (body : ℕ → Instruction → List (ℕ × V) → List (ℕ × V))
    (local : (id a : ℕ) (I : Instruction) (m : List (ℕ × V))
      → I.id ≢ a
      → Map.find a (body id I m) ≡ Map.find a m) where
  -- The loop changes the entries of the instructions only.
  pub count_instructions_kept :
      (id a : ℕ) (xs : List Instruction) (m : List (ℕ × V))
      → ((j : ℕ) (J : Instruction) → get_elem? xs j ≡ some J → J.id ≢ a)
      → Map.find a (count_instructions body id xs m) ≡ Map.find a m
  unfolding count_instructions
  count_instructions_kept id a [] m h = refl
  count_instructions_kept id a (I ∷ rest) m h =
      count_instructions_kept (suc id) a rest (body id I m) (λ j J e. h (suc j) J e)
      ∙ local id a I m (h 0 I refl)

  -- The entry of the instruction at position n is what the body makes of it at that count.
  pub count_instructions-at :
      (id n : ℕ) (I : Instruction) (xs : List Instruction) (m : List (ℕ × V))
      → IsDistinct xs
      → get_elem? xs n ≡ some I
      → (before : List (ℕ × V)) × (Map.find I.id before ≡ Map.find I.id m)
        × (Map.find I.id (count_instructions body id xs m) ≡ Map.find I.id (body (id + n) I before))
  unfolding count_instructions
  count_instructions-at id n I [] m h e = cc e
  count_instructions-at id zero I (K ∷ rest) m h e =
      let same : K ≡ I = cc e in
      (
        m,
        refl,
        count_instructions_kept (suc id) I.id rest (body id K m)
              (λ j J at q. absurd (omega (arith, h (suc j) 0 J I at e q)))
            ∙ ap (λ (x : Instruction). Map.find I.id (body id x m)) same
            ∙ ap (λ (k : ℕ). Map.find I.id (body k I m)) (omega arith),
      )
  count_instructions-at id (suc n) I (K ∷ rest) m h e =
      let (before, kept, result) =
        count_instructions-at (suc id) n I rest (body id K m)
          (λ i j A B p q r. omega (arith, h (suc i) (suc j) A B p q r)) e in
      (
        before,
        kept ∙ local id I.id K m (λ q. absurd (omega (arith, h 0 (suc n) K I refl e q))),
        result ∙ ap (λ (k : ℕ). Map.find I.id (body k I before)) (omega arith),
      )

pub set_id_local :
    (id a : ℕ) (I : Instruction) (m : List (ℕ × ℕ))
    → I.id ≢ a
    → Map.find a (set_id id I m) ≡ Map.find a m
unfolding set_id
set_id_local id a I m h = ground (arith, find-assign I.id a id m)

pub attach_row_local :
    (prof_infos : ℕ → Option Row) (id a : ℕ) (I : Instruction) (m : List (ℕ × Row))
    → I.id ≢ a
    → Map.find a (attach_row prof_infos id I m) ≡ Map.find a m
unfolding attach_row
attach_row_local prof_infos id a I m h = elim (Bool-cases (is_call I.opcode)) [
  | inl site ↦ elim (Option-cases (prof_infos id)) [
    | inl no_row ↦ rw (site, attach_row, no_row) refl
    | inr (row, e) ↦ rw (site, attach_row, e) (ground (arith, find-assign I.id a row m))
  ]
  | inr plain ↦ rw (plain, attach_row) refl
]

attach_row_self :
    (prof_infos : ℕ → Option Row) (id : ℕ) (I : Instruction) (m : List (ℕ × Row))
    → is_call I.opcode ≡ true
    → Map.find I.id m ≡ none
    → Map.find I.id (attach_row prof_infos id I m) ≡ prof_infos id
unfolding attach_row
attach_row_self prof_infos id I m site fresh = elim (Option-cases (prof_infos id)) [
  | inl no_row ↦ rw (site, attach_row, no_row) fresh
  | inr (row, e) ↦ rw (site, attach_row, e) (ground (arith, find-assign I.id I.id row m))
]

-- Where no two instructions of a function are at one address: a call of the function has a number from `computeInstrIDs`, its position; and what the loading of
-- the profile attaches to it is the last row of the report with the function's name and that number,
-- or nothing where there is no such row.
pub attach-compute_instr_ids :
    (rows : List Row) (name : Text) (F : Function) (n : ℕ) (I : Instruction)
    → IsDistinct (instructions F.blocks)
    → get_elem? (instructions F.blocks) n ≡ some I
    → is_call I.opcode ≡ true
    → (Map.find I.id (compute_instr_ids F) ≡ some n)
      × (Map.find I.id (attach rows name F []) ≡ raw_row rows name n)
unfolding compute_instr_ids attach
attach-compute_instr_ids rows name F n I distinct at site =
    let row_at = raw_row rows name in
    let (ids, _, numbered) =
      count_instructions-at set_id set_id_local 0 n I (instructions F.blocks) [] distinct at in
    let (found, fresh, attached) =
      count_instructions-at (attach_row row_at) (attach_row_local row_at) 0 n I
        (instructions F.blocks) [] distinct at in
    (
      numbered ∙ unfold set_id in ground (arith, find-assign I.id I.id (0 + n) ids),
      attached
          ∙ attach_row_self row_at (0 + n) I found site (fresh ∙ unfold Map.find in refl)
          ∙ ap row_at (omega arith),
    )
