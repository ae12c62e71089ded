-- ===== src/Instrumentation/Blocks.antt =====
-- The blocks that passes/Instrumentation.cpp leaves, each described at once, against its loops over
-- the blocks of one function.
use wyvern.Base.{
  ℕ, ◌≡◌, refl, ap, ◌∙◌, Bool, true, false, ◌&&◌, List, [], ◌∷◌, ◌++◌, map, if◌then◌else◌,
  Bool-cases, inl, inr,
}
use wyvern.Ir.{
  Opcode, phi, ret, branch, switch, call, store, load, alloca, other, Instruction, Block, Function,
  Module,
}
use wyvern.Report.Attach.{compute_instr_ids}
use wyvern.Instrumentation.{
  Added, call_init_prof, Item, code, Items, Symbols, before, insert_first, insert_at_entry, marks,
  mark_uses, calls_named, is_main, ends_at, end_calls, entry_code, instrument_function,
  is_call_site, init_calls, instrument_call_sites, is_return, dumps,
}
use wyvern.Instrumentation.Layout.{
  shape, phi_marks, IsQuiet, source_shape, before-shape, insert_first-shape, mark_uses-shape,
}

phi_opcode :
    (o : Opcode) → (elim o [ phi _ ↦ true | _ ↦ false ]) ≡ true → (bs : List ℕ) × (o ≡ phi bs)
phi_opcode (phi bs) e = (bs, refl)
phi_opcode ret e = cc e
phi_opcode (branch bs) e = cc e
phi_opcode (switch bs) e = cc e
phi_opcode (call c) e = cc e
phi_opcode store e = cc e
phi_opcode load e = cc e
phi_opcode alloca e = cc e
phi_opcode other e = cc e

cons_path : {A : Type 0} {x y : A} {xs ys : List A} → x ≡ y → xs ≡ ys → x ∷ xs ≡ y ∷ ys
cons_path p q = rw (p, q) refl

if_true : {A : Type 0} {b : Bool} (x y : A) → b ≡ true → (if b then x else y) ≡ x
if_true x y e = rw e refl

if_false : {A : Type 0} {b : Bool} (x y : A) → b ≡ false → (if b then x else y) ≡ y
if_false x y e = rw e refl

module _ (N : Symbols) (M : Module) where
  end_calls-IsQuiet : IsQuiet (end_calls N M)
  unfolding end_calls ends_at calls_named
  end_calls-IsQuiet I e = let (bs, q) = phi_opcode I.opcode e in rw q refl

  init_calls-IsQuiet : (ids : List (ℕ × ℕ)) → IsQuiet (init_calls N M ids)
  unfolding init_calls is_call_site
  init_calls-IsQuiet ids I e = let (bs, q) = phi_opcode I.opcode e in rw q refl

  dumps-IsQuiet : (f : ℕ) → IsQuiet (dumps N M f)
  unfolding dumps is_return calls_named
  dumps-IsQuiet f I e =
      let (bs, q) = phi_opcode I.opcode e in
      elim (Bool-cases (is_main N M f)) [
        | inl here ↦ rw (q, here) refl
        | inr later ↦ rw (q, later) refl
      ]

  -- What stands in front of an instruction.
  abbrev pub around : Bool → ℕ → Function → Instruction → List Added
  around m f F I =
      (if m then end_calls N M I ++ marks I else end_calls N M I)
      ++ init_calls N M (compute_instr_ids F) I
      ++ dumps N M f I

  -- What stands behind the phi nodes.
  abbrev pub first_calls : Bool → Bool → ℕ → Block → List Added
  first_calls entry m f B =
      (if entry && is_main N M f then call_init_prof ∷ [] else [])
      ++ (if m then phi_marks [] B ++ (if entry then entry_code N M else []) else [])

  abbrev pub layout : Bool → Bool → ℕ → Function → Block → List Item
  layout entry m f F B = shape (first_calls entry m f B) (around m f F) B

  abbrev pub layouts : Bool → ℕ → Function → List Block → Items
  layouts m f F [] = []
  layouts m f F (B ∷ Bs) = layout true m f F B ∷ map (layout false m f F) Bs

  ended_block : (B : Block) → before (end_calls N M) (map code B) ≡ shape [] (end_calls N M) B
  ended_block B =
      ap (before (end_calls N M)) (source_shape B)
      ∙ before-shape [] (λ _. []) (end_calls N M) B end_calls-IsQuiet

  -- The last two passes over a block.
  tracked_block :
      (f : ℕ) (F : Function) (calls : List Added) (own : Instruction → List Added) (B : Block)
      → before (dumps N M f) (before (init_calls N M (compute_instr_ids F)) (shape calls own B))
        ≡ shape calls (λ I. own I ++ init_calls N M (compute_instr_ids F) I ++ dumps N M f I) B
  tracked_block f F calls own B =
      let ids = compute_instr_ids F in
      ap (before (dumps N M f))
        (before-shape calls own (init_calls N M ids) B (init_calls-IsQuiet ids))
      ∙ before-shape calls (λ I. own I ++ init_calls N M ids I) (dumps N M f) B (dumps-IsQuiet f)

  marked_block :
      (B : Block) (calls : List Added)
      → mark_uses [] (shape calls (end_calls N M) B)
        ≡ shape (phi_marks [] B ++ calls) (λ I. end_calls N M I ++ marks I) B
  marked_block B calls = mark_uses-shape [] calls (end_calls N M) B

  rest_blocks :
      (m : Bool) (f : ℕ) (F : Function) (Bs : List Block)
      → map (before (dumps N M f)) (
          instrument_call_sites N M (compute_instr_ids F) (
            if m
            then map (mark_uses []) (map (before (end_calls N M)) (map (map code) Bs))
            else map (before (end_calls N M)) (map (map code) Bs)))
        ≡ map (layout false m f F) Bs
  unfolding instrument_call_sites
  rest_blocks true f F [] = refl
  rest_blocks false f F [] = refl
  rest_blocks true f F (B ∷ Bs) =
      rw
        (
          ended_block B,
          marked_block B [],
          tracked_block f F (phi_marks [] B ++ []) (λ I. end_calls N M I ++ marks I) B,
          rest_blocks true f F Bs,
        )
        refl
  rest_blocks false f F (B ∷ Bs) =
      rw (ended_block B, tracked_block f F [] (end_calls N M) B, rest_blocks false f F Bs) refl

  -- The entry block, up to the calls of `_wyinstr_init_call`.
  abbrev entry_block : Bool → Function → Block → List Item
  entry_block m F B = before (init_calls N M (compute_instr_ids F)) (
      if m
      then mark_uses [] (insert_first (entry_code N M) (before (end_calls N M) (map code B)))
      else before (end_calls N M) (map code B))

  entry_block_lem :
      (m : Bool) (f : ℕ) (F : Function) (B : Block)
      → entry_block m F B
        ≡ shape
            (if m then phi_marks [] B ++ entry_code N M else [])
            (λ I.
              (if m then end_calls N M I ++ marks I else end_calls N M I)
              ++ init_calls N M (compute_instr_ids F) I)
            B
  entry_block_lem true f F B =
      let ids = compute_instr_ids F in
      rw
        (
          ended_block B,
          insert_first-shape [] (entry_code N M) (end_calls N M) B,
          marked_block B (entry_code N M),
        )
        (before-shape (phi_marks [] B ++ entry_code N M) (λ I. end_calls N M I ++ marks I)
          (init_calls N M ids) B (init_calls-IsQuiet ids))
  entry_block_lem false f F B =
      let ids = compute_instr_ids F in
      rw (ended_block B)
        (before-shape [] (end_calls N M) (init_calls N M ids) B (init_calls-IsQuiet ids))

  -- The calls that the entry block gets whether or not it is main's.
  abbrev entry_calls : Bool → Block → List Added
  entry_calls m B = if m then phi_marks [] B ++ entry_code N M else []

  first_main :
      (m : Bool) (f : ℕ) (F : Function) (B : Block)
      → is_main N M f ≡ true
      → before (dumps N M f) (insert_first (call_init_prof ∷ []) (entry_block m F B))
        ≡ layout true m f F B
  first_main m f F B e =
      let ids = compute_instr_ids F in
      let own : Instruction → List Added =
        λ I. (if m then end_calls N M I ++ marks I else end_calls N M I) ++ init_calls N M ids I in
      rw
        (
          e,
          entry_block_lem m f F B,
          insert_first-shape (entry_calls m B) (call_init_prof ∷ []) own B,
        )
        (before-shape (call_init_prof ∷ [] ++ entry_calls m B) own (dumps N M f) B
          (dumps-IsQuiet f))

  first_other :
      (m : Bool) (f : ℕ) (F : Function) (B : Block)
      → is_main N M f ≡ false
      → before (dumps N M f) (entry_block m F B) ≡ layout true m f F B
  first_other m f F B e =
      let ids = compute_instr_ids F in
      let own : Instruction → List Added =
        λ I. (if m then end_calls N M I ++ marks I else end_calls N M I) ++ init_calls N M ids I in
      rw (e, entry_block_lem m f F B)
        (before-shape (entry_calls m B) own (dumps N M f) B (dumps-IsQuiet f))

  -- The blocks of one function after the loop over the functions.
  abbrev pub looped : Bool → Function → List Block → Items
  looped m F Bs =
      instrument_call_sites N M (compute_instr_ids F)
        (instrument_function N M m (map (map code) Bs))

  main_blocks :
      (m : Bool) (f : ℕ) (F : Function) (Bs : List Block)
      → is_main N M f ≡ true
      → map (before (dumps N M f)) (insert_at_entry (call_init_prof ∷ []) (looped m F Bs))
        ≡ layouts m f F Bs
  unfolding instrument_call_sites instrument_function insert_at_entry
  main_blocks true f F [] e = refl
  main_blocks false f F [] e = refl
  main_blocks true f F (B ∷ Bs) e = cons_path (first_main true f F B e) (rest_blocks true f F Bs)
  main_blocks false f F (B ∷ Bs) e = cons_path (first_main false f F B e) (rest_blocks false f F Bs)

  other_blocks :
      (m : Bool) (f : ℕ) (F : Function) (Bs : List Block)
      → is_main N M f ≡ false
      → map (before (dumps N M f)) (looped m F Bs) ≡ layouts m f F Bs
  unfolding instrument_call_sites instrument_function insert_at_entry
  other_blocks true f F [] e = refl
  other_blocks false f F [] e = refl
  other_blocks true f F (B ∷ Bs) e = cons_path (first_other true f F B e) (rest_blocks true f F Bs)
  other_blocks false f F (B ∷ Bs) e =
      cons_path (first_other false f F B e) (rest_blocks false f F Bs)

  pub function_blocks :
      (m : Bool) (f : ℕ) (F : Function)
      → map (before (dumps N M f)) (
          if is_main N M f
          then insert_at_entry (call_init_prof ∷ []) (looped m F F.blocks)
          else looped m F F.blocks)
        ≡ layouts m f F F.blocks
  function_blocks m f F = elim (Bool-cases (is_main N M f)) [
    | inl here ↦
        ap (map (before (dumps N M f))) (if_true _ _ here) ∙ main_blocks m f F F.blocks here
    | inr later ↦
        ap (map (before (dumps N M f))) (if_false _ _ later) ∙ other_blocks m f F F.blocks later
  ]
