-- ===== src/Instrumentation/Erase.antt =====
-- What passes/Instrumentation.cpp does not change: the instructions of the program, their order and
-- their blocks.
use wyvern.Base.{
  ℕ, suc, ◌≡◌, refl, ap, ◌∙◌, Bool, true, false, List, [], ◌∷◌, ◌++◌, Option, map, Bool-cases, inl,
  inr,
}
use wyvern.Base.Map.{Set}
use wyvern.Ir.{Instruction, Block, Function, Module, is_phi}
use wyvern.Report.{Text}
use wyvern.Report.Attach.{compute_instr_ids}
use wyvern.Instrumentation.{
  Added, call_init_prof, Item, code, added, Items, Symbols, before, insert_first, insert_at_entry,
  marks, push_marks, mark_uses, end_calls, is_main, entry_code, instrument_function, init_calls,
  instrument_call_sites, is_marked, source_items, instrument_functions, instrument_entry_point,
  dumps, instrument_exit_points, run_pass,
}

-- The instructions of the program in a block.
abbrev pub erase : List Item → Block
erase [] = []
erase (code I ∷ rest) = I ∷ erase rest
erase (added a ∷ rest) = erase rest

abbrev pub erase_all : Items → List Block
erase_all B = map erase B

erase_added : (calls : List Added) (X : List Item) → erase (map added calls ++ X) ≡ erase X
erase_added [] X = refl
erase_added (a ∷ calls) X = erase_added calls X

erase_only : (calls : List Added) → erase (map added calls) ≡ []
erase_only [] = refl
erase_only (a ∷ calls) = erase_only calls

erase_source : (B : Block) → erase (map code B) ≡ B
erase_source [] = refl
erase_source (I ∷ B) = ap (λ zs. I ∷ zs) (erase_source B)

erase-before : (f : Instruction → List Added) (X : List Item) → erase (before f X) ≡ erase X
unfolding before
erase-before f [] = refl
erase-before f (code I ∷ X) =
    erase_added (f I) (code I ∷ before f X) ∙ ap (λ zs. I ∷ zs) (erase-before f X)
erase-before f (added a ∷ X) = erase-before f X

erase-insert_first : (calls : List Added) (X : List Item) → erase (insert_first calls X) ≡ erase X
unfolding insert_first
erase-insert_first calls [] = erase_only calls
erase-insert_first calls (added a ∷ X) = erase_added calls (added a ∷ X)
erase-insert_first calls (code I ∷ X) = elim (Bool-cases (is_phi I)) [
  | inl here ↦ rw here (ap (λ zs. I ∷ zs) (erase-insert_first calls X))
  | inr later ↦ rw later (erase_added calls (code I ∷ X))
]

erase-mark_uses : (pending : List Added) (X : List Item) → erase (mark_uses pending X) ≡ erase X
unfolding mark_uses
erase-mark_uses pending [] = erase_only pending
erase-mark_uses pending (added a ∷ X) =
    erase_added pending (before marks (added a ∷ X)) ∙ erase-before marks (added a ∷ X)
erase-mark_uses pending (code I ∷ X) = elim (Bool-cases (is_phi I)) [
  | inl here ↦ rw here (ap (λ zs. I ∷ zs) (erase-mark_uses (push_marks (marks I) pending) X))
  | inr later ↦
      rw later (erase_added pending (before marks (code I ∷ X)) ∙ erase-before marks (code I ∷ X))
]

-- A change of each block that the erasure does not see.
erase-map :
    (g : List Item → List Item) (h : (X : List Item) → erase (g X) ≡ erase X) (B : Items)
    → erase_all (map g B) ≡ erase_all B
erase-map g h [] = refl
erase-map g h (X ∷ B) = rw (h X, erase-map g h B) refl

erase-insert_at_entry :
    (calls : List Added) (B : Items) → erase_all (insert_at_entry calls B) ≡ erase_all B
unfolding insert_at_entry
erase-insert_at_entry calls [] = refl
erase-insert_at_entry calls (X ∷ B) = ap (λ Z. Z ∷ erase_all B) (erase-insert_first calls X)

erase_blocks : (B : List Block) → erase_all (map (map code) B) ≡ B
erase_blocks [] = refl
erase_blocks (X ∷ B) = rw (erase_source X, erase_blocks B) refl

module _ (N : Symbols) (M : Module) where
  erase-instrument_function :
      (m : Bool) (B : Items) → erase_all (instrument_function N M m B) ≡ erase_all B
  unfolding instrument_function
  erase-instrument_function true B =
      let ended = map (before (end_calls N M)) B in
      erase-map (mark_uses []) (erase-mark_uses []) (insert_at_entry (entry_code N M) ended)
      ∙ erase-insert_at_entry (entry_code N M) ended
      ∙ erase-map (before (end_calls N M)) (erase-before (end_calls N M)) B
  erase-instrument_function false B =
      erase-map (before (end_calls N M)) (erase-before (end_calls N M)) B

  erase-exit_points :
      (f : ℕ) (Bs : List Items) → map erase_all (instrument_exit_points N M f Bs) ≡ map erase_all Bs
  unfolding instrument_exit_points
  erase-exit_points f [] = refl
  erase-exit_points f (B ∷ Bs) =
      rw
        (
          erase-map (before (dumps N M f)) (erase-before (dumps N M f)) B,
          erase-exit_points (suc f) Bs,
        )
        refl

  erase-entry_point :
      (f : ℕ) (Bs : List Items) → map erase_all (instrument_entry_point N M f Bs) ≡ map erase_all Bs
  unfolding instrument_entry_point
  erase-entry_point f [] = refl
  erase-entry_point f (B ∷ Bs) = elim (Bool-cases (is_main N M f)) [
    | inl here ↦
        rw (here, erase-insert_at_entry (call_init_prof ∷ []) B, erase-entry_point (suc f) Bs) refl
    | inr later ↦ rw (later, erase-entry_point (suc f) Bs) refl
  ]

  erase-functions :
      (promising : Option (Set ℕ)) (f : ℕ) (Fs : List Function)
      → map erase_all (instrument_functions N M promising f Fs) ≡ map (λ F. F.blocks) Fs
  unfolding instrument_functions instrument_call_sites source_items
  erase-functions promising f [] = refl
  erase-functions promising f (F ∷ Fs) =
      let ids = compute_instr_ids F in
      let m = is_marked N M promising f in
      let B = map (map code) F.blocks in
      rw
        (
          erase-map (before (init_calls N M ids)) (erase-before (init_calls N M ids))
              (instrument_function N M m B),
          erase-instrument_function m B,
          erase_blocks F.blocks,
          erase-functions promising (suc f) Fs,
        )
        refl

  erase_sources :
      (Fs : List Function) → map erase_all (map (source_items N M) Fs) ≡ map (λ F. F.blocks) Fs
  unfolding source_items
  erase_sources [] = refl
  erase_sources (F ∷ Fs) = rw (erase_blocks F.blocks, erase_sources Fs) refl

  -- Whatever the options, runOnModule only adds: without its calls and cells, each function has the
  -- blocks and instructions that it had.
  pub erase-run_pass :
      (pre : Bool) (file : Text) (promising : Option (Set ℕ))
      → map erase_all (run_pass N M pre file promising).1 ≡ map (λ F. F.blocks) M
  unfolding run_pass
  erase-run_pass false file promising = erase_sources M
  erase-run_pass true [] promising = erase_sources M
  erase-run_pass true (c ∷ cs) promising =
      let Bs = instrument_functions N M promising 0 M in
      erase-exit_points 0 (instrument_entry_point N M 0 Bs)
      ∙ erase-entry_point 0 Bs
      ∙ erase-functions promising 0 M
