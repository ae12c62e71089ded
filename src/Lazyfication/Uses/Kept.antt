-- ===== src/Lazyfication/Uses/Kept.antt =====
-- What updateThunkArgUses, passes/Lazyfication.cpp, keeps: the instructions of each block, their
-- order and their opcodes.
use wyvern.Base.{
  ℕ, zero, suc, ◌≤◌, ◌≡◌, refl, sym, ap, ◌∙◌, Bool, true, false, List, [], ◌∷◌, ◌++◌, arith, All,
  All-append, map, Bool-cases, inl, inr, ltb, if◌then◌else◌,
}
use wyvern.Ir.{
  Value, Callee, Opcode, phi, ret, branch, switch, call, store, load, alloca, other, Instruction,
  Block, Function, same_value,
}
use wyvern.Lazyfication.Uses.{
  thunk_code, Edges, before_last, insert_edge, insert_edges, replace_operands, replace_edges,
  update_inst, update_block, update_blocks, update_thunk_arg_uses,
}

-- The instructions at addresses below k, without their operands.
abbrev pub heads : ℕ → Block → List (ℕ × Opcode)
heads k [] = []
heads k (I ∷ B) = if ltb I.id k then (I.id, I.opcode) ∷ heads k B else heads k B

-- Code of new instructions.
abbrev pub IsNew : ℕ → List Instruction → Type 0
IsNew k code = All (λ (I : Instruction). k ≤ I.id) code

pub heads-append : (k : ℕ) (code B : Block) → IsNew k code → heads k (code ++ B) ≡ heads k B
heads-append k [] B h = refl
heads-append k (I ∷ code) B (p, h) = ground (arith, heads-append k code B h)

pub heads-IsNew : (k : ℕ) (code : Block) → IsNew k code → heads k code ≡ []
heads-IsNew k [] h = refl
heads-IsNew k (I ∷ code) (p, h) = ground (arith, heads-IsNew k code h)

heads_join : (k : ℕ) (A B : Block) → heads k (A ++ B) ≡ heads k A ++ heads k B
heads_join k [] B = refl
heads_join k (I ∷ A) B = elim (Bool-cases (ltb I.id k)) [
  | inl low ↦ rw low (ap (λ H. (I.id, I.opcode) ∷ H) (heads_join k A B))
  | inr high ↦ rw high (heads_join k A B)
]

heads-before_last :
    (k : ℕ) (code B : Block) → IsNew k code → heads k (before_last code B) ≡ heads k B
unfolding before_last
heads-before_last k code [] h = heads-IsNew k code h
heads-before_last k code (I ∷ []) h = heads-append k code (I ∷ []) h
heads-before_last k code (I ∷ J ∷ rest) h =
    ap (λ H. if ltb I.id k then (I.id, I.opcode) ∷ H else H) (heads-before_last k code (J ∷ rest) h)

heads-insert_edge :
    (k b : ℕ) (code : List Instruction) (Bs : List Block)
    → IsNew k code
    → map (heads k) (insert_edge b code Bs) ≡ map (heads k) Bs
unfolding insert_edge
heads-insert_edge k b code [] h = refl
heads-insert_edge k zero code (B ∷ Bs) h =
    ap (λ H. H ∷ map (heads k) Bs) (heads-before_last k code B h)
heads-insert_edge k (suc b) code (B ∷ Bs) h =
    ap (λ H. heads k B ∷ H) (heads-insert_edge k b code Bs h)

abbrev AreNew : ℕ → Edges → Type 0
AreNew k es = All (λ (x : ℕ × List Instruction). IsNew k x.1) es

heads-insert_edges :
    (k : ℕ) (es : Edges) (Bs : List Block)
    → AreNew k es
    → map (heads k) (insert_edges es Bs) ≡ map (heads k) Bs
unfolding insert_edges
heads-insert_edges k [] Bs h = refl
heads-insert_edges k ((b, code) ∷ es) Bs (p, h) =
    heads-insert_edges k es (insert_edge b code Bs) h ∙ heads-insert_edge k b code Bs p

code-IsNew_of :
    (is_callee : Bool) (thunk : Value) (delegate : Callee) (k n : ℕ)
    → k ≤ n
    → IsNew k (thunk_code is_callee thunk delegate n).0
      × (k ≤ (thunk_code is_callee thunk delegate n).1.1)
unfolding thunk_code
code-IsNew_of false thunk delegate k n h = ((h, tt), omega (arith, h))
code-IsNew_of true thunk delegate k n h =
    ((h, (omega (arith, h), (omega (arith, h), tt))), omega (arith, h))

module _ (is_callee : Bool) (thunk : Value) (delegate : Callee) (k : ℕ) (v : Value) where
  code-IsNew :
      (n : ℕ)
      → k ≤ n
      → IsNew k (thunk_code is_callee thunk delegate n).0
        × (k ≤ (thunk_code is_callee thunk delegate n).1.1)
  code-IsNew n h = code-IsNew_of is_callee thunk delegate k n h

  operands-IsNew :
      (n : ℕ) (us : List Value)
      → k ≤ n
      → IsNew k (replace_operands is_callee thunk delegate v n us).1.0
        × (k ≤ (replace_operands is_callee thunk delegate v n us).1.1)
  unfolding replace_operands
  operands-IsNew n [] h = (tt, h)
  operands-IsNew n (u ∷ us) h = elim (Bool-cases (same_value v u)) [
    | inl same ↦
        let (c1, c2) = code-IsNew n h in
        let t = thunk_code is_callee thunk delegate n in
        let (r1, r2) = operands-IsNew t.1.1 us c2 in
        rw (same, replace_operands)
          (
            All-append (λ (I : Instruction). k ≤ I.id) t.0
                (replace_operands is_callee thunk delegate v t.1.1 us).1.0 c1 r1,
            r2,
          )
    | inr new ↦ rw (new, replace_operands) (operands-IsNew n us h)
  ]

  edges-AreNew :
      (n : ℕ) (us : List Value) (bs : List ℕ)
      → k ≤ n
      → AreNew k (replace_edges is_callee thunk delegate v n us bs).1.0
        × (k ≤ (replace_edges is_callee thunk delegate v n us bs).1.1)
  unfolding replace_edges
  edges-AreNew n [] bs h = (tt, h)
  edges-AreNew n (u ∷ us) [] h = (tt, h)
  edges-AreNew n (u ∷ us) (b ∷ bs) h = elim (Bool-cases (same_value v u)) [
    | inl same ↦
        let (c1, c2) = code-IsNew n h in
        let t = thunk_code is_callee thunk delegate n in
        let (r1, r2) = edges-AreNew t.1.1 us bs c2 in rw (same, replace_edges) ((c1, r1), r2)
    | inr new ↦ rw (new, replace_edges) (edges-AreNew n us bs h)
  ]

  abbrev Same : Block → Block × (Edges × ℕ) → Type 0
  Same B r = (heads k r.0 ≡ heads k B) × AreNew k r.1.0 × (k ≤ r.1.1)

  plain-Same :
      (I : Instruction) (n : ℕ)
      → k ≤ n
      → (let r = replace_operands is_callee thunk delegate v n I.operands in
          Same (I ∷ []) (r.1.0 ++ record I { operands = r.0 } ∷ [], ([], r.1.1)))
  plain-Same I n h =
      let r = replace_operands is_callee thunk delegate v n I.operands in
      let (r1, r2) = operands-IsNew n I.operands h in
      (heads-append k r.1.0 (record I { operands = r.0 } ∷ []) r1, tt, r2)

  inst-Same :
      (o : Opcode) (I : Instruction) (n : ℕ)
      → k ≤ n
      → Same (I ∷ []) (update_inst is_callee thunk delegate v o I n)
  unfolding update_inst
  inst-Same (phi bs) I n h = let (r1, r2) = edges-AreNew n I.operands bs h in (refl, r1, r2)
  inst-Same ret I n h = plain-Same I n h
  inst-Same (branch bs) I n h = plain-Same I n h
  inst-Same (switch bs) I n h = plain-Same I n h
  inst-Same (call c) I n h = plain-Same I n h
  inst-Same store I n h = plain-Same I n h
  inst-Same load I n h = plain-Same I n h
  inst-Same alloca I n h = plain-Same I n h
  inst-Same other I n h = plain-Same I n h

  block-Same : (n : ℕ) (B : Block) → k ≤ n → Same B (update_block is_callee thunk delegate v n B)
  unfolding update_block
  block-Same n [] h = (refl, tt, h)
  block-Same n (I ∷ B) h =
      let (h1, h2, h3) = inst-Same I.opcode I n h in
      let r = update_inst is_callee thunk delegate v I.opcode I n in
      let (g1, g2, g3) = block-Same r.1.1 B h3 in
      let t = update_block is_callee thunk delegate v r.1.1 B in
      (
        heads_join k r.0 t.0 ∙ rw (h1, g1) (sym (heads_join k (I ∷ []) B)),
        All-append (λ (x : ℕ × List Instruction). IsNew k x.1) r.1.0 t.1.0 h2 g2,
        g3,
      )

  blocks-Same :
      (n : ℕ) (Bs : List Block)
      → k ≤ n
      → (map (heads k) (update_blocks is_callee thunk delegate v n Bs).0 ≡ map (heads k) Bs)
        × AreNew k (update_blocks is_callee thunk delegate v n Bs).1.0
  unfolding update_blocks
  blocks-Same n [] h = (refl, tt)
  blocks-Same n (B ∷ Bs) h =
      let (h1, h2, h3) = block-Same n B h in
      let r = update_block is_callee thunk delegate v n B in
      let (g1, g2) = blocks-Same r.1.1 Bs h3 in
      let t = update_blocks is_callee thunk delegate v r.1.1 Bs in
      (rw (h1, g1) refl, All-append (λ (x : ℕ × List Instruction). IsNew k x.1) r.1.0 t.1.0 h2 g2)

-- The instructions at addresses below the new ones stay in their blocks, in their order and with
-- their opcodes.
pub heads-update_thunk_arg_uses :
    (is_callee : Bool) (thunk : Value) (delegate : Callee) (v : Value) (n : ℕ) (F : Function)
    → map (heads n) (update_thunk_arg_uses is_callee thunk delegate v n F).blocks
      ≡ map (heads n) F.blocks
unfolding update_thunk_arg_uses
heads-update_thunk_arg_uses is_callee thunk delegate v n F =
    let r = update_blocks is_callee thunk delegate v n F.blocks in
    let (h1, h2) = blocks-Same is_callee thunk delegate n v n F.blocks (omega arith) in
    heads-insert_edges n r.1.0 r.0 h2 ∙ h1
