-- ===== src/Lazyfication/Caller/Laws.antt =====
-- What lazifyCallsite of passes/Lazyfication.cpp leaves of the caller.
use wyvern.Base.{
  ℕ, suc, ◌+◌, ◌≤◌, ◌<◌, ◌≡◌, refl, sym, ap, ◌∙◌, Bool, true, false, ◌&&◌, List, [], ◌∷◌, some,
  arith, All, map, any, length, ltb, ◌==◌, if◌then◌else◌, Bool-cases, inl, inr,
}
use wyvern.Ir.{Value, inst, Callee, Opcode, call, alloca, Instruction, Block, Function, is_phi}
use wyvern.Thunk.Code.{
  Emitted, struct_gep, store_field, load_field, store_args, generate_thunk_initialization_code,
}
use wyvern.Lazyfication.Uses.{update_thunk_arg_uses}
use wyvern.Lazyfication.Uses.Replaced.{IsFree, update_thunk_arg_uses_lem}
use wyvern.Lazyfication.Uses.Kept.{
  heads, IsNew, heads-append, heads-IsNew, heads-update_thunk_arg_uses,
}
use wyvern.Lazyfication.Caller.{
  lower, insert_first, insert_entry, insert_before, place_code, set_call, prepare_caller,
  finish_caller, lazify_caller,
}

-- The results of emitted code are at addresses from k on.
abbrev IsAbove : ℕ → Emitted → Type 0
IsAbove k (struct_gep a i) = k ≤ a
IsAbove k (store_field v a) = Unit
IsAbove k (load_field r a) = k ≤ r

store_args-IsAbove : (k n i : ℕ) (args : List ℕ) → k ≤ n → All (IsAbove k) (store_args n i args)
unfolding store_args
store_args-IsAbove k n i [] h = tt
store_args-IsAbove k n i (a ∷ args) h =
    (h, (tt, store_args-IsAbove k (suc n) (suc i) args (omega arith)))

generated-IsAbove :
    (k n : ℕ) (memo : Bool) (f : ℕ) (args : List ℕ)
    → k ≤ n
    → All (IsAbove k) (generate_thunk_initialization_code memo f args n)
unfolding generate_thunk_initialization_code
generated-IsAbove k n true f args h =
    (h, (tt, (omega arith, (tt, store_args-IsAbove k (suc (suc n)) 3 args (omega arith)))))
generated-IsAbove k n false f args h =
    (h, (tt, store_args-IsAbove k (suc (suc n)) 1 args (omega arith)))

lower-IsNew :
    (thunk result : Value) (k m : ℕ) (es : List Emitted)
    → k ≤ m
    → All (IsAbove k) es
    → IsNew k (lower thunk result m es)
unfolding lower
lower-IsNew thunk result k m [] h g = tt
lower-IsNew thunk result k m (struct_gep a i ∷ es) h (p, g) =
    (p, lower-IsNew thunk result k m es h g)
lower-IsNew thunk result k m (store_field v a ∷ es) h (p, g) =
    (h, lower-IsNew thunk result k (suc m) es (omega arith) g)
lower-IsNew thunk result k m (load_field r a ∷ es) h (p, g) =
    (p, lower-IsNew thunk result k m es h g)

module _ (k : ℕ) (code : List Instruction) (new : IsNew k code) where
  heads-insert_first : (B : Block) → heads k (insert_first code B) ≡ heads k B
  unfolding insert_first
  heads-insert_first [] = heads-IsNew k code new
  heads-insert_first (I ∷ B) = elim (Bool-cases (is_phi I)) [
    | inl merge ↦
        rw (merge, insert_first)
          (ap (λ H. if ltb I.id k then (I.id, I.opcode) ∷ H else H) (heads-insert_first B))
    | inr plain ↦ rw (plain, insert_first) (heads-append k code (I ∷ B) new)
  ]

  heads-insert_entry : (Bs : List Block) → map (heads k) (insert_entry code Bs) ≡ map (heads k) Bs
  unfolding insert_entry
  heads-insert_entry [] = refl
  heads-insert_entry (B ∷ Bs) = ap (λ H. H ∷ map (heads k) Bs) (heads-insert_first B)

  heads-insert_before : (a : ℕ) (B : Block) → heads k (insert_before a code B) ≡ heads k B
  unfolding insert_before
  heads-insert_before a [] = refl
  heads-insert_before a (I ∷ B) = elim (Bool-cases (I.id == a)) [
    | inl here ↦ rw (here, insert_before) (heads-append k code (I ∷ B) new)
    | inr later ↦
        rw (later, insert_before)
          (ap (λ H. if ltb I.id k then (I.id, I.opcode) ∷ H else H) (heads-insert_before a B))
  ]

  heads-place_code : (a : ℕ) (B : Block) → heads k (place_code a code B) ≡ heads k B
  unfolding place_code
  heads-place_code a B = elim (Bool-cases (any (λ (I : Instruction). I.id == a && is_phi I) B)) [
    | inl merge ↦ rw (merge, place_code) (heads-insert_first B)
    | inr plain ↦ rw (plain, place_code) (heads-insert_before a B)
  ]

  heads-placed :
      (a : ℕ) (Bs : List Block) → map (heads k) (map (place_code a code) Bs) ≡ map (heads k) Bs
  heads-placed a [] = refl
  heads-placed a (B ∷ Bs) = rw (heads-place_code a B, heads-placed a Bs) refl

-- The opcode of the call site becomes a call of the clone.
abbrev pub reset : ℕ → ℕ → ℕ × Opcode → ℕ × Opcode
reset address new_callee (a, o) =
    if a == address then (a, call (some (Callee.function new_callee))) else (a, o)

module _ (address index new_callee : ℕ) (thunk : Value) (k : ℕ) where
  heads_set :
      (B : Block)
      → heads k (map (set_call address index (Callee.function new_callee) thunk) B)
        ≡ map (reset address new_callee) (heads k B)
  unfolding set_call
  heads_set [] = refl
  heads_set (I ∷ B) = ground (arith, heads_set B)

-- The heads below a smaller address.
cut : ℕ → List (ℕ × Opcode) → List (ℕ × Opcode)
cut k [] = []
cut k ((a, o) ∷ H) = if ltb a k then (a, o) ∷ cut k H else cut k H

cut-heads : (k n : ℕ) (B : Block) → k ≤ n → cut k (heads n B) ≡ heads k B
unfolding cut
cut-heads k n [] h = refl
cut-heads k n (I ∷ B) h = ground (arith, cut-heads k n B h)

cut_blocks : (k n : ℕ) (Bs : List Block) → k ≤ n → map (cut k) (map (heads n) Bs) ≡ map (heads k) Bs
cut_blocks k n [] h = refl
cut_blocks k n (B ∷ Bs) h = rw (cut-heads k n B h, cut_blocks k n Bs h) refl

heads_set_blocks :
    (address index new_callee : ℕ) (thunk : Value) (k : ℕ) (Bs : List Block)
    → map (heads k) (map (map (set_call address index (Callee.function new_callee) thunk)) Bs)
      ≡ map (map (reset address new_callee)) (map (heads k) Bs)
heads_set_blocks address index new_callee thunk k [] = refl
heads_set_blocks address index new_callee thunk k (B ∷ Bs) =
    rw
      (
        heads_set address index new_callee thunk k B,
        heads_set_blocks address index new_callee thunk k Bs,
      )
      refl

-- Where the lazified value is at an address below n: the caller keeps its instructions below n in
-- their blocks, their order and with their opcodes, but that the call site calls the clone; and no
-- instruction of the caller, nor of the thunk's initialization, uses the lazified value.
pub lazify_caller_lem :
    (memo : Bool) (address index lazyfiable_arg delegate_function new_callee : ℕ) (args : List ℕ)
    (n : ℕ) (F : Function)
    → lazyfiable_arg < n
    → (let lazified =
          (lazify_caller memo address index lazyfiable_arg delegate_function new_callee args n
            F).blocks in
        (map (heads n) lazified ≡ map (map (reset address new_callee)) (map (heads n) F.blocks))
        × All
            (All (IsFree (suc n + (2 + length args) + (2 + length args)) (inst lazyfiable_arg)))
            lazified)
unfolding lazify_caller prepare_caller finish_caller
lazify_caller_lem memo address index a d new_callee args n F old =
    let thunk = inst n in
    let gep = suc n in
    let stores = gep + (2 + length args) in
    let next = stores + (2 + length args) in
    let init = lower thunk thunk stores (generate_thunk_initialization_code memo d args gep) in
    let made = (record { id = n; opcode = alloca; operands = [] } ∷ []) in
    let entered = insert_entry made F.blocks in
    let placed = map (place_code a init) entered in
    let called = map (map (set_call address index (Callee.function new_callee) thunk)) placed in
    let new_init =
      lower-IsNew thunk thunk n stores (generate_thunk_initialization_code memo d args gep)
        (omega arith) (generated-IsAbove n gep memo d args (omega arith)) in
    let G : Function = record F { blocks = called } in
    let R = update_thunk_arg_uses false thunk (Callee.function d) (inst a) next G in
    (
      sym (cut_blocks n next R.blocks (omega arith))
          ∙ ap (map (cut n))
              (heads-update_thunk_arg_uses false thunk (Callee.function d) (inst a) next G)
          ∙ cut_blocks n next called (omega arith)
          ∙ heads_set_blocks address index new_callee thunk n placed
          ∙ ap (map (map (reset address new_callee))) (
              heads-placed n init new_init a entered
              ∙ heads-insert_entry n made (omega arith, tt) F.blocks),
      update_thunk_arg_uses_lem false thunk (Callee.function d) (inst a) next G
          (omega (arith, old)),
    )
