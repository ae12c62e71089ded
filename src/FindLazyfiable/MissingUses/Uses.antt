-- ===== src/FindLazyfiable/MissingUses/Uses.antt =====
-- The blocks that `addMissingUses` of passes/FindLazyfiable.cpp gives uses to.
use mathlib.Core.List.Memᴰ
use wyvern.Base.{
  ◌++◌, ℕ, zero, suc, ◌≡◌, refl, ap, ◌∙◌, ◌<◌, ◌≢◌, Bool, false, ◌&&◌, ◌||◌, List, [], ◌∷◌, ◌==◌,
  length, get_or, arith, Memᴰ, true, some, get_elem?, ◌↔◌, ◌⊎◌, inl, inr, ⊎_elim, ==_iff,
  Bool-cases, sym,
}
use wyvern.Ir.{
  Value, argument, Instruction, Block, Function, block_at, last, successors, inst, constant, phi,
  Opcode,
}
use wyvern.FindLazyfiable.{has_operand, has_use}
use wyvern.FindLazyfiable.MissingUses.{
  missing_uses, insert_before_last, insert_at, dummy_call, add_uses, add_missing_uses_in,
  argument_edges, phi_uses,
}

-- Argument i flows from block b into a phi node, by the list of such flows.
unfoldable pub flows : ℕ → ℕ → List (ℕ × ℕ) → Bool
flows i b [] = false
flows i b ((c, j) ∷ uses) = (b == c && i == j) || flows i b uses

-- A phi node takes argument i for the edge from block b.
abbrev pub Flows : List Block → ℕ → ℕ → Type 0
Flows blocks i b =
    (BB : Block) × (I : Instruction) × (bs : List ℕ) × (n : ℕ) × Memᴰ BB blocks
    × Memᴰ I BB
    × (I.opcode ≡ phi bs)
    × (get_elem? I.operands n ≡ some (argument i))
    × (get_elem? bs n ≡ some b)

flows_iff : (i b : ℕ) (uses : List (ℕ × ℕ)) → (flows i b uses ≡ true) ↔ Memᴰ (b, i) uses
unfolding flows
flows_iff i b [] = (λ e. cc e, λ m. absurd (Memᴰ.not-nil m))
flows_iff i b ((c, j) ∷ uses) = (
  λ e. elim (Bool-cases (b == c && i == j)) [
    | inl hit ↦
        let same_b : b ≡ c = ground arith in
        let same_i : i ≡ j = ground arith in Memᴰ.head (rw (same_b, same_i) refl)
    | inr miss ↦ Memᴰ.tail ((flows_iff i b uses).0 (rw miss at e))
  ],
  λ m.
      ⊎_elim
        (λ e.
          let same_b : b ≡ c = ap (λ (x : ℕ × ℕ). x.0) e in
          let same_i : i ≡ j = ap (λ (x : ℕ × ℕ). x.1) e in
          ground (arith, (==_iff b c).1 same_b, (==_iff i j).1 same_i))
        (λ q. ground (arith, (flows_iff i b uses).1 q)) (Memᴰ.cases_cons m),
)

argument_edges_sound :
    (i b : ℕ) (vs : List Value) (bs : List ℕ)
    → Memᴰ (b, i) (argument_edges vs bs)
    → (n : ℕ) × (get_elem? vs n ≡ some (argument i)) × (get_elem? bs n ≡ some b)
unfolding argument_edges
argument_edges_sound i b [] bs m = absurd (Memᴰ.not-nil m)
argument_edges_sound i b (v ∷ vs) [] m = absurd (Memᴰ.not-nil m)
argument_edges_sound i b (argument j ∷ vs) (c ∷ bs) m =
    ⊎_elim
      (λ e.
        (0, ap (λ (x : ℕ × ℕ). some (argument x.1)) (sym e), ap (λ (x : ℕ × ℕ). some x.0) (sym e)))
      (λ q. let (n, p, r) = argument_edges_sound i b vs bs q in (suc n, p, r)) (Memᴰ.cases_cons m)
argument_edges_sound i b (inst a ∷ vs) (c ∷ bs) m =
    let (n, p, r) = argument_edges_sound i b vs bs m in (suc n, p, r)
argument_edges_sound i b (constant a ∷ vs) (c ∷ bs) m =
    let (n, p, r) = argument_edges_sound i b vs bs m in (suc n, p, r)

same_flow :
    (i j b c : ℕ)
    → some (argument j) ≡ some (argument i)
    → some c ≡ some b
    → ◌≡◌ {A = ℕ × ℕ} (b, i) (c, j)
same_flow i j b c p q = let e : j ≡ i = cc p in let f : c ≡ b = cc q in rw (e, f) refl

argument_edges_complete :
    (i b n : ℕ) (vs : List Value) (bs : List ℕ)
    → get_elem? vs n ≡ some (argument i)
    → get_elem? bs n ≡ some b
    → Memᴰ (b, i) (argument_edges vs bs)
unfolding argument_edges
argument_edges_complete i b n [] bs p q = cc p
argument_edges_complete i b n (v ∷ vs) [] p q = cc q
argument_edges_complete i b zero (argument j ∷ vs) (c ∷ bs) p q = Memᴰ.head (same_flow i j b c p q)
argument_edges_complete i b zero (inst a ∷ vs) (c ∷ bs) p q = cc p
argument_edges_complete i b zero (constant a ∷ vs) (c ∷ bs) p q = cc p
argument_edges_complete i b (suc n) (argument j ∷ vs) (c ∷ bs) p q =
    Memᴰ.tail (argument_edges_complete i b n vs bs p q)
argument_edges_complete i b (suc n) (inst a ∷ vs) (c ∷ bs) p q =
    argument_edges_complete i b n vs bs p q
argument_edges_complete i b (suc n) (constant a ∷ vs) (c ∷ bs) p q =
    argument_edges_complete i b n vs bs p q

-- The same within a block.
abbrev BlockFlows : Block → ℕ → ℕ → Type 0
BlockFlows BB i b =
    (I : Instruction) × (bs : List ℕ) × (n : ℕ) × Memᴰ I BB
    × (I.opcode ≡ phi bs)
    × (get_elem? I.operands n ≡ some (argument i))
    × (get_elem? bs n ≡ some b)

later_block : (I : Instruction) (BB : Block) (i b : ℕ) → BlockFlows BB i b → BlockFlows (I ∷ BB) i b
later_block I BB i b (J, bs, n, m, e, p, r) = (J, bs, n, Memᴰ.tail m, e, p, r)

phi_uses_sound_at :
    (o : Opcode) (I : Instruction) (BB : Block) (i b : ℕ)
    → I.opcode ≡ o
    → (Memᴰ (b, i) (phi_uses BB) → BlockFlows BB i b)
    → Memᴰ
        (b, i)
        (elim o [ phi bs ↦ argument_edges I.operands bs ++ phi_uses BB | _ ↦ phi_uses BB ])
    → BlockFlows (I ∷ BB) i b
phi_uses_sound_at (phi bs) I BB i b e later m =
    ⊎_elim
      (λ q.
        let (n, p, r) = argument_edges_sound i b I.operands bs q in
        (I, bs, n, Memᴰ.head refl, e, p, r))
      (λ q. later_block I BB i b (later q)) (Memᴰ.append_cases (argument_edges I.operands bs) m)
phi_uses_sound_at _ I BB i b e later m = later_block I BB i b (later m)

phi_uses_complete_at :
    (o : Opcode) (I : Instruction) (BB : Block) (i b : ℕ)
    → ((bs : List ℕ) × (n : ℕ) × (o ≡ phi bs)
        × (get_elem? I.operands n ≡ some (argument i))
        × (get_elem? bs n ≡ some b))
      ⊎ Memᴰ (b, i) (phi_uses BB)
    → Memᴰ
        (b, i)
        (elim o [ phi bs ↦ argument_edges I.operands bs ++ phi_uses BB | _ ↦ phi_uses BB ])
phi_uses_complete_at (phi cs) I BB i b (inl (bs, n, e, p, r)) =
    let same : bs ≡ cs = cc e in
    Memᴰ.append_left (phi_uses BB)
      (argument_edges_complete i b n I.operands cs p (ap (λ xs. get_elem? xs n) (sym same) ∙ r))
phi_uses_complete_at (phi cs) I BB i b (inr m) = Memᴰ.append_right (argument_edges I.operands cs) m
phi_uses_complete_at _ I BB i b (inl (bs, n, e, p, r)) = cc e
phi_uses_complete_at _ I BB i b (inr m) = m

phi_uses_iff : (BB : Block) (i b : ℕ) → Memᴰ (b, i) (phi_uses BB) ↔ BlockFlows BB i b
unfolding phi_uses
phi_uses_iff [] i b =
    (λ m. absurd (Memᴰ.not-nil m), λ (I, bs, n, m, e, p, r). absurd (Memᴰ.not-nil m))
phi_uses_iff (I ∷ BB) i b = (
  phi_uses_sound_at I.opcode I BB i b refl (phi_uses_iff BB i b).0,
  λ (J, bs, n, m, e, p, r). phi_uses_complete_at I.opcode I BB i b (
      ⊎_elim
        (λ q. inl (
          bs,
          n,
          ap (λ (x : Instruction). x.opcode) (sym q) ∙ e,
          ap (λ (x : Instruction). get_elem? x.operands n) (sym q) ∙ p,
          r,
        ))
        (λ q. inr ((phi_uses_iff BB i b).1 (J, bs, n, q, e, p, r))) (Memᴰ.cases_cons m)),
)

pub missing_uses_iff :
    (blocks : List Block) (i b : ℕ) → Memᴰ (b, i) (missing_uses blocks) ↔ Flows blocks i b
unfolding missing_uses
missing_uses_iff [] i b =
    (λ m. absurd (Memᴰ.not-nil m), λ (BB, I, bs, n, m, q, e, p, r). absurd (Memᴰ.not-nil m))
missing_uses_iff (BB ∷ rest) i b = (
  λ m.
      ⊎_elim
        (λ q.
          let (I, bs, n, in_BB, e, p, r) = (phi_uses_iff BB i b).0 q in
          (BB, I, bs, n, Memᴰ.head refl, in_BB, e, p, r))
        (λ q.
          let (CC, I, bs, n, there, in_CC, e, p, r) = (missing_uses_iff rest i b).0 q in
          (CC, I, bs, n, Memᴰ.tail there, in_CC, e, p, r))
        (Memᴰ.append_cases (phi_uses BB) m),
  λ (CC, I, bs, n, there, in_CC, e, p, r).
      ⊎_elim
        (λ q.
          Memᴰ.append_left (missing_uses rest)
            ((phi_uses_iff BB i b).1 (I, bs, n, rw (← q) in_CC, e, p, r)))
        (λ q.
          Memᴰ.append_right (phi_uses BB)
            ((missing_uses_iff rest i b).1 (CC, I, bs, n, q, in_CC, e, p, r)))
        (Memᴰ.cases_cons there),
)

-- No block is empty: each ends in its terminator.
abbrev pub IsFilled : List Block → Type 0
IsFilled [] = Unit
IsFilled (BB ∷ rest) = (BB ≢ []) × IsFilled rest

has_use-insert_before_last :
    (v : Value) (C : Instruction) (BB : Block)
    → BB ≢ []
    → has_use v (insert_before_last C BB) ≡ (has_use v (C ∷ []) || has_use v BB)
unfolding has_use insert_before_last
has_use-insert_before_last v C [] h = absurd (h refl)
has_use-insert_before_last v C (I ∷ []) h = ground arith
has_use-insert_before_last v C (I ∷ I' ∷ rest) h =
    ground (arith, has_use-insert_before_last v C (I' ∷ rest) (λ e. cc))

last-insert_before_last : (C : Instruction) (BB : Block) → last (insert_before_last C BB) ≡ last BB
unfolding insert_before_last
last-insert_before_last C [] = refl
last-insert_before_last C (I ∷ []) = refl
last-insert_before_last C (I ∷ I' ∷ []) = refl
last-insert_before_last C (I ∷ I' ∷ K ∷ rest) = last-insert_before_last C (I' ∷ K ∷ rest)

insert_before_last-ne-nil : (C : Instruction) (BB : Block) → BB ≢ [] → insert_before_last C BB ≢ []
unfolding insert_before_last
insert_before_last-ne-nil C [] h e = h refl
insert_before_last-ne-nil C (I ∷ []) h e = cc
insert_before_last-ne-nil C (I ∷ I' ∷ rest) h e = cc

pub insert_at-IsFilled :
    (b : ℕ) (C : Instruction) (blocks : List Block)
    → IsFilled blocks
    → IsFilled (insert_at b C blocks)
unfolding insert_at
insert_at-IsFilled b C [] h = tt
insert_at-IsFilled zero C (BB ∷ rest) h = (insert_before_last-ne-nil C BB h.0, h.1)
insert_at-IsFilled (suc b) C (BB ∷ rest) h = (h.0, insert_at-IsFilled b C rest h.1)

last-insert_at :
    (b c : ℕ) (C : Instruction) (blocks : List Block)
    → last (get_or (insert_at b C blocks) c []) ≡ last (get_or blocks c [])
unfolding insert_at
last-insert_at b c C [] = refl
last-insert_at zero zero C (BB ∷ rest) = last-insert_before_last C BB
last-insert_at zero (suc c) C (BB ∷ rest) = refl
last-insert_at (suc b) zero C (BB ∷ rest) = refl
last-insert_at (suc b) (suc c) C (BB ∷ rest) = last-insert_at b c C rest

pub length-insert_at :
    (b : ℕ) (C : Instruction) (blocks : List Block) → length (insert_at b C blocks) ≡ length blocks
unfolding insert_at
length-insert_at b C [] = refl
length-insert_at zero C (BB ∷ rest) = refl
length-insert_at (suc b) C (BB ∷ rest) = ap suc (length-insert_at b C rest)

has_use-insert_at :
    (v : Value) (b c : ℕ) (C : Instruction) (blocks : List Block)
    → IsFilled blocks
    → c < length blocks
    → has_use v (get_or (insert_at b C blocks) c [])
      ≡ ((c == b && has_use v (C ∷ [])) || has_use v (get_or blocks c []))
unfolding insert_at
has_use-insert_at v b c C [] f h = absurd (omega arith)
has_use-insert_at v zero zero C (BB ∷ rest) f h = has_use-insert_before_last v C BB f.0
has_use-insert_at v zero (suc c) C (BB ∷ rest) f h = ground arith
has_use-insert_at v (suc b) zero C (BB ∷ rest) f h = ground arith
has_use-insert_at v (suc b) (suc c) C (BB ∷ rest) f h =
    ground (arith, has_use-insert_at v b c C rest f.1)

module _ (fresh : ℕ) (types : List ℕ) where
  has_use-dummy_call : (i j : ℕ) → has_use (argument i) (dummy_call fresh types j ∷ []) ≡ (i == j)
  unfolding has_use dummy_call has_operand
  has_use-dummy_call i j = ground arith

  has_use-add_uses :
      (i c : ℕ) (uses : List (ℕ × ℕ)) (blocks : List Block)
      → IsFilled blocks
      → c < length blocks
      → has_use (argument i) (get_or (add_uses fresh types uses blocks) c [])
        ≡ (flows i c uses || has_use (argument i) (get_or blocks c []))
  unfolding add_uses flows
  has_use-add_uses i c [] blocks f h = refl
  has_use-add_uses i c ((b, j) ∷ uses) blocks f h = ground (
    arith,
    has_use-add_uses i c uses (insert_at b (dummy_call fresh types j) blocks)
        (insert_at-IsFilled b (dummy_call fresh types j) blocks f)
        (omega (arith, length-insert_at b (dummy_call fresh types j) blocks)),
    has_use-insert_at (argument i) b c (dummy_call fresh types j) blocks f h,
    has_use-dummy_call i j,
  )

  last-add_uses :
      (c : ℕ) (uses : List (ℕ × ℕ)) (blocks : List Block)
      → last (get_or (add_uses fresh types uses blocks) c []) ≡ last (get_or blocks c [])
  unfolding add_uses
  last-add_uses c [] blocks = refl
  last-add_uses c ((b, j) ∷ uses) blocks =
      last-add_uses c uses (insert_at b (dummy_call fresh types j) blocks)
      ∙ last-insert_at b c (dummy_call fresh types j) blocks

-- Where no block is empty: after `addMissingUses` a block uses an argument if and only if it did
-- before, or a phi node takes the argument for the edge from this block; and the control-flow graph is
-- what it was.
pub add_missing_uses_lem :
    (fresh : ℕ) (F : Function) (i b : ℕ)
    → IsFilled F.blocks
    → b < length F.blocks
    → ((has_use (argument i) (block_at (add_missing_uses_in fresh F) b) ≡ true)
        ↔ (Flows F.blocks i b ⊎ (has_use (argument i) (block_at F b) ≡ true)))
      × (successors (add_missing_uses_in fresh F) b ≡ successors F b)
unfolding add_missing_uses_in successors
add_missing_uses_lem fresh F i b f h =
    let uses = missing_uses F.blocks in
    let added = has_use-add_uses fresh F.arg_types i b uses F.blocks f h in
    let (to_member, of_member) = flows_iff i b uses in
    let (to_flow, of_flow) = missing_uses_iff F.blocks i b in
    (
      (
        λ e. elim (Bool-cases (flows i b uses)) [
          | inl flow ↦ inl (to_flow (to_member flow))
          | inr no_flow ↦ inr (ground (arith, added, e, no_flow))
        ],
        ⊎_elim (λ q. ground (arith, added, of_member (of_flow q))) (λ q. ground (arith, added, q)),
      ),
      rw (last-add_uses fresh F.arg_types b uses F.blocks),
    )
