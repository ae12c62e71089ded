-- ===== src/ProgramSlice/Dependences/Blocks.antt =====
-- The blocks that `get_data_dependences_for` of passes/ProgramSlice.cpp collects.
use mathlib.Core.List.Memᴰ
use wyvern.Base.{
  ℕ, zero, suc, ◌≡◌, refl, ap, ◌∙◌, subst, ◌⊎◌, inl, inr, ⊎_elim, true, List, [], ◌∷◌, Memᴰ, none,
  some, arith, Option-cases,
}
use wyvern.Base.Map.{
  Set, contains, add, contains-add, contains-empty, contains_self, contains_kept, nat_order,
}
use wyvern.Ir.{Value, Instruction, Function}
use wyvern.ProgramSlice.Dependences.Pushes.{push_gates-Gated, push_operands-Pushed, of_added}
use wyvern.ProgramSlice.Dependences.{
  value_order, as_instruction, push_operands, push_gates, add_blocks, Search, Gates, incoming,
  gates_for, visit, rounds, first_search,
}

add_blocks-covers :
    (bs : List ℕ) (c : ℕ) (bbs : Set ℕ)
    → Memᴰ c bs ⊎ (contains c bbs ≡ true)
    → contains c (add_blocks bs bbs) ≡ true
unfolding add_blocks
add_blocks-covers [] c bbs (inl m) = absurd (Memᴰ.not-nil m)
add_blocks-covers [] c bbs (inr h) = h
add_blocks-covers (b ∷ bs) c bbs (inl m) =
    add_blocks-covers bs c (add b bbs)
      (⊎_elim (λ e. inr (rw e (contains_self b bbs))) inl (Memᴰ.cases_cons m))
add_blocks-covers (b ∷ bs) c bbs (inr h) =
    add_blocks-covers bs c (add b bbs) (inr (contains_kept b c bbs h))

of_added_block :
    (c b : ℕ) (bbs : Set ℕ) → contains c (add b bbs) ≡ true → (contains c bbs ≡ true) ⊎ (c ≡ b)
of_added_block c b bbs m = ground (arith, contains-add b c bbs)

of_added_blocks :
    (bs : List ℕ) (c : ℕ) (bbs : Set ℕ)
    → contains c (add_blocks bs bbs) ≡ true
    → Memᴰ c bs ⊎ (contains c bbs ≡ true)
unfolding add_blocks
of_added_blocks [] c bbs h = inr h
of_added_blocks (b ∷ bs) c bbs h =
    ⊎_elim (λ m. inl (Memᴰ.tail m))
      (λ q. ⊎_elim inr (λ e. inl (Memᴰ.head e)) (of_added_block c b bbs q))
      (of_added_blocks bs c (add b bbs) h)

-- c is the block of the instruction v, or v is a phi node and c one of its incoming blocks.
pub data IsBlockOf (F : Function) (v : Value) (c : ℕ) : Type 0 where
  parent : {b : ℕ} {I : Instruction} → as_instruction F v ≡ some (b, I) → c ≡ b → IsBlockOf F v c
  enters :
      {b : ℕ} {I : Instruction}
      → as_instruction F v ≡ some (b, I)
      → Memᴰ c (incoming I.opcode)
      → IsBlockOf F v c

module _ (F : Function) (gates : Gates) where
  pub record InvBlocks (s : Search) : Type 0 where
    pub sound :
        (c : ℕ)
        → contains c s.bbs ≡ true
        → (v : Value) × (contains v s.deps ≡ true) × IsBlockOf F v c
    pub covered :
        (u : Value)
        → contains u s.deps ≡ true
        → Memᴰ u s.to_visit ⊎ ((c : ℕ) → IsBlockOf F u c → contains c s.bbs ≡ true)

  module _ (s : Search) (cur : Value) (rest : List Value) (e : s.to_visit ≡ cur ∷ rest)
      (inv : InvBlocks s) where
    still_sound :
        (c : ℕ)
        → contains c s.bbs ≡ true
        → (v : Value) × (contains v (add cur s.deps) ≡ true) × IsBlockOf F v c
    still_sound c m = let (v, d, p) = inv.sound c m in (v, contains_kept cur v s.deps d, p)

    -- Every other value that the round has met waits, or has its blocks.
    others :
        (u : Value)
        → contains u (add cur s.deps) ≡ true
        → (u ≡ cur) ⊎ Memᴰ u rest ⊎ ((c : ℕ) → IsBlockOf F u c → contains c s.bbs ≡ true)
    others u m =
        ⊎_elim
          (λ old.
            ⊎_elim (λ q. ⊎_elim inl (λ w. inr (inl w)) (Memᴰ.cases_cons (subst (Memᴰ u) e q)))
              (λ done. inr (inr done)) (inv.covered u old))
          inl (of_added u cur s.deps m)

    leaf-InvBlocks :
        as_instruction F cur ≡ none
        → InvBlocks (record s { deps = add cur s.deps; to_visit = rest })
    leaf-InvBlocks leaf = record {
      sound = still_sound;
      covered = λ u m. ⊎_elim (λ h. inr (λ c p. none_of u h c p)) (λ q. q) (others u m);
    }
      where
        none_of : (u : Value) → u ≡ cur → (c : ℕ) → IsBlockOf F u c → contains c s.bbs ≡ true
        none_of u h c (parent at same) = cc (at, rw (← h) at leaf)
        none_of u h c (enters at m) = cc (at, rw (← h) at leaf)

    instruction-InvBlocks :
        (b : ℕ) (I : Instruction)
        → as_instruction F cur ≡ some (b, I)
        → let r = push_operands I.operands s.visited rest in
          InvBlocks (record s {
            deps = add cur s.deps;
            bbs = add_blocks (incoming I.opcode) (add b s.bbs);
            visited = r.0;
            to_visit = push_gates (gates_for gates b I.opcode) r.0 r.1;
          })
    instruction-InvBlocks b I found = record {
      sound = λ c m.
          ⊎_elim (λ q. (cur, contains_self cur s.deps, enters found q))
            (λ q.
              ⊎_elim (still_sound c) (λ same. (cur, contains_self cur s.deps, parent found same))
                (of_added_block c b s.bbs q))
            (of_added_blocks (incoming I.opcode) c (add b s.bbs) m);
      covered = λ u m.
          ⊎_elim (λ h. inr (λ c p. mine u h c p))
            (λ q.
              ⊎_elim
                (λ w. inl (
                  (push_gates-Gated (gates_for gates b I.opcode) r.0 r.1).waits u
                    ((push_operands-Pushed I.operands s.visited rest).waits u w)))
                (λ done. inr (λ c p. more c (done c p))) q)
            (others u m);
    }
      where
        r : Set Value × List Value
        r = push_operands I.operands s.visited rest

        more :
            (c : ℕ)
            → contains c s.bbs ≡ true
            → contains c (add_blocks (incoming I.opcode) (add b s.bbs)) ≡ true
        more c m =
            add_blocks-covers (incoming I.opcode) c (add b s.bbs) (inr (contains_kept b c s.bbs m))

        mine :
            (u : Value)
            → u ≡ cur
            → (c : ℕ) → IsBlockOf F u c
            → contains c (add_blocks (incoming I.opcode) (add b s.bbs)) ≡ true
        mine u h c (parent {b = d} {I = K} at same) =
            let eq : ◌≡◌ {A = ℕ × Instruction} (d, K) (b, I) = cc (rw h at at, found) in
            let here : c ≡ b = same ∙ ap (λ (x : ℕ × Instruction). x.0) eq in
            add_blocks-covers (incoming I.opcode) c (add b s.bbs)
              (inr (rw here (contains_self b s.bbs)))
        mine u h c (enters {b = d} {I = K} at m) =
            let eq : ◌≡◌ {A = ℕ × Instruction} (d, K) (b, I) = cc (rw h at at, found) in
            add_blocks-covers (incoming I.opcode) c (add b s.bbs)
              (inl (subst (λ (x : ℕ × Instruction). Memᴰ c (incoming x.1.opcode)) eq m))

  visit-InvBlocks :
      (s : Search) (cur : Value) (rest : List Value)
      → s.to_visit ≡ cur ∷ rest
      → InvBlocks s
      → InvBlocks (visit F gates cur rest s)
  unfolding visit
  visit-InvBlocks s cur rest e inv = elim (Option-cases (as_instruction F cur)) [
    | inl leaf ↦ rw (leaf, visit) (leaf-InvBlocks s cur rest e inv leaf)
    | inr ((b, I), found) ↦ rw (found, visit) (instruction-InvBlocks s cur rest e inv b I found)
  ]

  pub first_search-InvBlocks : (root : Value) → InvBlocks (first_search F gates root)
  unfolding first_search
  first_search-InvBlocks root = record {
    sound = λ c m. cc (contains-empty {K = ℕ} c, m);
    covered = λ u m.
        ⊎_elim (λ q. cc (contains-empty {K = Value} u, q)) (λ e. inl (Memᴰ.head e))
          (of_added u root [] m);
  }

  pub rounds-InvBlocks :
      (fuel : ℕ) (queue : List Value) (s t : Search)
      → s.to_visit ≡ queue
      → InvBlocks s
      → rounds F gates fuel queue s ≡ some t
      → InvBlocks t
  unfolding rounds
  rounds-InvBlocks fuel [] s t e inv h = let same : s ≡ t = cc in subst InvBlocks same inv
  rounds-InvBlocks zero (cur ∷ rest) s t e inv h = cc
  rounds-InvBlocks (suc fuel) (cur ∷ rest) s t e inv h =
      rounds-InvBlocks fuel (visit F gates cur rest s).to_visit (visit F gates cur rest s) t refl
        (visit-InvBlocks s cur rest e inv) h
