-- ===== src/ProgramSlice/Dependences/Closure.antt =====
-- What `get_data_dependences_for` of passes/ProgramSlice.cpp computes: the values that the criterion
-- depends on.
use mathlib.Core.List.Memᴰ
use wyvern.Base.{ℕ, ◌≡◌, refl, sym, subst, ◌⊎◌, inl, inr, ⊎_elim, true, List, ◌∷◌, Memᴰ, none, some}
use wyvern.Base.Map.{Set, contains, add, contains_self, contains_kept, nat_order}
use wyvern.Ir.{Value, Instruction, Function}
use wyvern.ProgramSlice.Dependences.Pushes.{
  Pushed, push_operands-Pushed, Gated, push_gates-Gated, of_added,
}
use wyvern.ProgramSlice.Dependences.{
  value_order, as_instruction, is_local, push_operands, push_gates, add_blocks, Search, Gates,
  incoming, gates_for,
}

module _ (F : Function) (gates : Gates) where
  -- v uses u: as an operand, or as a gate of the phi node that v is.
  pub data Needs (v u : Value) : Type 0 where
    operand :
        {b : ℕ} {I : Instruction}
        → as_instruction F v ≡ some (b, I)
        → Memᴰ u I.operands
        → is_local u ≡ true
        → Needs v u
    gate :
        {b : ℕ} {I : Instruction}
        → as_instruction F v ≡ some (b, I)
        → Memᴰ (some u) (gates_for gates b I.opcode)
        → Needs v u

  pub data Depends (root : Value) : Value → Type 0 where
    itself : Depends root root
    via : {v u : Value} → Depends root v → Needs v u → Depends root u

module _ (F : Function) (gates : Gates) (root : Value) where
  abbrev pub IsKnown : Search → Value → Type 0
  IsKnown s v = Memᴰ v s.to_visit ⊎ (contains v s.deps ≡ true)

  pub record Inv (s : Search) : Type 0 where
    pub rooted : contains root s.deps ≡ true
    pub queue_sound : (v : Value) → Memᴰ v s.to_visit → Depends F gates root v
    pub deps_sound : (v : Value) → contains v s.deps ≡ true → Depends F gates root v
    pub marked : (v : Value) → contains v s.visited ≡ true → IsKnown s v
    pub closed :
        (u : Value)
        → contains u s.deps ≡ true
        → Memᴰ u s.to_visit ⊎ ((v : Value) → Needs F gates u v → IsKnown s v)

  -- What a round leaves known.
  module _ (s : Search) (cur : Value) (rest : List Value) (e : s.to_visit ≡ cur ∷ rest)
      (inv : Inv s) where
    from_queue :
        {P : Type 0} (v : Value) → Memᴰ v s.to_visit → (v ≡ cur → P) → (Memᴰ v rest → P) → P
    from_queue v m first later = ⊎_elim first later (Memᴰ.cases_cons (subst (Memᴰ v) e m))

    pub Inv-leaf :
        as_instruction F cur ≡ none → Inv (record s { deps = add cur s.deps; to_visit = rest })
    Inv-leaf leaf = record {
      rooted = contains_kept cur root s.deps inv.rooted;
      queue_sound = λ v m. inv.queue_sound v (subst (Memᴰ v) (sym e) (Memᴰ.tail m));
      deps_sound = λ v m.
          ⊎_elim (inv.deps_sound v) (λ q. inv.queue_sound v (subst (Memᴰ v) (sym e) (Memᴰ.head q)))
            (of_added v cur s.deps m);
      marked = λ v m. known v (inv.marked v m);
      closed = λ u m.
          ⊎_elim
            (λ old.
              ⊎_elim (λ q. from_queue u q (λ h. inr (no_needs u h)) inl)
                (λ done. inr (λ v n. known v (done v n))) (inv.closed u old))
            (λ h. inr (no_needs u h)) (of_added u cur s.deps m);
    }
      where
        known : (v : Value) → IsKnown s v → Memᴰ v rest ⊎ (contains v (add cur s.deps) ≡ true)
        known v k =
            ⊎_elim (λ q. from_queue v q (λ h. inr (rw h (contains_self cur s.deps))) inl)
              (λ m. inr (contains_kept cur v s.deps m)) k

        no_needs :
            (u : Value)
            → u ≡ cur
            → (v : Value) → Needs F gates u v
            → Memᴰ v rest ⊎ (contains v (add cur s.deps) ≡ true)
        no_needs u h v (operand found m l) = cc (found, rw (← h) at leaf)
        no_needs u h v (gate found m) = cc (found, rw (← h) at leaf)

    pub Inv-instruction :
        (b : ℕ) (I : Instruction)
        → as_instruction F cur ≡ some (b, I)
        → let r = push_operands I.operands s.visited rest in
          Inv (record s {
            deps = add cur s.deps;
            bbs = add_blocks (incoming I.opcode) (add b s.bbs);
            visited = r.0;
            to_visit = push_gates (gates_for gates b I.opcode) r.0 r.1;
          })
    Inv-instruction b I found = record {
      rooted = contains_kept cur root s.deps inv.rooted;
      queue_sound = λ v m.
          ⊎_elim
            (λ q.
              ⊎_elim (λ old. inv.queue_sound v (subst (Memᴰ v) (sym e) (Memᴰ.tail old)))
                (λ new. via at_cur (operand found new.0 new.1)) (p.pushed v q))
            (λ q. via at_cur (gate found q)) (g.pushed v m);
      deps_sound = λ v m. ⊎_elim (inv.deps_sound v) (λ q. rw q at_cur) (of_added v cur s.deps m);
      marked = mark_known;
      closed = λ u m.
          ⊎_elim
            (λ old.
              ⊎_elim (λ q. from_queue u q (λ h. inr (cur_needs u h)) (λ w. inl (wait u w)))
                (λ done. inr (λ v n. known v (done v n))) (inv.closed u old))
            (λ h. inr (cur_needs u h)) (of_added u cur s.deps m);
    }
      where
        r : Set Value × List Value
        r = push_operands I.operands s.visited rest

        queue : List Value
        queue = push_gates (gates_for gates b I.opcode) r.0 r.1

        p : Pushed I.operands s.visited rest r
        p = push_operands-Pushed I.operands s.visited rest

        g : Gated (gates_for gates b I.opcode) r.0 r.1 queue
        g = push_gates-Gated (gates_for gates b I.opcode) r.0 r.1

        at_cur : Depends F gates root cur
        at_cur = inv.queue_sound cur (subst (Memᴰ cur) (sym e) (Memᴰ.head refl))

        wait : (v : Value) → Memᴰ v rest → Memᴰ v queue
        wait v w = g.waits v (p.waits v w)

        known : (v : Value) → IsKnown s v → Memᴰ v queue ⊎ (contains v (add cur s.deps) ≡ true)
        known v k =
            ⊎_elim
              (λ q.
                from_queue v q (λ h. inr (rw h (contains_self cur s.deps))) (λ w. inl (wait v w)))
              (λ m. inr (contains_kept cur v s.deps m)) k

        mark_known :
            (v : Value)
            → contains v r.0 ≡ true
            → Memᴰ v queue ⊎ (contains v (add cur s.deps) ≡ true)
        mark_known v m =
            ⊎_elim (λ old. known v (inv.marked v old)) (λ q. inl (g.waits v q)) (p.marked v m)

        cur_needs :
            (u : Value)
            → u ≡ cur
            → (v : Value) → Needs F gates u v
            → Memᴰ v queue ⊎ (contains v (add cur s.deps) ≡ true)
        cur_needs u h v (operand {b = c} {I = K} at m l) =
            let same : (c, K) ≡ (b, I) = cc (rw h at at, found) in
            mark_known v
              (p.covered v (subst (λ (x : ℕ × Instruction). Memᴰ v x.1.operands) same m) l)
        cur_needs u h v (gate {b = c} {I = K} at m) =
            let same : (c, K) ≡ (b, I) = cc (rw h at at, found) in
            ⊎_elim inl (mark_known v) (
              g.covered v (
                subst (λ (x : ℕ × Instruction). Memᴰ (some v) (gates_for gates x.0 x.1.opcode)) same
                  m))
