-- ===== src/ProgramSlice/Delegate/Reroute/Routed.antt =====
-- What the edits of `rerouteBranches`, passes/ProgramSlice.cpp, keep of every block of a delegate.
use wyvern.Base.{
  ℕ, ◌≡◌, refl, sym, ap, ◌∙◌, subst, inl, inr, true, List, [], ◌∷◌, Option, none, some, map, arith,
  ◌==◌, ==_iff, All, Bool-cases, Option-cases,
}
use wyvern.Base.Map
use wyvern.Base.Map.{contains, nat_order, find-modify}
use wyvern.Ir.{Function}
use wyvern.ProgramSlice.Control.{DomTree}
use wyvern.ProgramSlice.Outline.{Slice}
use wyvern.ProgramSlice.Delegate.{Label, copy, Kind, Clone, Blocks}
use wyvern.ProgramSlice.Delegate.Reroute.{
  terminator, labels, add_branch, set_labels, set_successors, update_phis, cut_kind, cut_clone,
  cut_uses, new_target,
}
use wyvern.ProgramSlice.Delegate.Reroute.Edits.{
  terminator-update_phis, terminator-cut, terminator-add_branch, add_branch-closed_block,
  terminator-set_successors,
}
use wyvern.ProgramSlice.Delegate.Reroute.Targets.{
  IsInside, IsValid, target, map-target_self, map-target-cut_label, map-cut_label-IsInside,
  map-cut_label-IsValid, labels-cut_kind, labels-set_labels, All-IsValid,
}

module _ (F : Function) (S : Slice) (DT : DomTree) (attractors : List (Option ℕ)) where
  -- A block before and after: successors stay inside the delegate, stay blocks, and keep their
  -- targets; a terminator stays.
  pub record Routed (cs cs' : List Clone) : Type 0 where
    pub closed :
        All (IsInside F S DT attractors) (labels (terminator cs))
        → All (IsInside F S DT attractors) (labels (terminator cs'))
    pub valid :
        All (IsValid F S DT attractors) (labels (terminator cs))
        → All (IsValid F S DT attractors) (labels (terminator cs'))
    pub kept :
        (k : Kind)
        → terminator cs ≡ some k
        → (k' : Kind) × (terminator cs' ≡ some k')
          × (map (target F S DT attractors) (labels (some k'))
              ≡ map (target F S DT attractors) (labels (some k)))

  pub Routed-refl : (cs : List Clone) → Routed cs cs
  Routed-refl cs = record { closed = λ i. i; valid = λ v. v; kept = λ k e. (k, e, refl) }

  pub Routed-trans : (a b c : List Clone) → Routed a b → Routed b c → Routed a c
  Routed-trans a b c p q = record {
    closed = λ i. q.closed (p.closed i);
    valid = λ v. q.valid (p.valid v);
    kept = λ k e.
        let (k', e', same) = p.kept k e in
        let (k'', e'', same') = q.kept k' e' in (k'', e'', same' ∙ same);
  }

  -- Every block of the later blocks was there, and is a block before and after.
  abbrev pub Refines : Blocks → Blocks → Type 0
  Refines B B' =
      (k : ℕ) (cs' : List Clone)
      → Map.find k B' ≡ some cs'
      → (cs : List Clone) × (Map.find k B ≡ some cs) × Routed cs cs'

  pub Refines-refl : (B : Blocks) → Refines B B
  Refines-refl B k cs e = (cs, e, Routed-refl cs)

  pub Refines-trans : (A B C : Blocks) → Refines A B → Refines B C → Refines A C
  Refines-trans A B C p q k cs e =
      let (cs', e', r') = q k cs e in
      let (cs'', e'', r'') = p k cs' e' in (cs'', e'', Routed-trans cs'' cs' cs r'' r')

  -- A change of one block.
  pub modify-Refines :
      (j : ℕ) (f : List Clone → List Clone) (B : Blocks)
      → ((cs : List Clone) → Map.find j B ≡ some cs → Routed cs (f cs))
      → Refines B (Map.modify j f B)
  modify-Refines j f B h k cs' e = elim (Bool-cases (j == k)) [
    | inl hit ↦
        let same : j ≡ k = (==_iff j k).0 hit in
        elim (Option-cases (Map.find k B)) [
          | inl n ↦ ground (arith, find-modify j k f B)
          | inr (cs, at) ↦
              let after : f cs ≡ cs' = ground (arith, find-modify j k f B) in
              (cs, at, subst (Routed cs) after (h cs (rw same at)))
        ]
    | inr miss ↦ (cs', ground (arith, find-modify j k f B), Routed-refl cs')
  ]

  pub update_phis-Routed : (f : Label → Label) (cs : List Clone) → Routed cs (update_phis f cs)
  update_phis-Routed f cs =
      let same = terminator-update_phis f cs in
      record { closed = λ i. rw same i; valid = λ v. rw same v; kept = λ k e. (k, same ∙ e, refl) }

  -- A branch is only added to a block that has no terminator.
  pub add_branch-Routed :
      (t : ℕ) (cs : List Clone) → contains t S.bbs ≡ true → Routed cs (add_branch (copy t) cs)
  add_branch-Routed t cs m = elim (Option-cases (terminator cs)) [
    | inl open_end ↦
        let added = terminator-add_branch (copy t) cs open_end in
        record {
          closed = λ _. rw added (m, tt);
          valid = λ _. rw added (m, tt);
          kept = λ k e. cc (open_end, e);
        }
    | inr (k, e) ↦
        subst (Routed cs) (sym (add_branch-closed_block (copy t) cs k e)) (Routed-refl cs)
  ]

  pub cut-Routed :
      (s : ℕ) (cs : List Clone)
      → new_target F S DT attractors s ≡ none
      → Routed cs (map (cut_clone s) cs)
  cut-Routed s cs lost =
      let cut = terminator-cut s cs in
      elim (Option-cases (terminator cs)) [
        | inl open_end ↦
            let after : terminator (map (cut_clone s) cs) ≡ none = rw open_end at cut in
            record {
              closed = λ i. rw after tt;
              valid = λ i. rw after tt;
              kept = λ k e. cc (open_end, e);
            }
        | inr (k, e) ↦
            let after : terminator (map (cut_clone s) cs) ≡ some (cut_kind s k) = rw e at cut in
            record {
              closed = λ i.
                  rw (after, labels-cut_kind F S DT attractors s k)
                    (map-cut_label-IsInside F S DT attractors s (labels (some k)) (rw e at i));
              valid = λ i.
                  rw (after, labels-cut_kind F S DT attractors s k)
                    (map-cut_label-IsValid F S DT attractors s (labels (some k)) (rw e at i));
              kept = λ j f.
                  let same : k ≡ j = cc (e, f) in
                  (
                    cut_kind s k,
                    after,
                    ap (map (target F S DT attractors)) (labels-cut_kind F S DT attractors s k)
                        ∙ map-target-cut_label F S DT attractors s lost (labels (some k))
                        ∙ ap (λ (x : Kind). map (target F S DT attractors) (labels (some x))) same,
                  );
            }
      ]

  pub find-cut_uses :
      (s k : ℕ) (B : Blocks) (cs' : List Clone)
      → Map.find k (cut_uses s B) ≡ some cs'
      → (cs : List Clone) × (Map.find k B ≡ some cs) × (map (cut_clone s) cs ≡ cs')
  unfolding cut_uses Map.find
  find-cut_uses s k [] cs' e = cc e
  find-cut_uses s k ((b, cs) ∷ rest) cs' e = elim (Bool-cases (b == k)) [
    | inl hit ↦ rw hit (cs, refl, cc (rw hit at e))
    | inr miss ↦ rw miss (find-cut_uses s k rest cs' (rw miss at e))
  ]

  pub cut_uses-Refines :
      (s : ℕ) (B : Blocks) → new_target F S DT attractors s ≡ none → Refines B (cut_uses s B)
  cut_uses-Refines s B lost k cs' e =
      let (cs, at, same) = find-cut_uses s k B cs' e in
      (cs, at, subst (Routed cs) same (cut-Routed s cs lost))

  -- The terminator of a block gets the targets of its successors.
  pub set_successors-Routed :
      (ls : List Label) (cs : List Clone) (k : Kind)
      → terminator cs ≡ some k
      → map (target F S DT attractors) (labels (some k)) ≡ ls
      → All (IsInside F S DT attractors) ls
      → Routed cs (set_successors ls cs) × (labels (terminator (set_successors ls cs)) ≡ ls)
  set_successors-Routed ls cs k e same inside =
      let T = target F S DT attractors in
      let after : terminator (set_successors ls cs) ≡ some (set_labels ls k) =
        rw e at (terminator-set_successors ls cs) in
      let got = labels-set_labels F S DT attractors ls k same in
      let fixed = map-target_self F S DT attractors ls inside in
      (
        record {
          closed = λ _. rw (after, got) inside;
          valid = λ _. rw (after, got) (All-IsValid F S DT attractors ls inside);
          kept = λ j f.
              let one : k ≡ j = cc (e, f) in
              (
                set_labels ls k,
                after,
                ap (map T) got ∙ fixed ∙ sym same ∙ ap (λ (x : Kind). map T (labels (some x))) one,
              );
        },
        ap labels after ∙ got,
      )
