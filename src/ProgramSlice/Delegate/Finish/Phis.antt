-- ===== src/ProgramSlice/Delegate/Finish/Phis.antt =====
-- What the loop of `updatePHINodes`, passes/ProgramSlice.cpp, does to a phi node.
use wyvern.Base.{
  ℕ, zero, suc, ◌+◌, ◌≤◌, ◌<◌, ◌≡◌, refl, ap, ◌∙◌, inl, inr, Bool, true, false, not, ◌||◌, [], ◌∷◌,
  ◌++◌, none, some, arith, if◌then◌else◌, get_elem?, length, length-append, append_assoc,
  Bool-cases, Option-cases, All, All-append,
}
use wyvern.ProgramSlice.Delegate.{Label, original, copy, unreachable_block, Operand}
use wyvern.ProgramSlice.Delegate.Finish.{
  ok, fault, stale_phi, same_label, Edges, remove_edge, prune_edges,
}

same_label_self : (l : Label) → same_label l l ≡ true
same_label_self (original a) = ground arith
same_label_self (copy a) = ground arith
same_label_self unreachable_block = refl

same_label_eq : (l m : Label) → same_label l m ≡ true → l ≡ m
same_label_eq (original a) m e = ground arith
same_label_eq (copy a) m e = ground arith
same_label_eq unreachable_block m e = ground arith

module _ (preds : Label → Bool) where
  -- The edges that come from predecessors.
  pub kept_edges : Edges → Edges
  kept_edges [] = []
  kept_edges ((l, v) ∷ rest) = if preds l then (l, v) ∷ kept_edges rest else kept_edges rest

  -- Whether an edge before the last one is from no predecessor.
  pub is_stale : Edges → Bool
  is_stale [] = false
  is_stale (e ∷ []) = false
  is_stale ((l, v) ∷ f ∷ rest) = not (preds l) || is_stale (f ∷ rest)

  abbrev Kept : Label × Operand → Type 0
  Kept e = preds e.0 ≡ true

  get_elem?-length :
      (done : Edges) (e : Label × Operand) (rest : Edges)
      → get_elem? (done ++ e ∷ rest) (length done) ≡ some e
  get_elem?-length [] e rest = refl
  get_elem?-length (d ∷ done) e rest = get_elem?-length done e rest

  get_elem?_beyond : (es : Edges) (i : ℕ) → length es ≤ i → get_elem? es i ≡ none
  get_elem?_beyond [] i h = refl
  get_elem?_beyond (e ∷ es) zero h = absurd (omega arith)
  get_elem?_beyond (e ∷ es) (suc i) h = get_elem?_beyond es i (omega arith)

  get_elem?-lt :
      (es : Edges) (i : ℕ) (e : Label × Operand) → get_elem? es i ≡ some e → i < length es
  get_elem?-lt [] i e h = cc h
  get_elem?-lt (x ∷ es) zero e h = omega arith
  get_elem?-lt (x ∷ es) (suc i) e h = omega (arith, get_elem?-lt es i e h)

  length-remove_edge : (l : Label) (es : Edges) → length (remove_edge l es) ≤ length es
  unfolding remove_edge
  length-remove_edge l [] = omega arith
  length-remove_edge l ((m, v) ∷ rest) = ground (arith, length-remove_edge l rest)

  -- Removing an edge that no edge before it is like.
  remove_edge-append :
      (l : Label) (v : Operand) (done rest : Edges)
      → preds l ≡ false
      → All Kept done
      → remove_edge l (done ++ (l, v) ∷ rest) ≡ done ++ rest
  unfolding remove_edge
  remove_edge-append l v [] rest out h = rw (same_label_self l) refl
  remove_edge-append l v ((m, w) ∷ done) rest out h = elim (Bool-cases (same_label l m)) [
    | inl e ↦ let same : l ≡ m = same_label_eq l m e in cc (out, rw (← same) at h.0)
    | inr e ↦
        rw (e, remove_edge) (ap (λ es. (m, w) ∷ es) (remove_edge-append l v done rest out h.1))
  ]

  -- More rounds than edges are left: the loop reads past the end.
  prune_edges_short :
      (left PI : ℕ) (es : Edges)
      → length es < suc left + PI
      → prune_edges preds (suc left) PI es ≡ fault stale_phi
  unfolding prune_edges
  prune_edges_short zero PI es h = rw (get_elem?_beyond es PI (omega arith), prune_edges) refl
  prune_edges_short (suc left) PI es h = elim (Option-cases (get_elem? es PI)) [
    | inl gone ↦ rw (gone, prune_edges) refl
    | inr ((l, v), at) ↦ elim (Bool-cases (preds l)) [
      | inl p ↦ rw (at, prune_edges, p) (prune_edges_short left (suc PI) es (omega arith))
      | inr p ↦
          rw (at, prune_edges, p)
            (prune_edges_short left (suc PI) (remove_edge l es)
              (omega (arith, length-remove_edge l es)))
    ]
  ]

  -- The loop where the edges before PI are from predecessors.
  prune_edges_from :
      (todo done : Edges)
      → All Kept done
      → prune_edges preds (length todo) (length done) (done ++ todo)
        ≡ (if is_stale todo then fault stale_phi else ok (done ++ kept_edges todo))
  unfolding prune_edges is_stale kept_edges
  prune_edges_from [] done h = refl
  prune_edges_from ((l, v) ∷ []) done h =
      let here = get_elem?-length done (l, v) [] in
      elim (Bool-cases (preds l)) [
        | inl p ↦ rw (here, prune_edges, p) refl
        | inr p ↦ rw (here, prune_edges, p) (ap ok (remove_edge-append l v done [] p h))
      ]
  prune_edges_from ((l, v) ∷ f ∷ rest) done h =
      let here = get_elem?-length done (l, v) (f ∷ rest) in
      elim (Bool-cases (preds l)) [
        | inl p ↦
            let next =
              prune_edges_from (f ∷ rest) (done ++ (l, v) ∷ [])
                (All-append Kept done ((l, v) ∷ []) h (p, tt)) in
            let size : length (done ++ (l, v) ∷ []) ≡ suc (length done) =
              omega (arith, length-append done ((l, v) ∷ [])) in
            let joined = append_assoc done ((l, v) ∷ []) (f ∷ rest) in
            let joined' = append_assoc done ((l, v) ∷ []) (kept_edges (f ∷ rest)) in
            rw (here, prune_edges, p) (rw (size, joined, joined') at next)
        | inr p ↦
            let all = done ++ (l, v) ∷ f ∷ rest in
            let count = suc (length rest) in
            let step : prune_edges preds (suc count) (length done) all
                ≡ prune_edges preds count (suc (length done)) (remove_edge l all) =
              rw (here, prune_edges, p) refl in
            let stale : is_stale ((l, v) ∷ f ∷ rest) ≡ true = rw p refl in
            step
            ∙ ap (prune_edges preds count (suc (length done)))
                (remove_edge-append l v done (f ∷ rest) p h)
            ∙ prune_edges_short (length rest) (suc (length done)) (done ++ f ∷ rest)
                (omega (arith, length-append done (f ∷ rest)))
            ∙ rw stale refl
      ]

  -- The loop of `updatePHINodes` reads past the end of the edges, whenever an edge before the last
  -- one is from no predecessor; otherwise it leaves the edges that are from predecessors.
  pub prune_edges_lem :
      (es : Edges)
      → prune_edges preds (length es) 0 es
        ≡ (if is_stale es then fault stale_phi else ok (kept_edges es))
  prune_edges_lem es = prune_edges_from es [] tt
