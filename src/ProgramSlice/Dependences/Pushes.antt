-- ===== src/ProgramSlice/Dependences/Pushes.antt =====
-- The two inner loops of `get_data_dependences_for`, passes/ProgramSlice.cpp.
use mathlib.Core.List.Memᴰ
use wyvern.Base.{
  ◌≡◌, ap, ◌⊎◌, inl, inr, ⊎_elim, true, not, ◌||◌, List, [], ◌∷◌, ◌++◌, Memᴰ, Option, none, some,
  arith, Bool-cases,
}
use wyvern.Base.Map.{Set, contains, add, contains-add, contains_self, contains_kept}
use wyvern.Ir.{Value}
use wyvern.ProgramSlice.Dependences.{
  value_order, same_value_iff, is_local, push_operands, push_gates,
}

pub record Pushed (us : List Value) (visited : Set Value) (queue : List Value)
    (after : Set Value × List Value) : Type 0 where
  pub kept : (v : Value) → contains v visited ≡ true → contains v after.0 ≡ true
  pub covered : (v : Value) → Memᴰ v us → is_local v ≡ true → contains v after.0 ≡ true
  pub waits : (v : Value) → Memᴰ v queue → Memᴰ v after.1
  pub marked :
      (v : Value) → contains v after.0 ≡ true → (contains v visited ≡ true) ⊎ Memᴰ v after.1
  pub pushed : (v : Value) → Memᴰ v after.1 → Memᴰ v queue ⊎ (Memᴰ v us × (is_local v ≡ true))

pub of_added :
    (v u : Value) (s : Set Value) → contains v (add u s) ≡ true → (contains v s ≡ true) ⊎ (v ≡ u)
of_added v u s m = ground (arith, contains-add u v s, same_value_iff u v)

pub push_operands-Pushed :
    (us : List Value) (visited : Set Value) (queue : List Value)
    → Pushed us visited queue (push_operands us visited queue)
unfolding push_operands
push_operands-Pushed [] visited queue = record {
  kept = λ v m. m;
  covered = λ v m l. absurd (Memᴰ.not-nil m);
  waits = λ v m. m;
  marked = λ v m. inl m;
  pushed = λ v m. inl m;
}
push_operands-Pushed (u ∷ us) visited queue =
    elim (Bool-cases (not (is_local u) || contains u visited)) [
      | inl skip ↦
          let rest = push_operands-Pushed us visited queue in
          rw (skip, push_operands)
            (record {
              kept = rest.kept;
              covered = λ v m l.
                  ⊎_elim
                    (λ e.
                      rest.kept v
                        (let here : is_local u ≡ true = rw (← e) l in rw e (ground arith)))
                    (λ q. rest.covered v q l) (Memᴰ.cases_cons m);
              waits = rest.waits;
              marked = rest.marked;
              pushed = λ v m. ⊎_elim inl (λ q. inr (Memᴰ.tail q.0, q.1)) (rest.pushed v m);
            })
      | inr push ↦
          let rest = push_operands-Pushed us (add u visited) (queue ++ u ∷ []) in
          rw (push, push_operands)
            (record {
              kept = λ v m. rest.kept v (contains_kept u v visited m);
              covered = λ v m l.
                  ⊎_elim (λ e. rest.kept v (rw e (contains_self u visited)))
                    (λ q. rest.covered v q l) (Memᴰ.cases_cons m);
              waits = λ v m. rest.waits v (Memᴰ.append_left (u ∷ []) m);
              marked = λ v m.
                  ⊎_elim
                    (λ q.
                      ⊎_elim inl (λ e. inr (rest.waits v (Memᴰ.append_right queue (Memᴰ.head e))))
                        (of_added v u visited q))
                    inr (rest.marked v m);
              pushed = λ v m.
                  ⊎_elim
                    (λ q.
                      ⊎_elim inl
                        (λ one.
                          let e = Memᴰ.eq_of_singleton one in
                          inr (Memᴰ.head e, rw e (ground arith)))
                        (Memᴰ.append_cases queue q))
                    (λ q. inr (Memᴰ.tail q.0, q.1)) (rest.pushed v m);
            })
    ]

pub record Gated (gs : List (Option Value)) (visited : Set Value) (queue after : List Value)
    : Type 0 where
  pub covered : (g : Value) → Memᴰ (some g) gs → Memᴰ g after ⊎ (contains g visited ≡ true)
  pub waits : (v : Value) → Memᴰ v queue → Memᴰ v after
  pub pushed : (v : Value) → Memᴰ v after → Memᴰ v queue ⊎ Memᴰ (some v) gs

pub push_gates-Gated :
    (gs : List (Option Value)) (visited : Set Value) (queue : List Value)
    → Gated gs visited queue (push_gates gs visited queue)
unfolding push_gates
push_gates-Gated [] visited queue = record {
  covered = λ g m. absurd (Memᴰ.not-nil m);
  waits = λ v m. m;
  pushed = λ v m. inl m;
}
push_gates-Gated (none ∷ gs) visited queue =
    let rest = push_gates-Gated gs visited queue in
    record {
      covered = λ g m. ⊎_elim (λ e. cc) (rest.covered g) (Memᴰ.cases_cons m);
      waits = rest.waits;
      pushed = λ v m. ⊎_elim inl (λ q. inr (Memᴰ.tail q)) (rest.pushed v m);
    }
push_gates-Gated (some h ∷ gs) visited queue = elim (Bool-cases (contains h visited)) [
  | inl old ↦
      let rest = push_gates-Gated gs visited queue in
      rw (old, push_gates)
        (record {
          covered = λ g m.
              ⊎_elim (λ e. let same : g ≡ h = cc in inr (rw same old)) (rest.covered g)
                (Memᴰ.cases_cons m);
          waits = rest.waits;
          pushed = λ v m. ⊎_elim inl (λ q. inr (Memᴰ.tail q)) (rest.pushed v m);
        })
  | inr new ↦
      let rest = push_gates-Gated gs visited (queue ++ h ∷ []) in
      rw (new, push_gates)
        (record {
          covered = λ g m.
              ⊎_elim
                (λ e.
                  let same : g ≡ h = cc in
                  inl (rest.waits g (Memᴰ.append_right queue (Memᴰ.head same))))
                (rest.covered g) (Memᴰ.cases_cons m);
          waits = λ v m. rest.waits v (Memᴰ.append_left (h ∷ []) m);
          pushed = λ v m.
              ⊎_elim
                (λ q.
                  ⊎_elim inl (λ one. inr (Memᴰ.head (ap some (Memᴰ.eq_of_singleton one))))
                    (Memᴰ.append_cases queue q))
                (λ q. inr (Memᴰ.tail q)) (rest.pushed v m);
        })
]
