-- ===== src/Runtime/Trace/Keys.antt =====
-- Each call site has one report at most, whatever the entry points of wyinstr.cpp are called on.
use wyvern.Base.{
  List-cases, ℕ, ◌≡◌, refl, sym, ◌∙◌, subst, true, false, ◌∷◌, Bool-cases, Option-cases, inl, inr,
}
use wyvern.Base.Int.{ℤ, pos}
use wyvern.Base.Map
use wyvern.Base.Map.{IsMap, insert-IsMap, modify-IsMap}
use wyvern.Runtime.Order.{CallsiteId, id_order}
use wyvern.Runtime.{
  or_fault, top, null_report, empty_stack, increment, mark_report, ProfileInfo, Result, ok, fault,
  ◌>>=◌, Profiler, ProfReport, init_prof, init_call, mark_eval, end_call, ensure_report, init_bits,
}
use wyvern.Runtime.Elsewhere.{bind_ok, end_call_pops}
use wyvern.Runtime.Trace.{Body, returns, evaluates, calls, run}

abbrev pub HasKeys : Profiler → Type 0
HasKeys s = IsMap s.profile_info

same_ok {ℓ} : {A : Type ℓ} (a b : A) → ◌≡◌ {A = Result A} (ok a) (ok b) → a ≡ b
same_ok a b e = cc e

-- `_wyinstr_init_call` while the runtime is initialized.
abbrev called : CallsiteId → ℕ → Profiler → Result Profiler
called id num_args s = do
  let info = ensure_report id num_args s.profile_info
  report ← or_fault (Map.find id info) null_report
  c ← increment report.num_calls
  ok (record s {
    profile_info = Map.modify id (λ _. record report { num_calls = c }) info;
    call_stack = id ∷ s.call_stack;
  })

init_call_running :
    (id : CallsiteId) (n : ℕ) (s : Profiler)
    → s.initialized ≡ true
    → init_call id n s ≡ called id n s
unfolding init_call
init_call_running id n s e = rw e refl

init_call_idle :
    (id : CallsiteId) (n : ℕ) (s : Profiler) → s.initialized ≡ false → init_call id n s ≡ ok s
unfolding init_call
init_call_idle id n s e = rw e refl

ensure_report-IsMap :
    (id : CallsiteId) (n : ℕ) (info : ProfileInfo) → IsMap info → IsMap (ensure_report id n info)
unfolding ensure_report
ensure_report-IsMap id n info h = elim (Option-cases (Map.find id info)) [
  | inl fresh ↦ rw (fresh, ensure_report) (insert-IsMap id _ info h)
  | inr (r, there) ↦ rw (there, ensure_report) h
]

init_call-HasKeys :
    (id : CallsiteId) (n : ℕ) (s s' : Profiler) → HasKeys s → init_call id n s ≡ ok s' → HasKeys s'
init_call-HasKeys id n s s' h e = elim (Bool-cases s.initialized) [
  | inl running ↦
      let info = ensure_report id n s.profile_info in
      let next = (λ (r : ProfReport) (c : ℕ). record s {
        profile_info = Map.modify id (λ _. record r { num_calls = c }) info;
        call_stack = id ∷ s.call_stack;
      }) in
      let (r, _, e1) =
        bind_ok (or_fault (Map.find id info) null_report)
          (λ r. increment r.num_calls >>= (λ c. ok (next r c))) s'
          (sym (init_call_running id n s running) ∙ e) in
      let (c, _, e2) = bind_ok (increment r.num_calls) (λ c. ok (next r c)) s' e1 in
      subst HasKeys (same_ok (next r c) s' e2)
        (modify-IsMap id _ info (ensure_report-IsMap id n s.profile_info h))
  | inr idle ↦ subst HasKeys (same_ok s s' (sym (init_call_idle id n s idle) ∙ e)) h
]

-- `_wyinstr_mark_eval` while the runtime is initialized.
abbrev marked_at : ℤ → ℕ → Profiler → Result (ℕ × Profiler)
marked_at k bits s = do
  id ← top s.call_stack
  report ← or_fault (Map.find id s.profile_info) null_report
  (new_bits, updated) ← mark_report k bits report
  ok (new_bits, record s { profile_info = Map.modify id (λ _. updated) s.profile_info })

mark_eval_running :
    (k : ℤ) (bits : ℕ) (s : Profiler)
    → s.initialized ≡ true
    → mark_eval k bits s ≡ marked_at k bits s
unfolding mark_eval
mark_eval_running k bits s e = rw e refl

mark_eval_idle :
    (k : ℤ) (bits : ℕ) (s : Profiler) → s.initialized ≡ false → mark_eval k bits s ≡ ok (bits, s)
unfolding mark_eval
mark_eval_idle k bits s e = rw e refl

mark_eval-HasKeys :
    (k : ℤ) (bits : ℕ) (s : Profiler) (x : ℕ × Profiler)
    → HasKeys s
    → mark_eval k bits s ≡ ok x
    → HasKeys x.1
mark_eval-HasKeys k bits s x h e = elim (Bool-cases s.initialized) [
  | inl running ↦
      let next = (λ (id : CallsiteId) (y : ℕ × ProfReport). record s {
        profile_info = Map.modify id (λ _. y.1) s.profile_info;
      }) in
      let finish : CallsiteId → ℕ × ProfReport → Result (ℕ × Profiler) =
        λ id y. ok (y.0, next id y) in
      let after : CallsiteId → ProfReport → Result (ℕ × Profiler) =
        λ id r. mark_report k bits r >>= finish id in
      let (id, _, e1) =
        bind_ok (top s.call_stack)
          (λ id. or_fault (Map.find id s.profile_info) null_report >>= after id) x
          (sym (mark_eval_running k bits s running) ∙ e) in
      let (r, _, e2) =
        bind_ok (or_fault (Map.find id s.profile_info) null_report) (after id) x e1 in
      let (y, _, e3) = bind_ok (mark_report k bits r) (finish id) x e2 in
      subst (λ (z : ℕ × Profiler). HasKeys z.1) (same_ok (y.0, next id y) x e3)
        (modify-IsMap id _ s.profile_info h)
  | inr idle ↦
      subst (λ (z : ℕ × Profiler). HasKeys z.1)
        (same_ok (bits, s) x (sym (mark_eval_idle k bits s idle) ∙ e)) h
]

end_call-HasKeys : (s s' : Profiler) → HasKeys s → end_call s ≡ ok s' → HasKeys s'
unfolding end_call
end_call-HasKeys s s' h e = elim (Bool-cases s.initialized) [
  | inl running ↦ elim (List-cases s.call_stack) [
    | inl empty ↦
        let never : ◌≡◌ {A = Result Profiler} (fault empty_stack) (ok s') =
          rw (running, end_call, empty) at e in
        cc never
    | inr (id, rest, full) ↦
        let same : ◌≡◌ {A = Result Profiler} (ok (record s { call_stack = rest })) (ok s') =
          sym (end_call_pops s id rest running full) ∙ e in
        subst HasKeys (same_ok (record s { call_stack = rest }) s' same) h
  ]
  | inr idle ↦
      let same : ◌≡◌ {A = Result Profiler} (ok s) (ok s') = rw (idle, end_call) at e in
      subst HasKeys (same_ok s s' same) h
]

-- A run keeps one report for each call site.
pub run-HasKeys :
    (sig : CallsiteId → ℕ) (b : Body) (bits : ℕ) (s : Profiler) (x : ℕ × Profiler)
    → HasKeys s
    → run sig b bits s ≡ ok x
    → HasKeys x.1
unfolding run
run-HasKeys sig returns bits s x h e =
    subst (λ (z : ℕ × Profiler). HasKeys z.1) (same_ok (bits, s) x e) h
run-HasKeys sig (evaluates k rest) bits s x h e =
    let ((bits1, s1), first, later) =
      bind_ok (mark_eval (pos k) bits s) (λ (y : ℕ × Profiler). run sig rest y.0 y.1) x e in
    run-HasKeys sig rest bits1 s1 x (mark_eval-HasKeys (pos k) bits s (bits1, s1) h first) later
run-HasKeys sig (calls id callee rest) bits s x h e =
    let returned : Profiler → Result (ℕ × Profiler) =
      λ s2. end_call s2 >>= (λ s3. run sig rest bits s3) in
    let entered : Profiler → Result (ℕ × Profiler) =
      λ s1. run sig callee init_bits s1 >>= (λ (y : ℕ × Profiler). returned y.1) in
    let (s1, e1, q1) = bind_ok (init_call id (sig id) s) entered x e in
    let (y, e2, q2) =
      bind_ok (run sig callee init_bits s1) (λ (y : ℕ × Profiler). returned y.1) x q1 in
    let (s3, e3, q3) = bind_ok (end_call y.1) (λ s3. run sig rest bits s3) x q2 in
    let h1 = init_call-HasKeys id (sig id) s s1 h e1 in
    let h2 = run-HasKeys sig callee init_bits s1 y h1 e2 in
    run-HasKeys sig rest bits s3 x (end_call-HasKeys y.1 s3 h2 e3) q3

pub init_prof-HasKeys : (address : ℕ) (s : Profiler) → HasKeys s → HasKeys (init_prof address s)
unfolding init_prof
init_prof-HasKeys address s h = insert-IsMap _ _ s.profile_info h
