-- ===== src/Runtime/Elsewhere.antt =====
-- What `_wyinstr_mark_eval` and `_wyinstr_end_call` of wyinstr.cpp leave alone: the reports of the
-- call sites that are not on top of the stack.
use wyvern.Base.{ℕ, ◌≡◌, refl, sym, ◌∙◌, subst, true, false, List, ◌∷◌}
use wyvern.Base.Int.{ℤ}
use wyvern.Base.Map
use wyvern.Runtime.Order.{CallsiteId, same_id, id_order}
use wyvern.Runtime.{
  Result, ok, fault, ◌>>=◌, Profiler, ProfReport, or_fault, null_report, mark_report, mark_eval,
  end_call,
}

-- What a chain that succeeds has gone through.
pub bind_ok {ℓ κ} :
    {A : Type ℓ} {B : Type κ} (r : Result A) (f : A → Result B) (b : B)
    → (r >>= f) ≡ ok b
    → (a : A) × (r ≡ ok a) × (f a ≡ ok b)
bind_ok (ok a) f b e = (a, refl, e)
bind_ok (fault x) f b e = cc e

pub ok_state :
    (a b : ℕ) (s t : Profiler) → ◌≡◌ {A = Result (ℕ × Profiler)} (ok (a, s)) (ok (b, t)) → s ≡ t
ok_state a b s t e = cc e

-- `_wyinstr_mark_eval` once the top of the stack is known.
abbrev mark_at : CallsiteId → ℤ → ℕ → Profiler → Result (ℕ × Profiler)
mark_at here k bits s = do
  report ← or_fault (Map.find here s.profile_info) null_report
  (new_bits, updated) ← mark_report k bits report
  ok (new_bits, record s { profile_info = Map.modify here (λ _. updated) s.profile_info })

mark_eval_at :
    (k : ℤ) (bits : ℕ) (s : Profiler) (here : CallsiteId) (rest : List CallsiteId)
    → s.initialized ≡ true
    → s.call_stack ≡ here ∷ rest
    → mark_eval k bits s ≡ mark_at here k bits s
unfolding mark_eval
mark_eval_at k bits s here rest e1 e2 = rw (e1, e2) refl

pub mark_eval_elsewhere :
    (k : ℤ) (bits : ℕ) (s : Profiler) (bits' : ℕ) (s' : Profiler) (here own : CallsiteId)
    (rest : List CallsiteId)
    → s.initialized ≡ true
    → s.call_stack ≡ here ∷ rest
    → same_id here own ≡ false
    → mark_eval k bits s ≡ ok (bits', s')
    → (s'.initialized ≡ true)
      × (s'.call_stack ≡ here ∷ rest)
      × (Map.find own s'.profile_info ≡ Map.find own s.profile_info)
mark_eval_elsewhere k bits s bits' s' here own rest e1 e2 e3 e =
    let at : mark_at here k bits s ≡ ok (bits', s') =
      sym (mark_eval_at k bits s here rest e1 e2) ∙ e in
    let (report, found, e4) =
      bind_ok (or_fault (Map.find here s.profile_info) null_report)
        (λ report. mark_report k bits report >>= (λ (x : ℕ × ProfReport).
          ok (x.0, record s { profile_info = Map.modify here (λ _. x.1) s.profile_info })))
        (bits', s') at in
    let ((new_bits, updated), marked, e5) =
      bind_ok (mark_report k bits report)
        (λ (x : ℕ × ProfReport).
          ok (x.0, record s { profile_info = Map.modify here (λ _. x.1) s.profile_info }))
        (bits', s') e4 in
    let same =
      ok_state new_bits bits'
        (record s { profile_info = Map.modify here (λ _. updated) s.profile_info }) s' e5 in
    subst
      (λ (t : Profiler).
        (t.initialized ≡ true)
        × (t.call_stack ≡ here ∷ rest)
        × (Map.find own t.profile_info ≡ Map.find own s.profile_info))
      same (e1, e2, Map.find-modify here own (λ _. updated) s.profile_info ∙ rw e3 refl)

pub end_call_pops :
    (s : Profiler) (own : CallsiteId) (rest : List CallsiteId)
    → s.initialized ≡ true
    → s.call_stack ≡ own ∷ rest
    → end_call s ≡ ok (record s { call_stack = rest })
unfolding end_call
end_call_pops s own rest e1 e2 = rw (e1, e2) refl
