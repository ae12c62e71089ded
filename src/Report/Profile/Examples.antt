-- ===== src/Report/Profile/Examples.antt =====
-- The report of a small execution, loaded for a module of one function.
use wyvern.Base.{
  ℕ, zero, suc, ◌≡◌, refl, sym, ap, ◌∙◌, true, false, [], ◌∷◌, Option, none, some, arith, List, All,
  get_elem?, map, if◌then◌else◌, Bool-cases, inl, inr,
}
use wyvern.Base.Map
use wyvern.Base.Map.{nat_order, IsMap}
use wyvern.Ir.{constant, function, call, other, Instruction, Function}
use wyvern.Runtime.Trace.Examples.{site, site_report, final_state}
use wyvern.Report.{
  Text, Row, dump, load, load_rows, load_next, load_row, load_number, convert, get_line, split,
  ignore_line, to_u64,
}
use wyvern.Report.Examples.{show, stol, name_at, stol-show, show-Lacks}
use wyvern.Report.RoundTrip.{row_of, IsPlain, load-dump}
use wyvern.Report.Attach.{instructions, raw_row, same_text}
use wyvern.Report.Profile.{same_text_iff, load_profile_info}
use wyvern.Report.Profile.Rows.{IsAddressed, HasNames, load_profile_info_lem}
use wyvern.Report.Profile.Measured.{IsOnly, load_profile_info-dump}

abbrev step : ℕ → Instruction
step i = record { id = i; opcode = other; operands = [] }

abbrev pub called : Instruction
called = record { id = 5; opcode = call (some (function 0)); operands = constant 5 ∷ [] }

abbrev pub caller : Function
caller = record {
  arg_types = [];
  is_var_arg = false;
  blocks = (step 0 ∷ step 1 ∷ step 2 ∷ []) ∷ (step 3 ∷ step 4 ∷ called ∷ []) ∷ [];
}

-- The name table of the module has "f" only.
abbrev pub get_function : Text → Option ℕ
get_function t = if same_text t (102 ∷ []) then some 0 else none

get_function-found : (t : Text) (f : ℕ) → get_function t ≡ some f → t ≡ 102 ∷ []
get_function-found t f e = elim (Bool-cases (same_text t (102 ∷ []))) [
  | inl same ↦ (same_text_iff t (102 ∷ [])).0 same
  | inr differ ↦ let never : ◌≡◌ {A = Option ℕ} none (some f) = rw differ at e in cc never
]

pub get_function-HasNames : HasNames get_function
get_function-HasNames s t f p q = get_function-found s f p ∙ sym (get_function-found t f q)

same_address : (K I : Instruction) → some K ≡ some I → I.id ≡ K.id
same_address K I e = let same : K ≡ I = cc e in sym (ap (λ (x : Instruction). x.id) same)

caller_numbered :
    (i : ℕ) (I : Instruction) → get_elem? (instructions caller.blocks) i ≡ some I → I.id ≡ i
unfolding instructions
caller_numbered zero I e = same_address (step 0) I e
caller_numbered (suc zero) I e = same_address (step 1) I e
caller_numbered (suc (suc zero)) I e = same_address (step 2) I e
caller_numbered (suc (suc (suc zero))) I e = same_address (step 3) I e
caller_numbered (suc (suc (suc (suc zero)))) I e = same_address (step 4) I e
caller_numbered (suc (suc (suc (suc (suc zero))))) I e = same_address called I e
caller_numbered (suc (suc (suc (suc (suc (suc i)))))) I e = cc e

only_caller : (f : ℕ) (F : Function) → get_elem? (caller ∷ []) f ≡ some F → (f ≡ 0) × (caller ≡ F)
only_caller zero F e = (refl, cc e)
only_caller (suc f) F e = cc e

pub caller-IsAddressed : IsAddressed (caller ∷ [])
caller-IsAddressed f g i j F G I J p q a b e =
    let (zero_f, caller_f) = only_caller f F p in
    let (zero_g, caller_g) = only_caller g G q in
    let at_i =
      caller_numbered i I
        (ap (λ (H : Function). get_elem? (instructions H.blocks) i) caller_f ∙ a) in
    let at_j =
      caller_numbered j J
        (ap (λ (H : Function). get_elem? (instructions H.blocks) j) caller_g ∙ b) in
    (zero_f ∙ sym zero_g, sym at_i ∙ e ∙ at_j)

-- The entry for main has another number.
pub site-IsOnly : All (IsOnly name_at site) final_state.profile_info
unfolding to_u64
site-IsOnly = (λ p q. absurd (omega (arith, q)), (λ p q. refl, tt))

abbrev file : Text
file = dump show name_at (104 ∷ []) final_state.profile_info

plain : All (IsPlain name_at) final_state.profile_info
plain = (
  record {
    name_plain = (refl, tt);
    id_long = omega arith;
    calls_long = omega arith;
    args = 2;
    args_small = omega arith;
    has_args = refl;
    uniques = refl;
    totals = refl;
    uniques_long = (omega arith, (omega arith, tt));
    totals_long = (omega arith, (omega arith, tt));
  },
  (
    record {
      name_plain = (refl, tt);
      id_long = omega arith;
      calls_long = omega arith;
      args = 3;
      args_small = omega arith;
      has_args = refl;
      uniques = refl;
      totals = refl;
      uniques_long = (omega arith, (omega arith, (omega arith, tt)));
      totals_long = (omega arith, (omega arith, (omega arith, tt)));
    },
    tt,
  ),
)

load_profile_info_lem_example :
    (profile : List (ℕ × Row)) × (load_profile_info get_function stol (caller ∷ []) (some file)
      ≡ some (true, profile))
    × (Map.find 5 profile ≡ raw_row (map (row_of name_at) final_state.profile_info) (102 ∷ []) 5)
unfolding instructions same_text
load_profile_info_lem_example =
    load_profile_info_lem get_function stol (caller ∷ []) file
      (map (row_of name_at) final_state.profile_info) (102 ∷ []) 0 5 caller called
      caller-IsAddressed get_function-HasNames
      (load-dump show stol name_at stol-show show-Lacks (104 ∷ []) final_state.profile_info
        (refl, tt) plain)
      refl refl refl refl

load_profile_info-dump_example :
    (profile : List (ℕ × Row)) × (load_profile_info get_function stol (caller ∷ []) (some file)
      ≡ some (true, profile))
    × (Map.find 5 profile ≡ some (row_of name_at (site, site_report)))
unfolding instructions same_text to_u64 Map.find
load_profile_info-dump_example =
    load_profile_info-dump show stol name_at stol-show show-Lacks get_function (caller ∷ [])
      (104 ∷ []) final_state.profile_info site site_report 0 caller called caller-IsAddressed
      get_function-HasNames (refl, tt) plain site-IsOnly (refl, (refl, tt)) refl refl refl refl refl

-- A file that does not open, and one with a word for a number.
load_profile_info_refused :
    (load_profile_info get_function stol (caller ∷ []) none ≡ some (false, []))
    × (load_profile_info get_function
          (λ t. none)
          (caller ∷ [])
          (some (104 ∷ 10 ∷ 102 ∷ 44 ∷ 120 ∷ 44 ∷ []))
        ≡ none)
unfolding load_profile_info load load_rows load_next load_row load_number convert get_line split
    ignore_line
load_profile_info_refused = (refl, refl)
