-- ===== src/Runtime.antt =====
-- The profiling runtime, wyinstr.cpp. Each entry point holds the one mutex from its first line to
-- its return, so an execution is a sequence of whole calls. What C++ leaves undefined (a pop or a
-- top of the empty stack, a null report, an index outside of an array, a shift by the width of
-- `int` or more, a signed overflow) is a `Fault`. `calloc` and the stack's storage do not fail.
pub mod Mask
pub mod Order
pub mod Effects
pub mod Sound
pub mod Views
pub mod Steps
pub mod Elsewhere
pub mod Trace
use Prim.Native.Nat.{bit_and, bit_or}
use wyvern.Base.{
  ℕ, suc, ◌+◌, ◌-◌, ◌^◌, ◌≡◌, Bool, true, false, ◌&&◌, ◌||◌, List, [], ◌∷◌, Option, none, some, ltb,
  ◌==◌, if◌then◌else◌, get_elem?, set, replicate,
}
use wyvern.Base.Int.{ℤ, pos, negsuc, pos_part, to_i8}
use wyvern.Base.Map
use wyvern.Runtime.Order.{CallsiteId, id_order}

pub data Fault : Type 0 where
  empty_stack null_report out_of_bounds bad_shift overflow : Fault

pub data Result {ℓ} (A : Type ℓ) : Type ℓ where
  ok : A → Result A
  fault : Fault → Result A

infixl 5 ◌>>=◌
abbrev pub ◌>>=◌ {ℓ κ} : {A : Type ℓ} {B : Type κ} → Result A → (A → Result B) → Result B
ok a >>= f = f a
fault e >>= f = fault e

abbrev or_fault {ℓ} : {A : Type ℓ} → Option A → Fault → Result A
or_fault none e = fault e
or_fault (some a) e = ok a

-- struct prof_report. `num_args` is an int8_t, and each array has as many elements as `calloc` got.
pub record ProfReport : Type 0 where
  pub num_calls : ℕ
  pub num_args : ℤ
  pub unique_arg_evals : List ℕ
  pub arg_evals : List ℕ

-- The argument is passed as an int8_t.
pub new_report : ℕ → ProfReport
new_report n = record {
  num_calls = 1;
  num_args = to_i8 n;
  unique_arg_evals = replicate (pos_part (to_i8 n)) 0;
  arg_evals = replicate (pos_part (to_i8 n)) 0;
}

abbrev pub ProfileInfo : Type 0
ProfileInfo = List (CallsiteId × ProfReport)

-- The file's static variables. The head of `call_stack` is its top.
pub record Profiler : Type 0 where
  pub initialized : Bool
  pub profile_info : ProfileInfo
  pub call_stack : List CallsiteId

abbrev pub start : Profiler
start = record { initialized = false; profile_info = []; call_stack = [] }

abbrev pub i64_limit : ℕ
i64_limit = 2 ^ 63

-- `x += 1` on an int64_t that is not negative.
unfoldable pub increment : ℕ → Result ℕ
increment n = if ltb (suc n) i64_limit then ok (suc n) else fault overflow

-- `a[i] += 1` on an array of int64_t.
unfoldable pub increment_at : ℤ → List ℕ → Result (List ℕ)
increment_at (negsuc i) xs = fault out_of_bounds
increment_at (pos i) xs = do
  n ← or_fault (get_elem? xs i) out_of_bounds
  m ← increment n
  ok (set xs i m)

-- `1 << arg_index`, a shift of a 32-bit int, as the 64-bit pattern that it has in `*bits & …`: at 31
-- the int is negative and its sign is extended.
unfoldable pub arg_mask : ℤ → Result ℕ
arg_mask (negsuc k) = fault bad_shift
arg_mask (pos k) =
    if ltb k 31 then ok (2 ^ k) else if k == 31 then ok (2 ^ 64 - 2 ^ 31) else fault bad_shift

-- _wyinstr_init_prof; the argument is the address of "__wyinstr_pre_main".
pub init_prof : ℕ → Profiler → Profiler
init_prof first_fun_name s =
    let first : CallsiteId = record { fun_name = first_fun_name; call_id = pos 0 } in
    record {
      initialized = true;
      profile_info = Map.insert first (new_report 2) s.profile_info;
      call_stack = first ∷ s.call_stack;
    }

-- `if (!profile_info.count(id)) profile_info.insert(…)`
pub ensure_report : CallsiteId → ℕ → ProfileInfo → ProfileInfo
ensure_report id num_args info = elim (Map.find id info) [
  | none ↦ Map.insert id (new_report num_args) info
  | some _ ↦ info
]

-- _wyinstr_init_call; `num_args` is an int8_t, and what is passed is truncated.
pub init_call : CallsiteId → ℕ → Profiler → Result Profiler
init_call id num_args s = elim s.initialized [
  | false ↦ ok s
  | true ↦ do
    let info = ensure_report id num_args s.profile_info
    report ← or_fault (Map.find id info) null_report
    calls ← increment report.num_calls
    ok (record s {
      profile_info = Map.modify id (λ _. record report { num_calls = calls }) info;
      call_stack = id ∷ s.call_stack;
    })
]

abbrev top : List CallsiteId → Result CallsiteId
top [] = fault empty_stack
top (id ∷ _) = ok id

-- The update of one report by `_wyinstr_mark_eval`, with the bitmap before and after.
unfoldable pub mark_report : ℤ → ℕ → ProfReport → Result (ℕ × ProfReport)
mark_report arg_index bits report = do
  mask ← arg_mask arg_index
  (new_bits, unique) ←
      (if bit_and bits mask == 0
        then increment_at arg_index report.unique_arg_evals
          >>= (λ unique. ok (bit_or bits mask, unique))
        else ok (bits, report.unique_arg_evals))
  total ← increment_at arg_index report.arg_evals
  ok (new_bits, record report { unique_arg_evals = unique; arg_evals = total })

-- _wyinstr_mark_eval; `*bits` is a word of the caller's frame, taken and given back.
unfoldable pub mark_eval : ℤ → ℕ → Profiler → Result (ℕ × Profiler)
mark_eval arg_index bits s = elim s.initialized [
  | false ↦ ok (bits, s)
  | true ↦ do
    id ← top s.call_stack
    report ← or_fault (Map.find id s.profile_info) null_report
    (new_bits, updated) ← mark_report arg_index bits report
    ok (new_bits, record s { profile_info = Map.modify id (λ _. updated) s.profile_info })
]

-- _wyinstr_initbits
pub init_bits : ℕ
init_bits = 0

-- _wyinstr_end_call
unfoldable pub end_call : Profiler → Result Profiler
end_call s = elim s.initialized [
  | false ↦ ok s
  | true ↦ elim s.call_stack [
    | [] ↦ fault empty_stack
    | _ ∷ rest ↦ ok (record s { call_stack = rest })
  ]
]
