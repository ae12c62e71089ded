-- ===== src/Runtime/Effects.antt =====
-- What each call of the runtime, wyinstr.cpp, does to a state that is sized and in bounds.
use Prim.Native.Nat.{bit_or}
use wyvern.Base.{
  ℕ, suc, ◌≤◌, ◌<◌, ◌≡◌, Bool, List, arith, ◌==◌, ==_iff, Bool-cases, inl, inr, if◌then◌else◌,
  get_or, set, length, length-set, get_or-set, get_elem?-get_or,
}
use wyvern.Base.Int.{pos}
use wyvern.Runtime.Order.{id_order}
use wyvern.Runtime.Mask.{mask, arg_mask-mask, is_first}
use wyvern.Runtime.{ok, ProfReport, i64_limit, increment, increment_at, mark_report}

-- Both arrays have n elements.
pub record IsSized (n : ℕ) (r : ProfReport) : Type 0 where
  pub args : r.num_args ≡ pos n
  pub uniques : length r.unique_arg_evals ≡ n
  pub evals : length r.arg_evals ≡ n

-- No counter is above c.
pub record IsBounded (c : ℕ) (r : ProfReport) : Type 0 where
  pub calls : r.num_calls ≤ c
  pub uniques : (k : ℕ) → get_or r.unique_arg_evals k 0 ≤ c
  pub evals : (k : ℕ) → get_or r.arg_evals k 0 ≤ c

abbrev pub bump : ℕ → List ℕ → List ℕ
bump k xs = set xs k (suc (get_or xs k 0))

-- The report after the evaluation of argument k, the first of its activation or not.
abbrev pub marked : Bool → ℕ → ProfReport → ProfReport
marked first k r = record r {
  unique_arg_evals = if first then bump k r.unique_arg_evals else r.unique_arg_evals;
  arg_evals = bump k r.arg_evals;
}

abbrev pub marked_bits : ℕ → ℕ → ℕ
marked_bits bits k = if is_first bits k then bit_or bits (mask k) else bits

increment_at-bump :
    (k : ℕ) (xs : List ℕ)
    → k < length xs
    → suc (get_or xs k 0) < i64_limit
    → increment_at (pos k) xs ≡ ok (bump k xs)
unfolding increment_at increment
increment_at-bump k xs h b = ground (arith, get_elem?-get_or xs k 0)

pub mark_report-marked :
    (n c k bits : ℕ) (r : ProfReport)
    → IsSized n r
    → IsBounded c r
    → k < n
    → k < 32
    → suc c < i64_limit
    → mark_report (pos k) bits r ≡ ok (marked_bits bits k, marked (is_first bits k) k r)
unfolding mark_report is_first
mark_report-marked n c k bits r sized bounded h w lim = rw (arg_mask-mask k w) (
    ground (
      arith,
      increment_at-bump k r.unique_arg_evals,
      increment_at-bump k r.arg_evals,
      bounded.uniques k,
      bounded.evals k,
    ))

pub marked-IsSized :
    (n k : ℕ) (first : Bool) (r : ProfReport) → IsSized n r → IsSized n (marked first k r)
marked-IsSized n k first r sized = record {
  args = sized.args;
  uniques =
      ground (
        arith,
        length-set r.unique_arg_evals k (suc (get_or r.unique_arg_evals k 0)),
        sized.uniques,
      );
  evals = ground (arith, length-set r.arg_evals k (suc (get_or r.arg_evals k 0)), sized.evals);
}

pub get_or-bump :
    (k j : ℕ) (xs : List ℕ)
    → k < length xs
    → get_or (bump k xs) j 0 ≡ (if k == j then suc (get_or xs j 0) else get_or xs j 0)
get_or-bump k j xs h = elim (Bool-cases (k == j)) [
  | inl e ↦ rw (get_or-set xs k j _ 0 h, e, (==_iff k j).0 e)
  | inr e ↦ rw (get_or-set xs k j _ 0 h, e)
]

pub marked-IsBounded :
    (n c k : ℕ) (first : Bool) (r : ProfReport)
    → IsSized n r
    → IsBounded c r
    → k < n
    → IsBounded (suc c) (marked first k r)
marked-IsBounded n c k first r sized bounded h = record {
  calls = omega (arith, bounded.calls);
  uniques =
      λ j. ground (arith, get_or-bump k j r.unique_arg_evals, sized.uniques, bounded.uniques j);
  evals = λ j. ground (arith, get_or-bump k j r.arg_evals, sized.evals, bounded.evals j);
}
