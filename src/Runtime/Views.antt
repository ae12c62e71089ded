-- ===== src/Runtime/Views.antt =====
-- What the report file says of a call site, as numbers of the state of wyinstr.cpp: the evaluations
-- of each argument, the activations that evaluated it, and the calls. A report is made with
-- `_num_calls(1)` before its first call is counted, so the calls are one fewer than the counter.

use wyvern.Base.{
  ℕ, suc, ◌+◌, ◌-◌, ◌≤◌, ◌<◌, ◌≡◌, Bool, true, false, ◌&&◌, Option, none, some, arith, ◌==◌, get_or,
  get_or-replicate, length,
}
use wyvern.Base.Int.{pos_part, to_i8}
use wyvern.Base.Map
use wyvern.Runtime.Order.{CallsiteId, same_id, same_id_iff, id_order}
use wyvern.Runtime.{ProfReport, ProfileInfo, new_report, ensure_report}
use wyvern.Runtime.Effects.{marked, get_or-bump}
use wyvern.Runtime.Sound.{find-ensure_report}

abbrev pub tick : Bool → ℕ
tick true = 1
tick false = 0

calls_in : Option ProfReport → ℕ
calls_in none = 0
calls_in (some r) = r.num_calls - 1

uniques_in : Option ProfReport → ℕ → ℕ
uniques_in none k = 0
uniques_in (some r) k = get_or r.unique_arg_evals k 0

evals_in : Option ProfReport → ℕ → ℕ
evals_in none k = 0
evals_in (some r) k = get_or r.arg_evals k 0

unfoldable pub calls_of : ProfileInfo → CallsiteId → ℕ
unfolding calls_in
calls_of info id = calls_in (Map.find id info)

unfoldable pub uniques_of : ProfileInfo → CallsiteId → ℕ → ℕ
unfolding uniques_in
uniques_of info id k = uniques_in (Map.find id info) k

unfoldable pub evals_of : ProfileInfo → CallsiteId → ℕ → ℕ
unfolding evals_in
evals_of info id k = evals_in (Map.find id info) k

-- A new report changes no number.
module _ (id j : CallsiteId) (n : ℕ) (info : ProfileInfo) where
  pub calls_of-ensure_report : calls_of (ensure_report id n info) j ≡ calls_of info j
  unfolding calls_of new_report
  calls_of-ensure_report = ground (arith, find-ensure_report id j n info, same_id_iff id j)

  pub uniques_of-ensure_report :
      (k : ℕ) → uniques_of (ensure_report id n info) j k ≡ uniques_of info j k
  unfolding uniques_of new_report
  uniques_of-ensure_report k = ground (
    arith,
    find-ensure_report id j n info,
    same_id_iff id j,
    get_or-replicate {A = ℕ} (pos_part (to_i8 n)) k 0,
  )

  pub evals_of-ensure_report : (k : ℕ) → evals_of (ensure_report id n info) j k ≡ evals_of info j k
  unfolding evals_of new_report
  evals_of-ensure_report k = ground (
    arith,
    find-ensure_report id j n info,
    same_id_iff id j,
    get_or-replicate {A = ℕ} (pos_part (to_i8 n)) k 0,
  )

-- One more call of `id`.
module _ (id j : CallsiteId) (info : ProfileInfo) (r : ProfReport)
    (e : Map.find id info ≡ some r) where
  pub calls_of_called :
      1 ≤ r.num_calls
      → calls_of (Map.modify id (λ _. record r { num_calls = suc r.num_calls }) info) j
        ≡ calls_of info j + tick (same_id id j)
  unfolding calls_of
  calls_of_called h = ground (
    arith,
    Map.find-modify id j (λ _. record r { num_calls = suc r.num_calls }) info,
    same_id_iff id j,
    e,
  )

  pub uniques_of_called :
      (k : ℕ)
      → uniques_of (Map.modify id (λ _. record r { num_calls = suc r.num_calls }) info) j k
        ≡ uniques_of info j k
  unfolding uniques_of
  uniques_of_called k = ground (
    arith,
    Map.find-modify id j (λ _. record r { num_calls = suc r.num_calls }) info,
    same_id_iff id j,
    e,
  )

  pub evals_of_called :
      (k : ℕ)
      → evals_of (Map.modify id (λ _. record r { num_calls = suc r.num_calls }) info) j k
        ≡ evals_of info j k
  unfolding evals_of
  evals_of_called k = ground (
    arith,
    Map.find-modify id j (λ _. record r { num_calls = suc r.num_calls }) info,
    same_id_iff id j,
    e,
  )

  -- One more evaluation of argument k at `id`.
  module _ (first : Bool) (k : ℕ) where
    abbrev after_mark : ProfileInfo
    after_mark = Map.modify id (λ _. marked first k r) info

    pub calls_of_marked : calls_of after_mark j ≡ calls_of info j
    unfolding calls_of
    calls_of_marked =
        ground (arith, Map.find-modify id j (λ _. marked first k r) info, same_id_iff id j, e)

    pub evals_of_marked :
        (i : ℕ)
        → k < length r.arg_evals
        → evals_of after_mark j i ≡ evals_of info j i + tick (same_id id j && k == i)
    unfolding evals_of
    evals_of_marked i h = ground (
      arith,
      Map.find-modify id j (λ _. marked first k r) info,
      same_id_iff id j,
      e,
      get_or-bump k i r.arg_evals,
    )

    pub uniques_of_marked :
        (i : ℕ)
        → k < length r.unique_arg_evals
        → uniques_of after_mark j i ≡ uniques_of info j i + tick (same_id id j && (k == i && first))
    unfolding uniques_of
    uniques_of_marked i h = ground (
      arith,
      Map.find-modify id j (λ _. marked first k r) info,
      same_id_iff id j,
      e,
      get_or-bump k i r.unique_arg_evals,
    )
