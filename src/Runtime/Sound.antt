-- ===== src/Runtime/Sound.antt =====
-- The invariant of `profile_info`, wyinstr.cpp: `sig` gives the number of arguments of each call
-- site, and no counter is above c.
use mathlib.Core.Option
use wyvern.Base.{
  ℕ, suc, ◌≤◌, ◌<◌, ◌^◌, ◌≡◌, refl, true, false, none, some, arith, Bool-cases, Option-cases, inl,
  inr, if◌then◌else◌, length-replicate, get_or-replicate,
}
use wyvern.Base.Int.{to_i8-pos}
use wyvern.Base.Map
use wyvern.Runtime.Order.{CallsiteId, same_id, same_id_iff, id_order}
use wyvern.Runtime.{ProfReport, ProfileInfo, new_report, ensure_report}
use wyvern.Runtime.Effects.{IsSized, IsBounded}

pub record IsGood (n c : ℕ) (r : ProfReport) : Type 0 where
  pub sized : IsSized n r
  pub bounded : IsBounded c r
  pub counted : 1 ≤ r.num_calls

abbrev pub IsSound : (CallsiteId → ℕ) → ℕ → ProfileInfo → Type 0
IsSound sig c info =
    (id : CallsiteId) (r : ProfReport) → Map.find id info ≡ some r → IsGood (sig id) c r

abbrev pub HasReport : ProfileInfo → CallsiteId → Type 0
HasReport info id = (r : ProfReport) × (Map.find id info ≡ some r)

pub IsGood-mono : (n c d : ℕ) (r : ProfReport) → c ≤ d → IsGood n c r → IsGood n d r
IsGood-mono n c d r h g = record {
  sized = g.sized;
  bounded = record {
    calls = omega (arith, g.bounded.calls);
    uniques = λ k. omega (arith, g.bounded.uniques k);
    evals = λ k. omega (arith, g.bounded.evals k);
  };
  counted = g.counted;
}

pub new_report-IsGood : (n : ℕ) → n < 2 ^ 7 → IsGood n 1 (new_report n)
unfolding new_report
new_report-IsGood n h =
    rw (to_i8-pos n h, new_report)
      (record {
        sized = record {
          args = refl;
          uniques = length-replicate n 0;
          evals = length-replicate n 0;
        };
        bounded = record {
          calls = omega arith;
          uniques = λ k. omega (arith, get_or-replicate {A = ℕ} n k 0);
          evals = λ k. omega (arith, get_or-replicate {A = ℕ} n k 0);
        };
        counted = omega arith;
      })

pub find-ensure_report :
    (id j : CallsiteId) (n : ℕ) (info : ProfileInfo)
    → Map.find j (ensure_report id n info) ≡ (
        if same_id id j
        then some (Option.get_or (Map.find id info) (new_report n))
        else Map.find j info)
unfolding ensure_report
find-ensure_report id j n info = elim (Option-cases (Map.find id info)) [
  | inl e ↦ rw (e, ensure_report) (ground (arith, Map.find-insert id j (new_report n) info))
  | inr (r, e) ↦ rw (e, ensure_report) (ground (arith, same_id_iff id j))
]

-- A report stays where it is once it is there.
pub modify-HasReport :
    (id j : CallsiteId) (r : ProfReport) (info : ProfileInfo)
    → HasReport info j
    → HasReport (Map.modify id (λ _. r) info) j
modify-HasReport id j r info (q, e) =
    (if same_id id j then r else q, ground (arith, Map.find-modify id j (λ _. r) info))

pub ensure_report-HasReport :
    (id j : CallsiteId) (n : ℕ) (info : ProfileInfo)
    → HasReport info j
    → HasReport (ensure_report id n info) j
ensure_report-HasReport id j n info (q, e) =
    (q, ground (arith, find-ensure_report id j n info, same_id_iff id j))

pub ensure_report-HasReport_self :
    (id : CallsiteId) (n : ℕ) (info : ProfileInfo) → HasReport (ensure_report id n info) id
ensure_report-HasReport_self id n info = (
  Option.get_or (Map.find id info) (new_report n),
  ground (arith, find-ensure_report id id n info, same_id_iff id id),
)

module _ (sig : CallsiteId → ℕ) (c : ℕ) (id : CallsiteId) (info : ProfileInfo) where
  pub modify-IsSound :
      (r : ProfReport)
      → IsSound sig c info
      → IsGood (sig id) (suc c) r
      → IsSound sig (suc c) (Map.modify id (λ _. r) info)
  modify-IsSound r sound good j q e = elim (Bool-cases (same_id id j)) [
    | inl hit ↦ rw (← (same_id_iff id j).0 hit, ← same hit) good
    | inr miss ↦ IsGood-mono (sig j) c (suc c) q (omega arith) (sound j q (other miss))
  ]
    where
      same : same_id id j ≡ true → r ≡ q
      same hit = ground (arith, Map.find-modify id j (λ _. r) info, e)

      other : same_id id j ≡ false → Map.find j info ≡ some q
      other miss = ground (arith, Map.find-modify id j (λ _. r) info, e)

  pub ensure_report-IsSound :
      1 ≤ c → sig id < 2 ^ 7 → IsSound sig c info → IsSound sig c (ensure_report id (sig id) info)
  ensure_report-IsSound h few sound j q e = elim (Bool-cases (same_id id j)) [
    | inl hit ↦ elim (Option-cases (Map.find id info)) [
      | inl none_yet ↦
          rw (← (same_id_iff id j).0 hit, ← fresh hit none_yet)
            (IsGood-mono (sig id) 1 c _ h (new_report-IsGood (sig id) few))
      | inr (r, old) ↦
          sound j q (ground (arith, find-ensure_report id j (sig id) info, same_id_iff id j))
    ]
    | inr miss ↦ sound j q (ground (arith, find-ensure_report id j (sig id) info))
  ]
    where
      fresh : same_id id j ≡ true → Map.find id info ≡ none → new_report (sig id) ≡ q
      fresh hit none_yet = ground (arith, find-ensure_report id j (sig id) info)
