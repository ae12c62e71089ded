-- ===== src/Lazyfication/Run/Arguments.antt =====
-- The loop of runOnModule, passes/Lazyfication.cpp, over the arguments of a call: its index is a
-- uint8_t.
use wyvern.Base.{
  ℕ, zero, suc, ◌+◌, ◌%◌, ◌^◌, ◌<◌, ◌≤◌, ◌≡◌, ◌≢◌, refl, Bool, true, false, Option, none, some,
  arith, ltb, Bool-cases, Option-cases, inl, inr,
}
use wyvern.Lazyfication.{Driver}
use wyvern.Lazyfication.Run.{arguments}

next_index : (i : ℕ) → i < 255 → suc i % 2 ^ 8 ≡ suc i
next_index i h = omega (arith, h)

-- With fewer than 256 arguments the loop ends after a round for each of them.
pub arguments_total :
    (try : ℕ → Driver → Option (Bool × Driver)) (fuel arg_size arg_idx : ℕ) (changed : Bool)
    (d : Driver)
    → arg_size < 256
    → arg_idx ≤ arg_size
    → arg_size < arg_idx + fuel
    → (b : Bool) × (e : Driver) × (arguments try fuel arg_size arg_idx changed d ≡ some (b, e))
unfolding arguments
arguments_total try zero arg_size arg_idx changed d h1 h2 h3 = absurd (omega (arith, h2, h3))
arguments_total try (suc fuel) arg_size arg_idx changed d h1 h2 h3 =
    elim (Bool-cases (ltb arg_idx arg_size)) [
      | inr over ↦ (changed, d, rw (over, arguments) refl)
      | inl more ↦
          let below : arg_idx < arg_size = ground (arith, more) in
          let next : suc arg_idx % 2 ^ 8 ≡ suc arg_idx =
            next_index arg_idx (omega (arith, h1, below)) in
          elim (Option-cases (try arg_idx d)) [
            | inl skipped ↦
                let (b, e, q) =
                  arguments_total try fuel arg_size (suc arg_idx % 2 ^ 8) changed d h1
                    (omega (arith, below, next)) (omega (arith, h3, next)) in
                (b, e, rw (more, arguments, skipped) q)
            | inr ((true, e), tried) ↦ (true, e, rw (more, arguments, tried) refl)
            | inr ((false, e'), tried) ↦
                let (b, e, q) =
                  arguments_total try fuel arg_size (suc arg_idx % 2 ^ 8) false e' h1
                    (omega (arith, below, next)) (omega (arith, h3, next)) in
                (b, e, rw (more, arguments, tried) q)
          ]
    ]

-- With 256 arguments or more the index wraps around before it gets there: as long as no attempt
-- lazifies a call site, no number of rounds is enough.
pub arguments_stuck :
    (try : ℕ → Driver → Option (Bool × Driver)) (fuel arg_size arg_idx : ℕ) (changed : Bool)
    (d : Driver)
    → 256 ≤ arg_size
    → arg_idx < 256
    → ((i : ℕ) (e f : Driver) → try i e ≢ some (true, f))
    → arguments try fuel arg_size arg_idx changed d ≡ none
unfolding arguments
arguments_stuck try zero arg_size arg_idx changed d h1 h2 h3 = refl
arguments_stuck try (suc fuel) arg_size arg_idx changed d h1 h2 h3 =
    let more : ltb arg_idx arg_size ≡ true = ground arith in
    let small : suc arg_idx % 2 ^ 8 < 256 = omega (arith, h2) in
    elim (Option-cases (try arg_idx d)) [
      | inl skipped ↦
          rw (more, arguments, skipped)
            (arguments_stuck try fuel arg_size (suc arg_idx % 2 ^ 8) changed d h1 small h3)
      | inr ((true, e), tried) ↦ absurd (h3 arg_idx d e tried)
      | inr ((false, e), tried) ↦
          rw (more, arguments, tried)
            (arguments_stuck try fuel arg_size (suc arg_idx % 2 ^ 8) false e h1 small h3)
    ]
