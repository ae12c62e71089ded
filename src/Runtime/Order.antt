-- ===== src/Runtime/Order.antt =====
-- The keys of `profile_info`: std::pair<const char *, int64_t> under its own order. A `const char *`
-- is the address that it holds, so equal names at two addresses are two keys, as in the code.
use wyvern.Base.{ℕ, ◌≡◌, ◌↔◌, Bool, true, ◌&&◌, ◌||◌, arith, ltb, ◌==◌}
use wyvern.Base.Int.{ℤ, eqb_ℤ, ltb_ℤ}
use wyvern.Base.Map.{KeyOrder}

pub record CallsiteId : Type 0 where
  pub fun_name : ℕ
  pub call_id : ℤ

abbrev pub same_id : CallsiteId → CallsiteId → Bool
same_id a b = a.fun_name == b.fun_name && eqb_ℤ a.call_id b.call_id

abbrev pub id_before : CallsiteId → CallsiteId → Bool
id_before a b = ltb a.fun_name b.fun_name || (a.fun_name == b.fun_name && ltb_ℤ a.call_id b.call_id)

pub same_id_iff : (a b : CallsiteId) → (same_id a b ≡ true) ↔ (a ≡ b)
same_id_iff a b = ground arith

instance abbrev pub id_order : KeyOrder CallsiteId
id_order = record { same = same_id; before = id_before; same_iff = same_id_iff }
