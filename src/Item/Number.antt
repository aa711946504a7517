-- ===== src/Item/Number.antt =====
-- The constructors that check a range, and what they let through: ws/libresmack/src/items/int.cpp,
-- src/items/str.cpp and `OvSub` of include/resmack/utils.hpp.
use resmack.Prelude.{
  ℕ, ◌+◌, ◌-◌, ◌%◌, ◌^◌, ◌≡◌, ◌↔◌, ◌⊎◌, Bool, ◌&&◌, ◌||◌, List, arith, if◌then◌else◌, Option, none,
  some,
}
use resmack.Prelude.Int.{ℤ, pos, ◌-ℤ◌, ◌<ℤ◌, ltb_ℤ}
use resmack.Prelude.Outcome.{Outcome, ok, fail, Fault}
use resmack.Item.{Item, str, int}

abbrev is_pos : ℤ → Bool
is_pos a = ltb_ℤ (pos 0) a

abbrev is_neg : ℤ → Bool
is_neg a = ltb_ℤ a (pos 0)

-- `OvSub<int64_t>` where the difference fits 64 bits.
unfoldable pub ov_sub : ℤ → ℤ → Option ℤ
ov_sub num1 num2 =
    let res : ℤ = num1 -ℤ num2 in
    if (is_pos num1 && (is_pos num2 && is_neg res)) || (is_neg num1 && (is_neg num2 && is_pos res))
    then none
    else some res

-- `OvSub<uint32_t>`: no operand is below 0, so neither test can hold, and the difference wraps.
unfoldable pub ov_sub_u32 : ℕ → ℕ → Option ℕ
ov_sub_u32 num1 num2 = some ((num1 + 2 ^ 32 - num2) % 2 ^ 32)

-- `Int(min, max)`, which throws std::overflow_error.
unfoldable pub make_int : ℤ → ℤ → Outcome Item
make_int min max = elim (ov_sub max min) [
  | none ↦ fail Fault.thrown
  | some range ↦ ok (int min range)
]

-- `Int()`. The member `range_` is not written by it: `fresh` is what it holds.
unfoldable pub default_int : ℤ → Item
default_int fresh = int (pos 1) fresh

-- `Str(min, max, charset)`.
unfoldable pub make_str : ℕ → ℕ → List ℕ → Outcome Item
make_str min max charset = elim (ov_sub_u32 max min) [
  | none ↦ fail Fault.thrown
  | some range ↦ ok (str min range charset)
]

-- The check of `Int` refuses a difference exactly when both bounds are above 0 and max < min, or
-- both are below 0 and min < max. So a range of negative numbers in ascending order throws, although
-- the difference of two numbers of one sign never overflows.
pub make_int_thrown :
    (min max : ℤ)
    → (make_int min max ≡ fail Fault.thrown) ↔ (
        ((pos 0 <ℤ max) × (pos 0 <ℤ min) × (max <ℤ min))
        ⊎ ((max <ℤ pos 0) × (min <ℤ pos 0) × (min <ℤ max)))
unfolding make_int ov_sub ◌-ℤ◌
make_int_thrown min max = ground arith
