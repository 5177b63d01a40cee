-- ===== src/Js.antt =====
-- JavaScript values, as far as the source tells them apart, and the number conversions it uses.
use native.Mathlib.Nat.{mul-one}
use sysnode_backend.Base.{
  ℕ, zero, suc, ◌+◌, ◌-◌, ◌*◌, ◌/◌, ◌%◌, ◌^◌, ◌≡◌, refl, Bool, Option, none, some, [], ◌∷◌, arith,
  ltb, if◌then◌else◌, Text, is_hex64, same_text, ℤ, pos, ◌<◌, lt→ltb,
}

-- `non_integer` is any other number: a fraction, an infinity or NaN.
mutual
  pub data Js : Type 0 where
    undefined null non_integer : Js
    bool : Bool → Js
    int : ℤ → Js
    str : Text → Js
    arr : Items → Js
    obj : Fields → Js

  pub data Items : Type 0 where
    nil : Items
    cons : Js → Items → Items

  pub data Fields : Type 0 where
    end : Fields
    field : Text → Js → Fields → Fields

-- `typeof s === 'string' && HEX64.test(s)`
abbrev pub hash_of : Js → Option Text
hash_of (str s) = if is_hex64 s then some s else none
hash_of _ = none

-- `Number.isInteger(n) && n > 0`
abbrev pub positive_integer : Js → Option ℕ
positive_integer (int (pos (suc n))) = some (suc n)
positive_integer _ = none

-- `Number.isInteger(n) && n >= 0`
abbrev pub non_negative_integer : Js → Option ℕ
non_negative_integer (int (pos n)) = some n
non_negative_integer _ = none

-- The property of an object, `undefined` where it is missing.
unfoldable pub property : Text → Fields → Js
property k end = undefined
property k (field j v fs) = let rest = property k fs in if same_text j k then v else rest

-- The value of a run of decimal digits.
unfoldable pub decimal : ℕ → Text → ℕ
decimal acc [] = acc
decimal acc (c ∷ s) = decimal (acc * 10 + (c - b'0')) s

-- A quotient rounded to the nearest integer, ties to the even one.
unfoldable pub round_half_even : ℕ → ℕ → ℕ
round_half_even n step =
    let q = n / step in
    let r = n % step in
    if ltb (2 * r) step then q else if ltb step (2 * r) then q + 1 else q + q % 2

-- The double nearest to `n` that `Number` gives for its digits; `none` is an infinity. The step
-- between doubles doubles 971 times above 2 ^ 53.
double_from : ℕ → ℕ → ℕ → Option ℕ
double_from zero step n = none
double_from (suc fuel) step n =
    let next = double_from fuel (2 * step) n in
    let rounded = round_half_even n step * step in
    if ltb n (step * 2 ^ 53) then (if ltb rounded (2 ^ 1024) then some rounded else none) else next

unfoldable pub to_double : ℕ → Option ℕ
unfolding double_from round_half_even
to_double n = double_from 972 1 n

round_half_even_one : (n : ℕ) → round_half_even n 1 ≡ n
unfolding round_half_even
round_half_even_one n = ground arith

double_from_first : (fuel n : ℕ) → n < 2 ^ 53 → n < 2 ^ 1024 → double_from (suc fuel) 1 n ≡ some n
unfolding double_from
double_from_first fuel n h k =
    rw (round_half_even_one n, mul-one n, lt→ltb n (2 ^ 53) h, lt→ltb n (2 ^ 1024) k) refl

below_infinity : (n : ℕ) → n < 2 ^ 53 → n < 2 ^ 1024
below_infinity n h = omega arith

-- Below 2 ^ 53 the conversion is exact.
pub to_double_exact : (n : ℕ) → n < 2 ^ 53 → to_double n ≡ some n
unfolding to_double
to_double_exact n h = double_from_first 971 n h (below_infinity n h)
