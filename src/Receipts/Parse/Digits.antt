-- ===== src/Receipts/Parse/Digits.antt =====
-- Printing numbers and times in decimal, and that the parser reads them back.
use sysnode_backend.Base.{
  ℕ, zero, suc, ◌+◌, ◌-◌, ◌*◌, ◌/◌, ◌%◌, ◌^◌, ◌<◌, ◌≤◌, ◌≡◌, ltb→lt, refl, true, false, some, [],
  ◌∷◌, ◌++◌, arith, ltb, ◌==◌, if◌then◌else◌, Text, length, all, is_digit, ℤ, pos, negsuc,
  all-append, Bool-cases, length-append, inl, inr, le→leb,
}
use sysnode_backend.Js.{decimal, to_double, to_double_exact}
use sysnode_backend.Receipts.Parse.{is_digits, parse_index, parse_time}

-- The decimal digits of a number below the fuel.
pub digits : ℕ → ℕ → Text
digits zero n = []
digits (suc fuel) n =
    let front = digits fuel (n / 10) in
    let last = (b'0' + n % 10) ∷ [] in if ltb n 10 then last else front ++ last

unfoldable pub print_nat : ℕ → Text
print_nat n = digits (suc n) n

decimal-append_digit :
    (s : Text) (acc d : ℕ) → decimal acc (s ++ (b'0' + d) ∷ []) ≡ decimal acc s * 10 + d
unfolding decimal
decimal-append_digit [] acc d = omega arith
decimal-append_digit (c ∷ s) acc d = decimal-append_digit s (acc * 10 + (c - b'0')) d

decimal-digits : (fuel n : ℕ) → n < fuel → decimal 0 (digits fuel n) ≡ n
unfolding digits
decimal-digits zero n h = elim h [ ]
decimal-digits (suc fuel) n h = elim (Bool-cases (ltb n 10)) [
  | inl small ↦ rw small (unfold decimal in omega (arith, ltb→lt n 10 small))
  | inr big ↦
      rw (big, decimal-append_digit (digits fuel (n / 10)) 0 (n % 10))
        (omega (arith, decimal-digits fuel (n / 10) (ground arith)))
]

is_digit_of_digit : (d : ℕ) → d < 10 → all is_digit ((b'0' + d) ∷ []) ≡ true
is_digit_of_digit d h = ground arith

pub all-is_digit-digits : (fuel n : ℕ) → all is_digit (digits fuel n) ≡ true
unfolding digits
all-is_digit-digits zero n = refl
all-is_digit-digits (suc fuel) n = elim (Bool-cases (ltb n 10)) [
  | inl small ↦ rw small (is_digit_of_digit (n % 10) (omega arith))
  | inr big ↦ rw big (
      all-append is_digit (digits fuel (n / 10)) _ (all-is_digit-digits fuel (n / 10))
        (is_digit_of_digit (n % 10) (omega arith)))
]

digits_nonempty : (fuel n : ℕ) → (length (digits (suc fuel) n) == 0) ≡ false
unfolding digits
digits_nonempty fuel n = elim (Bool-cases (ltb n 10)) [
  | inl small ↦ rw small refl
  | inr big ↦ rw (big, length-append (digits fuel (n / 10)) ((b'0' + n % 10) ∷ [])) (ground arith)
]

pub print_nat_pos : (n : ℕ) → 0 < length (print_nat n)
unfolding print_nat
print_nat_pos n = ground (arith, digits_nonempty n n)

pub is_digits-print_nat : (n : ℕ) → is_digits (print_nat n) ≡ true
unfolding print_nat is_digits
is_digits-print_nat n = rw (digits_nonempty n n, all-is_digit-digits (suc n) n)

pub decimal-print_nat : (n : ℕ) → decimal 0 (print_nat n) ≡ n
unfolding print_nat
decimal-print_nat n = decimal-digits (suc n) n (omega arith)

pub parse_index-print_nat : (n : ℕ) → n ≤ 0xffffffff → parse_index (print_nat n) ≡ some n
unfolding parse_index
parse_index-print_nat n h =
    rw
      (
        is_digits-print_nat n,
        decimal-print_nat n,
        to_double_exact n (omega arith),
        le→leb n 0xffffffff h,
      )
      refl

unfoldable pub print_time : ℤ → Text
print_time (pos n) = print_nat n
print_time (negsuc n) = b'-' ∷ print_nat (suc n)

-- The magnitude of a signed number.
abbrev pub magnitude : ℤ → ℕ
magnitude (pos n) = n
magnitude (negsuc n) = suc n

parse_time_of_digits :
    (s : Text) (n : ℕ)
    → is_digits s ≡ true
    → to_double (decimal 0 s) ≡ some n
    → parse_time s ≡ some (pos n)
unfolding parse_time is_digits
parse_time_of_digits [] n h e = cc
parse_time_of_digits (c ∷ s) n h e = ground arith

pub parse_time-print_time : (t : ℤ) → magnitude t < 2 ^ 53 → parse_time (print_time t) ≡ some t
unfolding print_time
parse_time-print_time (pos n) h =
    parse_time_of_digits (print_nat n) n (is_digits-print_nat n)
      (rw (decimal-print_nat n) (to_double_exact n h))
parse_time-print_time (negsuc n) h =
    unfold parse_time in
    rw (is_digits-print_nat (suc n), decimal-print_nat (suc n), to_double_exact (suc n) h) refl
