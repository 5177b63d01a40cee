-- ===== src/Receipts/Parse/Separators.antt =====
-- Splitting text at a character that does not stand in its parts.
use sysnode_backend.Base.{
  ℕ, suc, ◌≡◌, refl, true, false, not, some, [], ◌∷◌, ◌++◌, arith, ◌==◌, Text, length, all,
  is_digit, ℤ, pos, negsuc, all_mono, none,
}
use sysnode_backend.Receipts.Parse.{split, last_index_of}
use sysnode_backend.Receipts.Parse.Digits.{digits, print_nat, print_time, all-is_digit-digits}

-- Text without a given character is one part.
abbrev pub Free : ℕ → Text → Type 0
Free c s = all (λ x. not (x == c)) s ≡ true

pub split_of_Free : (c : ℕ) (s : Text) → Free c s → split c s ≡ s ∷ []
unfolding split
split_of_Free c [] h = refl
split_of_Free c (x ∷ s) h = ground (arith, split_of_Free c s)

pub split-append : (c : ℕ) (s t : Text) → Free c s → split c (s ++ c ∷ t) ≡ s ∷ split c t
unfolding split
split-append c [] t h = ground arith
split-append c (x ∷ s) t h = ground (arith, split-append c s t)

pub last_index_of-Free : (c : ℕ) (s : Text) → Free c s → last_index_of c s ≡ none
unfolding last_index_of
last_index_of-Free c [] h = refl
last_index_of-Free c (x ∷ s) h = ground (arith, last_index_of-Free c s)

pub last_index_of-append :
    (c : ℕ) (s t : Text) → Free c t → last_index_of c (s ++ c ∷ t) ≡ some (length s)
unfolding last_index_of
last_index_of-append c [] t h = rw (last_index_of-Free c t h) (ground arith)
last_index_of-append c (x ∷ s) t h = rw (last_index_of-append c s t h) refl

pub Free-of_digits : (c : ℕ) (s : Text) → is_digit c ≡ false → all is_digit s ≡ true → Free c s
Free-of_digits c s h = all_mono is_digit _ (λ x k. ground arith) s

pub Free-print_nat : (c n : ℕ) → is_digit c ≡ false → Free c (print_nat n)
unfolding print_nat
Free-print_nat c n h = Free-of_digits c (digits (suc n) n) h (all-is_digit-digits (suc n) n)

pub Free-print_time : (t : ℤ) → Free b':' (print_time t)
unfolding print_time
Free-print_time (pos n) = Free-print_nat b':' n refl
Free-print_time (negsuc n) = Free-print_nat b':' (suc n) refl
