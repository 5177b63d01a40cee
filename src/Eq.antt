-- ===== src/Eq.antt =====
-- Equality tests as an interface, for the keys of tables.
use sysnode_backend.Base.{
  ℕ, ◌≡◌, refl, ◌↔◌, Bool, true, false, ◌==◌, ==_iff, Text, same_text, same_text_iff, Option, none,
  some,
}

pub record Eq {κ} (K : Type κ) : Type κ where
  pub beq : K → K → Bool
  pub beq_iff : (x y : K) → (beq x y ≡ true) ↔ (x ≡ y)

instance abbrev pub nat_eq : Eq ℕ
nat_eq = record { beq = ◌==◌; beq_iff = ==_iff }

instance abbrev pub text_eq : Eq Text
text_eq = record { beq = same_text; beq_iff = same_text_iff }

module _ {ℓ} {A : Type ℓ} ⦃e : Eq A⦄ where
  pub beq_refl : (a : A) → e.beq a a ≡ true
  beq_refl a = (e.beq_iff a a).1 refl

  -- `a === b` where a value may be null.
  abbrev pub same_option : Option A → Option A → Bool
  same_option (some a) (some b) = e.beq a b
  same_option none none = true
  same_option _ _ = false
