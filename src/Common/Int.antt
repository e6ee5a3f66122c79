-- ===== src/Common/Int.antt =====
-- Go's int where a value may be negative: signed integers over the native numbers.
use piccolod.Common.{ℕ, ◌≡◌, ◌↔◌, Bool, true, false, arith, Eq, nat_eq, nat_eq_iff, leb, ltb}

-- `negsuc n` is -(n + 1).
pub data ℤ : Type 0 where
  pos : ℕ → ℤ
  negsuc : ℕ → ℤ

abbrev pub int_eq : ℤ → ℤ → Bool
int_eq (pos a) (pos b) = nat_eq a b
int_eq (negsuc a) (negsuc b) = nat_eq a b
int_eq _ _ = false

pub int_eq_iff : (a b : ℤ) → (int_eq a b ≡ true) ↔ (a ≡ b)
int_eq_iff (pos a) (pos b) = ground (arith, nat_eq_iff a b)
int_eq_iff (pos a) (negsuc b) = ((λ h. cc), (λ h. cc))
int_eq_iff (negsuc a) (pos b) = ((λ h. cc), (λ h. cc))
int_eq_iff (negsuc a) (negsuc b) = ground (arith, nat_eq_iff a b)

instance abbrev pub Eq-int : Eq ℤ
Eq-int = record { beq = int_eq; beq_iff = int_eq_iff }

-- a <= n, for a number n
abbrev pub int_leb : ℤ → ℕ → Bool
int_leb (pos a) n = leb a n
int_leb (negsuc a) n = true

-- n < a, for a number n
abbrev pub int_gtb : ℤ → ℕ → Bool
int_gtb (pos a) n = ltb n a
int_gtb (negsuc a) n = false
