-- ===== src/Prelude/Int.antt =====
-- Signed integers, under the library's names (its ℤ stands on the unary ℕ): what a C++ `int` that
-- may fall below zero needs.
use Prim.Native.Nat.{ℕ, zero, suc, ◌+◌, ◌-◌}
use mathlib.Core.Path.{◌≡◌, refl}
use mathlib.Core.Bool.{Bool, true, false}
use native.Mathlib.Omega.{arith}
use quorumkit.Prelude.Tests.{leb, if◌then◌else◌}

-- `negsuc n` is -(n + 1).
pub data ℤ : Type 0 where
  pos : ℕ → ℤ
  negsuc : ℕ → ℤ

-- a - b, as an integer.
abbrev pub sub_ℕ : ℕ → ℕ → ℤ
sub_ℕ a b = if leb b a then pos (a - b) else negsuc (b - a - 1)

-- `--a`
abbrev pub dec_ℤ : ℤ → ℤ
dec_ℤ (pos zero) = negsuc 0
dec_ℤ (pos (suc n)) = pos n
dec_ℤ (negsuc n) = negsuc (n + 1)

-- `a <= 0`
abbrev pub is_nonpos : ℤ → Bool
is_nonpos (pos zero) = true
is_nonpos (pos (suc n)) = false
is_nonpos (negsuc n) = true

pub dec-sub_ℕ : (a b : ℕ) → dec_ℤ (sub_ℕ a b) ≡ sub_ℕ a (b + 1)
dec-sub_ℕ zero zero = refl
dec-sub_ℕ zero (suc b) = ground arith
dec-sub_ℕ (suc a) b = ground arith

pub is_nonpos-sub_ℕ : (a b : ℕ) → is_nonpos (sub_ℕ a b) ≡ leb a b
is_nonpos-sub_ℕ a b = ground arith
