-- ===== src/Prelude/Floats.antt =====
-- `float64`, which the code computes with and does not implement: its operations, and the laws of
-- IEEE 754 comparison that the theorems use. `whole` below is a model of both, with a NaN.
use Prim.Native.Nat.{ℕ, ◌+◌, ◌*◌, ◌-◌, ◌/◌}
use mathlib.Core.Path.{◌≡◌}
use mathlib.Core.Bool.{Bool, true, false, not, ◌||◌}
use mathlib.Core.Option.{Option, none, some}
use native.Mathlib.Omega.{arith}
use dbs_monitor.Prelude.Tests.{ltb, leb, ◌==◌}

pub record Float64 : Type 1 where
  pub F : Type 0
  -- `float64(n)` of a non-negative integer.
  pub of_ℕ : ℕ → F
  pub add : F → F → F
  pub sub : F → F → F
  pub mul : F → F → F
  pub div : F → F → F
  pub lt : F → F → Bool
  pub le : F → F → Bool
  pub eq : F → F → Bool
  pub is_nan : F → Bool
  pub is_inf : F → Bool

-- Off NaN the comparisons are those of a total order, and a NaN compares with nothing.
pub record Float64Laws (f : Float64) : Type 0 where
  pub le_not_lt : (a b : f.F) → f.is_nan a ≡ false → f.is_nan b ≡ false → f.le a b ≡ not (f.lt b a)
  pub le_refl : (a : f.F) → f.is_nan a ≡ false → f.le a a ≡ true
  pub le_trans : (a b c : f.F) → f.le a b ≡ true → f.le b c ≡ true → f.le a c ≡ true
  pub lt_le : (a b : f.F) → f.lt a b ≡ true → f.le a b ≡ true
  pub nan_lt : (a b : f.F) → (f.is_nan a || f.is_nan b) ≡ true → f.lt a b ≡ false
  pub nan_le : (a b : f.F) → (f.is_nan a || f.is_nan b) ≡ true → f.le a b ≡ false
  pub nan_eq : (a b : f.F) → (f.is_nan a || f.is_nan b) ≡ true → f.eq a b ≡ false

abbrev lift : (ℕ → ℕ → ℕ) → Option ℕ → Option ℕ → Option ℕ
lift g (some a) (some b) = some (g a b)
lift g none b = none
lift g (some a) none = none

abbrev compared : (ℕ → ℕ → Bool) → Option ℕ → Option ℕ → Bool
compared g (some a) (some b) = g a b
compared g none b = false
compared g (some a) none = false

abbrev is_none : Option ℕ → Bool
is_none none = true
is_none (some a) = false

-- Whole numbers with a NaN, `none`.
abbrev pub whole : Float64
whole = record {
  F = Option ℕ;
  of_ℕ = some;
  add = lift ◌+◌;
  sub = lift ◌-◌;
  mul = lift ◌*◌;
  div = lift ◌/◌;
  lt = compared ltb;
  le = compared leb;
  eq = compared ◌==◌;
  is_nan = is_none;
  is_inf = λ a. false;
}

whole_trans :
    (a b c : Option ℕ) → compared leb a b ≡ true → compared leb b c ≡ true → compared leb a c ≡ true
whole_trans (some a) (some b) (some c) h k = ground arith
whole_trans none b c h k = ground arith
whole_trans (some a) none c h k = ground arith
whole_trans (some a) (some b) none h k = ground arith

pub whole_laws : Float64Laws whole
whole_laws = record {
  le_not_lt = λ a b h k. ground arith;
  le_refl = λ a h. ground arith;
  le_trans = whole_trans;
  lt_le = λ a b h. ground arith;
  nan_lt = λ a b h. ground arith;
  nan_le = λ a b h. ground arith;
  nan_eq = λ a b h. ground arith;
}
