-- ===== src/Measure/Number.antt =====
-- The numbers of float64, as an interface: the operations that the programs use, and what they rely
-- on of IEEE 754.
use s3proxy4gcs.Base.{ℕ, ◌≤◌, ◌≡◌, Bool, true, false, Option, Text}

pub record Float : Type 1 where
  pub F : Type 0
  -- `float64(n)`, and the hundredths of a literal such as 0.95.
  pub of_nat : ℕ → F
  pub hundredths : ℕ → F
  pub add : F → F → F
  pub sub : F → F → F
  pub mul : F → F → F
  pub div : F → F → F
  -- `a < b`, which is false where one of them is not a number.
  pub lt : F → F → Bool
  pub is_nan : F → Bool
  -- `math.Max`.
  pub max : F → F → F
  -- `math.Round`, and `int(x)` for a number that is not negative.
  pub round : F → F
  pub trunc : F → ℕ
  -- `strconv.ParseFloat`, with `none` for its error.
  pub parse : Text → Option F

module _ (fl : Float) where
  -- Not `b < a`.
  abbrev pub le : fl.F → fl.F → Type 0
  le a b = fl.lt b a ≡ false

  -- The order of the numbers, and operations that keep it: conversion, product with and division
  -- by a positive integer, rounding.
  pub record IsOrdered : Type 0 where
    pub asym : (a b : fl.F) → fl.lt a b ≡ true → le a b
    pub refl_le : (a : fl.F) → le a a
    pub trans : (a b c : fl.F) → fl.is_nan b ≡ false → le a b → le b c → le a c
    pub of_nat_mono : (m n : ℕ) → m ≤ n → le (fl.of_nat m) (fl.of_nat n)
    pub mul_mono :
        (a b : fl.F) (n : ℕ) → le a b → le (fl.mul a (fl.of_nat n)) (fl.mul b (fl.of_nat n))
    pub div_mono :
        (a b : fl.F) (n : ℕ) → 1 ≤ n → le a b → le (fl.div a (fl.of_nat n)) (fl.div b (fl.of_nat n))
    pub round_mono : (a b : fl.F) → le a b → le (fl.round a) (fl.round b)
    pub trunc_mono :
        (n p q : ℕ)
        → p ≤ q
        → fl.trunc (fl.mul (fl.of_nat n) (fl.hundredths p))
          ≤ fl.trunc (fl.mul (fl.of_nat n) (fl.hundredths q))
