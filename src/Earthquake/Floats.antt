-- ===== src/Earthquake/Floats.antt =====
-- The floating-point numbers that EARTHQUAKE.cpp computes with: `F` stands for `double`, and
-- `single` rounds to `float`. The laws are those of comparisons in IEEE 754.
use live_streamer.Common.{ℕ, ◌<◌, ◌≡◌, Bool, true, false, not}
use live_streamer.Common.Int.{ℤ}
use live_streamer.Text.{Text}

pub record Floats (F : Type 0) : Type 0 where
  -- The `double` for n / 100000.
  pub lit : ℕ → F
  pub of_int : ℤ → F
  pub single : F → F
  pub add : F → F → F
  pub sub : F → F → F
  pub mul : F → F → F
  pub div : F → F → F
  pub fabs : F → F
  pub ceil : F → F
  -- `(int) x`
  pub trunc : F → ℤ
  -- `x < y` and `x <= y`
  pub less : F → F → Bool
  pub less_eq : F → F → Bool
  -- What an `ostringstream` makes of it.
  pub to_text : F → Text
  pub is_nan : F → Bool
  pub less_eq-less : (x : F) (n : ℕ) → is_nan x ≡ false → less_eq (lit n) x ≡ not (less x (lit n))
  pub less-less_eq : (x : F) (n : ℕ) → is_nan x ≡ false → less_eq x (lit n) ≡ not (less (lit n) x)
  pub less-lit : (x : F) (n m : ℕ) → n < m → less x (lit n) ≡ true → less x (lit m) ≡ true
  -- Numbers of so few digits are told apart.
  pub lit-less :
      (x : F) (n m : ℕ)
      → n < m
      → m < 1000000000000
      → less_eq (lit m) x ≡ true
      → less (lit n) x ≡ true
  -- No number is below a literal and above a greater one.
  pub lit-apart : (x : F) (n m : ℕ) → n < m → less x (lit n) ≡ true → less (lit m) x ≡ false
