-- ===== src/Consolidation/Double.antt =====
-- What the program does with a `float`. The arithmetic is Python's and is a parameter.
use memory_system.Shared.{ℕ, ◌≡◌, Bool, true}
use memory_system.Shared.Int.{ℤ}

pub record Double (W : Type 0) : Type 0 where
  pub le : W → W → Bool
  pub is_finite : W → Bool
  pub nought : W
  pub one : W
  pub hundredths : ℕ → W
  pub max_of : W → W → W
  pub min_of : W → W → W
  pub plus : W → W → W
  pub minus : W → W → W
  pub times : W → W → W
  pub over : W → W → W
  pub of_int : ℤ → W
  pub of_count : ℕ → W
  pub log : W → W
  -- -math.log(2)
  pub neg_ln2 : W
  pub exp : W → W
  -- round(x, 4)
  pub round4 : W → W

-- What is true of them: a value that compares is not NaN, and `max` and `min` give back their first
-- argument unless the second is beyond it, NaN included.
pub record IsOrdered (W : Type 0) (double : Double W) : Type 0 where
  pub refl_of_le :
      (x y : W) → double.le x y ≡ true → (double.le x x ≡ true) × (double.le y y ≡ true)
  pub le-max_of : (x y : W) → double.le x x ≡ true → double.le x (double.max_of x y) ≡ true
  pub max_of-le :
      (x y z : W)
      → double.le x z ≡ true
      → double.le y z ≡ true
      → double.le (double.max_of x y) z ≡ true
  pub min_of-le : (x y : W) → double.le x x ≡ true → double.le (double.min_of x y) x ≡ true
  pub round4-mono :
      (x y : W) → double.le x y ≡ true → double.le (double.round4 x) (double.round4 y) ≡ true
