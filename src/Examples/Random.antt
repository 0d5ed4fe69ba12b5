-- ===== src/Examples/Random.antt =====
-- What the scripts use of the module `random`: a generator with its state. A draw between two bounds
-- lies between them, and a word of random letters has the length that is asked for.
use worker_ng.Base.{ℕ, ℤ, ◌≡◌, ◌≤◌, length}
use worker_ng.Text.{Text}

pub record Random : Type 1 where
  pub State : Type 0
  pub seed : ℤ → State
  -- `random.randint(low, high)`, where the range is not empty
  pub randint : ℕ → ℕ → State → ℕ × State
  pub randint_bounds :
      (low high : ℕ) (s : State)
      → low ≤ high
      → (low ≤ (randint low high s).0) × ((randint low high s).0 ≤ high)
  -- `"".join(random.choices(string.ascii_lowercase, k=k))`
  pub letters : ℕ → State → Text × State
  pub length-letters : (k : ℕ) (s : State) → length (letters k s).0 ≡ k
