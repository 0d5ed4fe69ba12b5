-- ===== src/Tests/Checks.antt =====
-- Tests by evaluation of predicates over lists.
use worker_ng.Base.{◌≡◌, Bool, true, false, not, ◌&&◌, List, [], ◌∷◌, arith, All}

module _ {A : Type 0} (p : A → Bool) where
  abbrev pub none_of : List A → Bool
  none_of [] = true
  none_of (x ∷ xs) = not (p x) && none_of xs

  pub All-none_of : (xs : List A) → none_of xs ≡ true → All (λ x. p x ≡ false) xs
  All-none_of [] h = tt
  All-none_of (x ∷ xs) h = (ground arith, All-none_of xs (ground arith))

  abbrev pub all_of : List A → Bool
  all_of [] = true
  all_of (x ∷ xs) = p x && all_of xs

  pub All-all_of : (xs : List A) → all_of xs ≡ true → All (λ x. p x ≡ true) xs
  All-all_of [] h = tt
  All-all_of (x ∷ xs) h = (ground arith, All-all_of xs (ground arith))
