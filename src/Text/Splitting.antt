-- ===== src/Text/Splitting.antt =====
-- `split` on one character: a part without the separator comes off whole.
use worker_ng.Base.{◌≡◌, refl, arith, ℕ, [], ◌∷◌, ◌++◌}
use worker_ng.Text.{Text, split, prepend}
use worker_ng.Text.Lines.{Lacks}

pub split_last : (sep : ℕ) (p : Text) → Lacks sep p → split sep p ≡ p ∷ []
unfolding split prepend
split_last sep [] h = refl
split_last sep (c ∷ p) (h, hs) = rw (h, split_last sep p hs)

pub split_part :
    (sep : ℕ) (p rest : Text) → Lacks sep p → split sep (p ++ sep ∷ rest) ≡ p ∷ split sep rest
unfolding split prepend
split_part sep [] rest h = ground arith
split_part sep (c ∷ p) rest (h, hs) = rw (h, split_part sep p rest hs)
