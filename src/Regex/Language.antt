-- ===== src/Regex/Language.antt =====
-- What a regular expression matches, independently of the matcher: `Matches r s gs t` says that `r`
-- matches the front of `s` up to the rest `t`, with the groups `gs`.
use worker_ng.Base.{ℕ, zero, suc, ◌≡◌, ◌⊎◌, true, [], ◌∷◌, ◌++◌, All}
use worker_ng.Text.{Text, newline}
use worker_ng.Regex.{CharClass, Groups, Regex, chr, star, seq, opt, many, group, dollar, skip}

abbrev pub AllIn : CharClass → Text → Type 0
AllIn p = All (λ c. p c ≡ true)

-- `n` rounds of a relation.
abbrev pub Rounds : (Text → Groups → Text → Type 0) → ℕ → Text → Groups → Text → Type 0
Rounds R zero s gs t = (s ≡ t) × (gs ≡ [])
Rounds R (suc n) s gs u =
    (t : Text) × (g : Groups) × (h : Groups) × R s g t × Rounds R n t h u × (gs ≡ g ++ h)

abbrev pub Matches : Regex → Text → Groups → Text → Type 0
Matches (chr p) s gs t = (c : ℕ) × (p c ≡ true) × (s ≡ c ∷ t) × (gs ≡ [])
Matches (star p) s gs t = (xs : Text) × AllIn p xs × (s ≡ xs ++ t) × (gs ≡ [])
Matches (seq a b) s gs u =
    (t : Text) × (g : Groups) × (h : Groups) × Matches a s g t × Matches b t h u × (gs ≡ g ++ h)
Matches (opt a) s gs t = Matches a s gs t ⊎ ((s ≡ t) × (gs ≡ []))
Matches (many a) s gs t = (n : ℕ) × Rounds (Matches a) n s gs t
Matches (group name a) s gs t =
    (m : Text) × (g : Groups) × Matches a s g t × (s ≡ m ++ t) × (gs ≡ (name, m) ∷ g)
Matches dollar s gs t = (s ≡ t) × (gs ≡ []) × ((s ≡ []) ⊎ (s ≡ newline ∷ []))
Matches skip s gs t = (s ≡ t) × (gs ≡ [])
