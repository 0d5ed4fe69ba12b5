-- ===== src/Shlex/Joined.antt =====
-- Splitting what `join` has put together.
use worker_ng.Base.{
  ℕ, ◌≡◌, refl, sym, ap, ◌∙◌, Bool, true, false, List, [], ◌∷◌, ◌++◌, append-nil, append_assoc,
  ◌==◌, ==_iff, Bool-cases, inl, inr, arith,
}
use worker_ng.Text.{Text}
use worker_ng.Errors.{ok}
use worker_ng.Shlex.{
  between, word, single_quotes, is_blank, has_token, split_loop, split, is_safe, all_safe,
  replace_quotes, quote, join,
}

-- A safe character is not an unsafe one.
safe-ne : (c d : ℕ) → is_safe d ≡ false → is_safe c ≡ true → (c == d) ≡ false
safe-ne c d bad good = elim (Bool-cases (c == d)) [
  | inl e ↦
      let same : is_safe c ≡ is_safe d = ap is_safe ((==_iff c d).0 e) in
      let wrong : true ≡ false = sym good ∙ (same ∙ bad) in cc
  | inr e ↦ e
]

module _ (c : ℕ) (safe : is_safe c ≡ true) where
  not_blank : is_blank c ≡ false
  unfolding is_safe
  not_blank =
      rw
        (
          safe-ne c 32 refl safe,
          safe-ne c 9 refl safe,
          safe-ne c 13 refl safe,
          safe-ne c 10 refl safe,
        )
        refl

  -- A safe character goes on with the word, and begins one.
  safe_step :
      (token s : Text) (is_quoted : Bool)
      → split_loop false word token is_quoted (c ∷ s)
        ≡ split_loop false word (token ++ c ∷ []) is_quoted s
  unfolding split_loop is_safe
  safe_step token s is_quoted =
      rw (not_blank, safe-ne c 39 refl safe, safe-ne c 34 refl safe, safe-ne c 92 refl safe) refl

  safe_start :
      (s : Text)
      → split_loop false between [] false (c ∷ s) ≡ split_loop false word (c ∷ []) false s
  unfolding split_loop is_safe
  safe_start s =
      rw (not_blank, safe-ne c 39 refl safe, safe-ne c 34 refl safe, safe-ne c 92 refl safe) refl

pub safe_head :
    (c : ℕ) (s : Text) → all_safe (c ∷ s) ≡ true → (is_safe c ≡ true) × (all_safe s ≡ true)
unfolding all_safe
safe_head c s h = (ground arith, ground arith)

safe_word :
    (t token s : Text) (is_quoted : Bool)
    → all_safe t ≡ true
    → split_loop false word token is_quoted (t ++ s)
      ≡ split_loop false word (token ++ t) is_quoted s
safe_word [] token s is_quoted h = rw append-nil
safe_word (c ∷ t) token s is_quoted h =
    let (one, rest) = safe_head c t h in
    safe_step c one token (t ++ s) is_quoted
    ∙ (safe_word t (token ++ c ∷ []) s is_quoted rest ∙ rw append_assoc refl)

-- A quote within single quotes, as `quote` writes it.
quoted_quote :
    (token s : Text)
    → split_loop false single_quotes token true (39 ∷ 34 ∷ 39 ∷ 34 ∷ 39 ∷ s)
      ≡ split_loop false single_quotes (token ++ 39 ∷ []) true s
unfolding split_loop
quoted_quote token s = refl

single_other :
    (c : ℕ) (token s : Text)
    → (c == 39) ≡ false
    → split_loop false single_quotes token true (c ∷ s)
      ≡ split_loop false single_quotes (token ++ c ∷ []) true s
unfolding split_loop
single_other c token s e = rw e refl

replace_quotes-quote :
    (c : ℕ) (t : Text)
    → (c == 39) ≡ true
    → replace_quotes (c ∷ t) ≡ 39 ∷ 34 ∷ 39 ∷ 34 ∷ 39 ∷ replace_quotes t
unfolding replace_quotes
replace_quotes-quote c t e = rw e refl

replace_quotes-other :
    (c : ℕ) (t : Text) → (c == 39) ≡ false → replace_quotes (c ∷ t) ≡ c ∷ replace_quotes t
unfolding replace_quotes
replace_quotes-other c t e = rw e refl

quoted_word :
    (t token s : Text)
    → split_loop false single_quotes token true (replace_quotes t ++ 39 ∷ s)
      ≡ split_loop false word (token ++ t) true s
quoted_word [] token s = unfold split_loop replace_quotes in rw append-nil
quoted_word (c ∷ t) token s = elim (Bool-cases (c == 39)) [
  | inl e ↦ rw (replace_quotes-quote c t e) (
      quoted_quote token (replace_quotes t ++ 39 ∷ s)
      ∙ (quoted_word t (token ++ 39 ∷ []) s ∙ rw (append_assoc, (==_iff c 39).0 e) refl))
  | inr e ↦ rw (replace_quotes-other c t e) (
      single_other c token (replace_quotes t ++ 39 ∷ s) e
      ∙ (quoted_word t (token ++ c ∷ []) s ∙ rw append_assoc refl))
]

-- The first character within the quotes marks the token as quoted.
single_marked :
    (xs s : Text)
    → split_loop false single_quotes [] false (xs ++ 39 ∷ s)
      ≡ split_loop false single_quotes [] true (xs ++ 39 ∷ s)
unfolding split_loop
single_marked [] s = refl
single_marked (c ∷ xs) s = refl

pub quote-safe : (c : ℕ) (x : Text) → all_safe (c ∷ x) ≡ true → quote (c ∷ x) ≡ c ∷ x
unfolding quote
quote-safe c x e = rw e refl

quote-unsafe :
    (c : ℕ) (x : Text)
    → all_safe (c ∷ x) ≡ false
    → quote (c ∷ x) ≡ 39 ∷ (replace_quotes (c ∷ x) ++ 39 ∷ [])
unfolding quote
quote-unsafe c x e = rw e refl

quote_start :
    (s : Text)
    → split_loop false between [] false (39 ∷ s) ≡ split_loop false single_quotes [] false s
unfolding split_loop
quote_start s = refl

-- A quoted word is read back whole.
quote-word :
    (x s : Text)
    → (is_quoted : Bool) × (has_token x is_quoted ≡ true)
      × (split_loop false between [] false (quote x ++ s) ≡ split_loop false word x is_quoted s)
quote-word [] s = (true, refl, unfold quote split_loop in refl)
quote-word (c ∷ x) s = elim (Bool-cases (all_safe (c ∷ x))) [
  | inl e ↦
      let (one, rest) = safe_head c x e in
      (
        false,
        refl,
        rw (quote-safe c x e) (safe_start c one (x ++ s) ∙ safe_word x (c ∷ []) s false rest),
      )
  | inr e ↦ (
    true,
    refl,
    rw (quote-unsafe c x e, append_assoc)
        (quote_start (replace_quotes (c ∷ x) ++ 39 ∷ s)
          ∙ (single_marked (replace_quotes (c ∷ x)) s ∙ quoted_word (c ∷ x) [] s)),
  )
]

-- Behind a word, its token is delivered at the end and at a blank.
word_end : (x : Text) (q : Bool) → has_token x q ≡ true → split_loop false word x q [] ≡ ok (x ∷ [])
unfolding split_loop
word_end x q h = rw h refl

word_blank :
    (x s : Text) (q : Bool) {ts : List Text}
    → has_token x q ≡ true
    → split_loop false between [] false s ≡ ok ts
    → split_loop false word x q (32 ∷ s) ≡ ok (x ∷ ts)
unfolding split_loop
word_blank x s q h e = rw (e, h) refl

-- What `shlex.join` has put together, `shlex.split` takes apart into the same arguments, whatever
-- characters they hold.
pub split-join : (ts : List Text) → split false (join ts) ≡ ok ts
unfolding split join
split-join [] = unfold split_loop in refl
split-join (x ∷ []) =
    let (q, h, e) = quote-word x [] in rw (← append-nil (quote x)) (e ∙ word_end x q h)
split-join (x ∷ y ∷ ts) =
    let (q, h, e) = quote-word x (32 ∷ join (y ∷ ts)) in
    e ∙ word_blank x (join (y ∷ ts)) q h (split-join (y ∷ ts))
