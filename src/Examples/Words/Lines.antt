-- ===== src/Examples/Words/Lines.antt =====
-- The lines that are written: their words fit.
use Prim.Native.Nat.{min}
use worker_ng.Base.{
  ℕ, zero, suc, ◌+◌, ◌≤◌, ◌<◌, ◌≡◌, refl, ap, inl, inr, some, List, [], ◌∷◌, ◌++◌, length,
  length-append, init, ltb, Bool-cases, arith, All, All-append,
}
use worker_ng.Text.{Text, codes}
use worker_ng.Errors.{ok}
use worker_ng.Options.CommandLine.{join}
use worker_ng.Examples.Random.{Random}
use worker_ng.Examples.Words.{max_word_length, draw_word, words_loop, make_line, fitted}

-- The length of a line with a blank behind each word.
width : List Text → ℕ
width [] = 0
width (w ∷ ws) = length w + 1 + width ws

width-append : (xs ys : List Text) → width (xs ++ ys) ≡ width xs + width ys
unfolding width
width-append [] ys = omega arith
width-append (x ∷ xs) ys = omega (arith, width-append xs ys)

init-append_one : (xs : List Text) (w : Text) → init (xs ++ w ∷ []) ≡ xs
init-append_one [] w = refl
init-append_one (x ∷ []) w = refl
init-append_one (x ∷ y ∷ xs) w = ap (◌∷◌ x) (init-append_one (y ∷ xs) w)

length-blank : (w t : Text) → length (w ++ codes " " ++ t) ≡ length w + 1 + length t
length-blank w t = omega (arith, length-append (w ++ codes " ") t, length-append w (codes " "))

-- The line itself is one shorter, if it has a word.
length-join : (w : Text) (ws : List Text) → length (join (codes " ") (w ∷ ws)) + 1 ≡ width (w ∷ ws)
unfolding width join
length-join w [] = omega arith
length-join w (v ∷ ws) =
    let rest = join (codes " ") (v ∷ ws) in
    let step : length (join (codes " ") (w ∷ v ∷ ws)) ≡ length w + 1 + length rest =
      length-blank w rest in
    omega (arith, length-join v ws, step)

-- A word that may be drawn.
abbrev pub IsWord : Text → Type 0
IsWord w = (1 ≤ length w) × (length w ≤ max_word_length)

-- A line that is written: words that fit, at least one if the longest word does.
abbrev pub IsLine : ℕ → List Text → Type 0
IsLine n words =
    All IsWord words
    × (length (join (codes " ") words) < n)
    × (suc max_word_length ≤ n → 0 < length words)

-- What holds when the inner loop ends: the last word has made the line long enough.
record Filled (n : ℕ) (words : List Text) (line_length : ℕ) : Type 0 where
  counted : line_length ≡ width words
  short : width (init words) < n
  full : n ≤ line_length
  drawn : All IsWord words

-- Words are kept as they are when the line is full.
whole-IsLine :
    (n : ℕ) (words : List Text) (l : ℕ) → 0 < n → Filled n words l → l ≤ n → IsLine n words
unfolding width
whole-IsLine n [] l h f le = absurd (omega (arith, f.counted, f.full))
whole-IsLine n (w ∷ ws) l h f le =
    (f.drawn, omega (arith, length-join w ws, f.counted), λ _. omega arith)

All-init : (xs : List Text) → All IsWord xs → All IsWord (init xs)
All-init [] h = tt
All-init (x ∷ []) h = tt
All-init (x ∷ y ∷ xs) (h, hs) = (h, All-init (y ∷ xs) hs)

popped-IsLine :
    (n : ℕ) (words : List Text) (l : ℕ) → 0 < n → Filled n words l → n < l → IsLine n (init words)
unfolding width join
popped-IsLine n [] l h f lt = absurd (omega (arith, f.counted))
popped-IsLine n (w ∷ []) l h f lt = (tt, h, λ g. absurd (omega (arith, f.counted, f.drawn.0)))
popped-IsLine n (w ∷ v ∷ ws) l h f lt = (
  All-init (w ∷ v ∷ ws) f.drawn,
  omega (arith, length-join w (init (v ∷ ws)), f.short),
  λ _. omega arith,
)

-- A line without a character has no words.
pub blank-nil :
    (words : List Text) → All IsWord words → length (join (codes " ") words) < 1 → words ≡ []
unfolding width
blank-nil [] h lt = refl
blank-nil (w ∷ ws) h lt = absurd (omega (arith, length-join w ws, h.0))

module _ (r : Random) where
  draw_word-IsWord :
      (n : ℕ) (s : r.State) → 0 < n → IsWord (draw_word r (min max_word_length n) s).0
  draw_word-IsWord n s h =
      let k = (r.randint 1 (min max_word_length n) s).0 in
      let s' = (r.randint 1 (min max_word_length n) s).1 in
      let bounds = r.randint_bounds 1 (min max_word_length n) s (omega arith) in
      omega (arith, bounds, r.length-letters k s')

  words_loop-Filled :
      (fuel n : ℕ) (words : List Text) (line_length : ℕ) (s : r.State)
      → 0 < fuel
      → n < fuel + line_length
      → line_length ≡ width words
      → width (init words) < n
      → All IsWord words
      → (ws : List Text) × (l : ℕ) × (s' : r.State) × (words_loop r fuel n words line_length s
          ≡ some (ws, l, s'))
        × Filled n ws l
  unfolding words_loop width
  words_loop-Filled zero n words line_length s h g e short drawn = absurd (omega arith)
  words_loop-Filled (suc fuel) n words line_length s h g e short drawn =
      elim (Bool-cases (ltb line_length n)) [
        | inl lt ↦
            let (word, s1) = draw_word r (min max_word_length n) s in
            let is = draw_word-IsWord n s (omega (arith, h, e, g, short)) in
            let room : line_length < n = ground arith in
            let (ws, l, s2, run, filled) =
              words_loop-Filled fuel n (words ++ word ∷ []) (line_length + length word + 1) s1
                (omega arith) (omega (arith, is)) (omega (arith, width-append words (word ∷ []), e))
                (rw (init-append_one words word) (omega arith))
                (All-append IsWord words (word ∷ []) drawn (is, tt)) in
            (ws, l, s2, rw lt run, filled)
        | inr ge ↦ (
          words,
          line_length,
          s,
          rw ge refl,
          record { counted = e; short = short; full = ground arith; drawn = drawn },
        )
      ]

  pub make_line-IsLine :
      (n : ℕ) (s : r.State)
      → 0 < n
      → (words : List Text) × (s' : r.State) × (make_line r n s ≡ some (ok (words, s')))
        × IsLine n words
  unfolding make_line width
  make_line-IsLine n s h =
      let (words, l, s', run, f) =
        words_loop-Filled (suc n) n [] 0 s (omega arith) (omega arith) refl h tt in
      rw run (go words l s' f)
    where
      go :
          (words : List Text) (l : ℕ) (s' : r.State)
          → Filled n words l
          → (ws : List Text) × (s1 : r.State) × (fitted r n (some (words, l, s'))
              ≡ some (ok (ws, s1)))
            × IsLine n ws
      go [] l s' f = absurd (omega (arith, f.counted, f.full))
      go (w ∷ ws) l s' f = elim (Bool-cases (ltb n l)) [
        | inl lt ↦ (init (w ∷ ws), s', rw lt refl, popped-IsLine n (w ∷ ws) l h f (ground arith))
        | inr ge ↦ (w ∷ ws, s', rw ge refl, whole-IsLine n (w ∷ ws) l h f (ground arith))
      ]
