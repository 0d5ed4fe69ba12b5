-- ===== src/Options/Schedulers/Cases.antt =====
-- The case of the letters in a scheduler's name does not matter.
use worker_ng.Base.{
  ℕ, ◌≡◌, refl, sym, ap, ◌∙◌, List, [], ◌∷◌, ◌++◌, map, arith, Bool-cases, inl, inr,
}
use mathlib.Core.List.{map-append}
use worker_ng.Text.{Text, codes, is_space}
use worker_ng.Options.Schedulers.{
  lower_char, upper_char, lower, capitalize, add_word, words_loop, words, get_parser_class_info,
  submit_output_module,
}

lower_char_twice : (c : ℕ) → lower_char (lower_char c) ≡ lower_char c
lower_char_twice c = ground arith

upper_char-lower_char : (c : ℕ) → upper_char (lower_char c) ≡ upper_char c
upper_char-lower_char c = ground arith

is_space-lower_char : (c : ℕ) → is_space (lower_char c) ≡ is_space c
unfolding is_space
is_space-lower_char c = ground arith

lower_twice : (s : Text) → lower (lower s) ≡ lower s
lower_twice [] = refl
lower_twice (c ∷ s) = cc (lower_char_twice c, lower_twice s)

capitalize-lower : (s : Text) → capitalize (lower s) ≡ capitalize s
capitalize-lower [] = refl
capitalize-lower (c ∷ s) = cc (upper_char-lower_char c, lower_twice s)

add_word-lower :
    (w : Text) (ws : List Text) → add_word (lower w) (map lower ws) ≡ map lower (add_word w ws)
add_word-lower [] ws = refl
add_word-lower (c ∷ w) ws = refl

words_loop-lower : (w s : Text) → words_loop (lower w) (lower s) ≡ map lower (words_loop w s)
unfolding words_loop
words_loop-lower w [] = add_word-lower w []
words_loop-lower w (c ∷ s) = elim (Bool-cases (is_space c)) [
  | inl e ↦
      rw (is_space-lower_char c, e, words_loop-lower [] s) (add_word-lower w (words_loop [] s))
  | inr e ↦
      rw (is_space-lower_char c, e)
        (ap (λ (x : Text). words_loop x (lower s)) (sym (map-append lower_char w (c ∷ [])))
          ∙ words_loop-lower (w ++ c ∷ []) s)
]

pub map-capitalize-lower : (ws : List Text) → map capitalize (map lower ws) ≡ map capitalize ws
map-capitalize-lower [] = refl
map-capitalize-lower (w ∷ ws) = cc (capitalize-lower w, map-capitalize-lower ws)

map-lower_twice : (ws : List Text) → map lower (map lower ws) ≡ map lower ws
map-lower_twice [] = refl
map-lower_twice (w ∷ ws) = cc (lower_twice w, map-lower_twice ws)

pub words-lower : (s : Text) → words (lower s) ≡ map lower (words s)
unfolding words
words-lower s = words_loop-lower [] s

-- A scheduler's name in lower case leads to the same class and to the same modules.
pub get_parser_class_info-lower :
    (scheduler_name : Text)
    → (get_parser_class_info (lower scheduler_name) ≡ get_parser_class_info scheduler_name)
      × (submit_output_module (lower scheduler_name) ≡ submit_output_module scheduler_name)
unfolding get_parser_class_info submit_output_module
get_parser_class_info-lower scheduler_name =
    let ws = words scheduler_name in
    let tail : List Text = codes "option" ∷ codes "parser" ∷ [] in
    let classes : map capitalize (map lower ws ++ tail) ≡ map capitalize (ws ++ tail) =
      map-append capitalize (map lower ws) tail
      ∙ (ap (λ (x : List Text). x ++ map capitalize tail) (map-capitalize-lower ws)
          ∙ sym (map-append capitalize ws tail)) in
    rw (words-lower scheduler_name, map-lower_twice ws, classes) (refl, refl)
