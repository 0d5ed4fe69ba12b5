-- ===== src/Text/Numbers.antt =====
-- `int` of unsigned decimal texts, and `str` of natural numbers.
use worker_ng.Base.{
  ℕ, zero, suc, ◌+◌, ◌-◌, ◌*◌, ◌/◌, ◌%◌, ◌≤◌, ◌≡◌, ◌≢◌, refl, Bool, true, false, ◌&&◌, Option, none,
  some, [], ◌∷◌, ◌++◌, arith, ltb, leb, if◌then◌else◌, All, ap, Bool-cases, inl, inr,
}
use worker_ng.Text.{Text, newline, strip, lstrip, rstrip, keep_or_drop, is_space}

-- `\d`, for ASCII.
abbrev pub is_digit : ℕ → Bool
is_digit c = leb b'0' c && leb c b'9'

abbrev pub AllDigits : Text → Type 0
AllDigits = All (λ c. is_digit c ≡ true)

-- The number that digits spell behind `n`.
abbrev pub value_from : ℕ → Text → ℕ
value_from n [] = n
value_from n (c ∷ s) = value_from (n * 10 + (c - b'0')) s

read_digits : ℕ → Text → Option ℕ
read_digits n [] = some n
read_digits n (c ∷ s) =
    let further = read_digits (n * 10 + (c - b'0')) s in if is_digit c then further else none

read_number : Text → Option ℕ
read_number [] = none
read_number (c ∷ s) = read_digits 0 (c ∷ s)

-- `int(s)` of a text without sign and underscores; space around the digits is ignored.
unfoldable pub int : Text → Option ℕ
unfolding read_digits read_number strip
int s = read_number (strip s)

-- The digits of `n` in front of `out`, by rounds of division; `n` itself bounds the rounds.
show_digits : ℕ → ℕ → Text → Text
show_digits zero n out = (b'0' + n % 10) ∷ out
show_digits (suc fuel) n out =
    let more = show_digits fuel (n / 10) ((b'0' + n % 10) ∷ out) in
    if ltb n 10 then (b'0' + n) ∷ out else more

-- `str(n)`
unfoldable pub str : ℕ → Text
unfolding show_digits
str n = show_digits n n []

read_digits_lem : (n : ℕ) (s : Text) → AllDigits s → read_digits n s ≡ some (value_from n s)
unfolding read_digits
read_digits_lem n [] h = refl
read_digits_lem n (c ∷ s) (h, hs) = rw h (read_digits_lem (n * 10 + (c - b'0')) s hs)

digit-not-space : (c : ℕ) → is_digit c ≡ true → is_space c ≡ false
unfolding is_space
digit-not-space c h = ground arith

rstrip-digits : (c : ℕ) (s : Text) → is_digit c ≡ true → AllDigits s → rstrip (c ∷ s) ≡ c ∷ s
unfolding rstrip keep_or_drop
rstrip-digits c [] h hs = rw (digit-not-space c h)
rstrip-digits c (d ∷ s) h (hd, hs) = rw (rstrip-digits d s hd hs)

-- A number of digits is read as its value.
pub int-digits : (s : Text) → s ≢ [] → AllDigits s → int s ≡ some (value_from 0 s)
unfolding int lstrip
int-digits [] h hs = absurd (h refl)
int-digits (c ∷ s) h (hc, hs) =
    rw (digit-not-space c hc, rstrip-digits c s hc hs) (read_digits_lem 0 (c ∷ s) (hc, hs))

rstrip-digits_newline :
    (c : ℕ) (s : Text) → is_digit c ≡ true → AllDigits s → rstrip (c ∷ (s ++ newline ∷ [])) ≡ c ∷ s
unfolding rstrip keep_or_drop is_space
rstrip-digits_newline c [] h hs = rw (digit-not-space c h)
rstrip-digits_newline c (d ∷ s) h (hd, hs) = rw (rstrip-digits_newline d s hd hs)

pub int-digits_newline :
    (s : Text) → s ≢ [] → AllDigits s → int (s ++ newline ∷ []) ≡ some (value_from 0 s)
unfolding int lstrip
int-digits_newline [] h hs = absurd (h refl)
int-digits_newline (c ∷ s) h (hc, hs) =
    rw (digit-not-space c hc, rstrip-digits_newline c s hc hs) (read_digits_lem 0 (c ∷ s) (hc, hs))

show_digits-AllDigits :
    (fuel n : ℕ) (out : Text) → n ≤ fuel → AllDigits out → AllDigits (show_digits fuel n out)
unfolding show_digits
show_digits-AllDigits zero n out le h = (ground arith, h)
show_digits-AllDigits (suc fuel) n out le h = elim (Bool-cases (ltb n 10)) [
  | inl e ↦ rw e (ground arith, h)
  | inr e ↦
      rw e (
        show_digits-AllDigits fuel (n / 10) ((b'0' + n % 10) ∷ out) (ground arith)
          (ground arith, h))
]

show_digits-ne-nil : (fuel n : ℕ) (out : Text) → show_digits fuel n out ≢ []
unfolding show_digits
show_digits-ne-nil zero n out = cc
show_digits-ne-nil (suc fuel) n out =
    ground (arith, show_digits-ne-nil fuel (n / 10) ((b'0' + n % 10) ∷ out))

value_from-show_digits :
    (fuel n : ℕ) (out : Text) → n ≤ fuel → value_from 0 (show_digits fuel n out) ≡ value_from n out
unfolding show_digits
value_from-show_digits zero n out le = ap (λ m. value_from m out) (omega arith)
value_from-show_digits (suc fuel) n out le = elim (Bool-cases (ltb n 10)) [
  | inl e ↦ rw e (ap (λ m. value_from m out) (omega arith))
  | inr e ↦
      rw (e, value_from-show_digits fuel (n / 10) ((b'0' + n % 10) ∷ out) (ground arith))
        (ap (λ m. value_from m out) (omega arith))
]

-- A printed number is made of digits, and reads back as itself.
pub str-AllDigits : (n : ℕ) → AllDigits (str n)
unfolding str
str-AllDigits n = show_digits-AllDigits n n [] (omega arith) tt

pub str-ne-nil : (n : ℕ) → str n ≢ []
unfolding str
str-ne-nil n = show_digits-ne-nil n n []

pub value_from-str : (n : ℕ) → value_from 0 (str n) ≡ n
unfolding str
value_from-str n = value_from-show_digits n n [] (omega arith)
