-- ===== src/DataSources/Range/Whole.antt =====
-- `RangeDataSource.__init__` on a whole expression.
use native.Mathlib.Decide.{ℕ_discrete}
use worker_ng.Base.{
  ℕ, zero, suc, ◌+◌, ◌-◌, ◌<◌, ◌≤◌, ◌≡◌, ◌⊎◌, refl, ap, ◌∙◌, inl, inr, true, false, List, [], ◌∷◌,
  ◌++◌, append_assoc, append-nil, arith, All, All-append, All-mono, map, concat, Bool-cases, ◌==◌,
  ◌↔◌, In,
}
use worker_ng.Text.{Text, codes, split}
use worker_ng.Text.Lines.{Lacks}
use worker_ng.Text.Splitting.{split_last, split_part}
use worker_ng.Text.Numbers.{is_digit, AllDigits, str, str-ne-nil, str-AllDigits, value_from-str}
use worker_ng.Errors.{ok, err, value_error}
use worker_ng.DataSources.Range.{is_valid, range, count_up, read_range, read_ranges, init}
use worker_ng.DataSources.Range.Grammar.{
  Item, single, interval, IsItem, IsEnd, render_item, render_rest, render, is_valid_iff,
}
use worker_ng.DataSources.Range.Values.{item_values, read_range-single, read_range-interval}

digit-not-comma : (c : ℕ) → is_digit c ≡ true → (c == b',') ≡ false
digit-not-comma c h = ground arith

number-Lacks : (ds : Text) → AllDigits ds → Lacks b',' ds
number-Lacks ds h = All-mono ds digit-not-comma h

item-Lacks : (i : Item) → IsItem i → Lacks b',' (render_item i)
item-Lacks (single ds) h = number-Lacks ds h.1
item-Lacks (interval ds es) (hd, he) =
    All-append (λ c. (c == b',') ≡ false) ds (b'-' ∷ es) (number-Lacks ds hd.1)
      (refl, number-Lacks es he.1)

end-Lacks : (t : Text) → IsEnd t → Lacks b',' t
end-Lacks t (inl e) = rw e tt
end-Lacks t (inr e) = rw e (refl, tt)

-- The texts of the parts; the end of the expression stays with the last.
parts : Item → List Item → Text → List Text
parts i [] t = (render_item i ++ t) ∷ []
parts i (j ∷ is) t = render_item i ∷ parts j is t

split-render :
    (i : Item) (is : List Item) (t : Text)
    → IsItem i
    → All IsItem is
    → IsEnd t
    → split b',' (render i is ++ t) ≡ parts i is t
unfolding parts
split-render i [] t hi his ht = rw append-nil (
    split_last b',' (render_item i ++ t)
      (All-append (λ c. (c == b',') ≡ false) (render_item i) t (item-Lacks i hi) (end-Lacks t ht)))
split-render i (j ∷ is) t hi (hj, his) ht = rw (
  append_assoc,
  split_part b',' (render_item i) ((render_item j ++ render_rest is) ++ t) (item-Lacks i hi),
  split-render j is t hj his ht,
)

read_range-item :
    (i : Item) (t : Text)
    → IsItem i
    → IsEnd t
    → read_range (render_item i ++ t) ≡ ok (item_values i)
read_range-item (single ds) t h ht = read_range-single ds t h ht
read_range-item (interval ds es) t (hd, he) ht =
    rw append_assoc (read_range-interval ds es t hd he ht)

read_ranges-parts :
    (i : Item) (is : List Item) (t : Text)
    → IsItem i
    → All IsItem is
    → IsEnd t
    → read_ranges (parts i is t) ≡ ok (concat (map item_values (i ∷ is)))
unfolding read_ranges parts
read_ranges-parts i [] t hi his ht = rw (read_range-item i t hi ht)
read_ranges-parts i (j ∷ is) t hi (hj, his) ht =
    let alone : read_range (render_item i) ≡ ok (item_values i) =
      rw (← append-nil (render_item i)) (read_range-item i [] hi (inl refl)) in
    rw (alone, read_ranges-parts j is t hj his ht)

-- Construction from an expression of the grammar delivers, in order, the numbers of all its parts:
-- a number itself, and for two numbers all from the first to the second, both included.
pub init-render :
    (fieldname : Text) (i : Item) (is : List Item) (t : Text)
    → IsItem i
    → All IsItem is
    → IsEnd t
    → init fieldname (render i is ++ t)
      ≡ ok (record { fieldname = fieldname; iter = concat (map item_values (i ∷ is)) })
unfolding init
init-render fieldname i is t hi his ht = rw (
  (is_valid_iff _).1 (i, is, t, hi, his, ht, refl),
  split-render i is t hi his ht,
  read_ranges-parts i is t hi his ht,
)

-- Construction succeeds exactly on the expressions that `_is_valid` accepts: behind that check no
-- conversion by `int` raises. On any other expression it raises the `ValueError` of its own.
pub init_outcome :
    (fieldname range_str : Text)
    → ((is_valid range_str ≡ true)
        × ((iter : List ℕ) × (init fieldname range_str
              ≡ ok (record { fieldname = fieldname; iter = iter }))))
      ⊎ ((is_valid range_str ≡ false)
          × (init fieldname range_str
              ≡ err (
                  value_error
                    (codes "'" ++ (range_str ++ codes "' is not a valid array expressin")))))
init_outcome fieldname range_str = elim (Bool-cases (is_valid range_str)) [
  | inl e ↦
      let (i, is, t, hi, his, ht, s) = (is_valid_iff range_str).0 e in
      inl (
        e,
        (
          concat (map item_values (i ∷ is)),
          ap (init fieldname) s ∙ init-render fieldname i is t hi his ht,
        ),
      )
  | inr e ↦ inr (e, unfold init in rw e)
]

-- A part given by numbers.
pub data Numbers : Type 0 where
  one : ℕ → Numbers
  from_to : ℕ → ℕ → Numbers

abbrev pub print_numbers : Numbers → Item
print_numbers (one n) = single (str n)
print_numbers (from_to a b) = interval (str a) (str b)

abbrev pub numbers : Numbers → List ℕ
numbers (one n) = n ∷ []
numbers (from_to a b) = range a (b + 1)

print_numbers-IsItem : (x : Numbers) → IsItem (print_numbers x)
print_numbers-IsItem (one n) = (str-ne-nil n, str-AllDigits n)
print_numbers-IsItem (from_to a b) =
    ((str-ne-nil a, str-AllDigits a), (str-ne-nil b, str-AllDigits b))

print_numbers-All : (xs : List Numbers) → All IsItem (map print_numbers xs)
print_numbers-All [] = tt
print_numbers-All (x ∷ xs) = (print_numbers-IsItem x, print_numbers-All xs)

item_values-print_numbers : (x : Numbers) → item_values (print_numbers x) ≡ numbers x
item_values-print_numbers (one n) = rw value_from-str
item_values-print_numbers (from_to a b) = simp value_from-str

values-print_numbers :
    (xs : List Numbers) → concat (map item_values (map print_numbers xs)) ≡ concat (map numbers xs)
values-print_numbers [] = refl
values-print_numbers (x ∷ xs) = rw (item_values-print_numbers, values-print_numbers xs)

-- Numbers and intervals printed in decimal, with commas between them, are read back as the numbers
-- that they stand for, in order.
pub init-print_numbers :
    (fieldname : Text) (x : Numbers) (xs : List Numbers)
    → init fieldname (render (print_numbers x) (map print_numbers xs))
      ≡ ok (record { fieldname = fieldname; iter = concat (map numbers (x ∷ xs)) })
init-print_numbers fieldname x xs =
    rw (← append-nil (render (print_numbers x) (map print_numbers xs))) (
      init-render fieldname (print_numbers x) (map print_numbers xs) [] (print_numbers-IsItem x)
        (print_numbers-All xs) (inl refl)
      ∙ ap (λ (ns : List ℕ). ok (record { fieldname = fieldname; iter = ns }))
          (values-print_numbers (x ∷ xs)))

count_up_mem : (k a n : ℕ) → In n (count_up k a) → (a ≤ n) × (n < a + k)
unfolding count_up
count_up_mem zero a n h = absurd h
count_up_mem (suc k) a n (inl e) = omega arith
count_up_mem (suc k) a n (inr h) = omega (arith, count_up_mem k (suc a) n h)

mem-count_up : (k a n : ℕ) → a ≤ n → n < a + k → In n (count_up k a)
unfolding count_up
mem-count_up zero a n le lt = absurd (omega arith)
mem-count_up (suc k) a n le lt = elim (ℕ_discrete n a) [
  | yes e ↦ inl e
  | no e ↦ inr (mem-count_up k (suc a) n (omega arith) (omega arith))
]

-- `range(a, b + 1)` holds exactly the numbers from `a` to `b`.
pub range_mem : (a b n : ℕ) → In n (range a (b + 1)) ↔ ((a ≤ n) × (n ≤ b))
unfolding range
range_mem a b n = (
  λ h. (
    omega (arith, count_up_mem ((b + 1) - a) a n h),
    omega (arith, count_up_mem ((b + 1) - a) a n h),
  ),
  λ (le, le'). mem-count_up ((b + 1) - a) a n le (omega arith),
)
