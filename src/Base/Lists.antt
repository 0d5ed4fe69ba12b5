-- ===== src/Base/Lists.antt =====
-- Lists measured by native numbers, and predicates on lists by recursion.
use Prim.Native.Nat.{ℕ, suc, ◌+◌}
use mathlib.Core.Path.{◌≡◌, refl, ap, sym, subst}
use mathlib.Core.Logic.{◌⊎◌, ◌↔◌, inl, inr}
use mathlib.Core.Bool.{Bool, false, ◌||◌}
use mathlib.Core.List.{List, [], ◌∷◌, ◌++◌, map, append_assoc, Perm}
use mathlib.Core.List.Perm
use native.Mathlib.Omega.{arith}
use worker_ng.Base.Tests.{◌==◌, leb, if◌then◌else◌, Bool-cases}

module _ {ℓ} {A : Type ℓ} where
  abbrev pub length : List A → ℕ
  length [] = 0
  length (x ∷ xs) = suc (length xs)

  pub length-append : (xs ys : List A) → length (xs ++ ys) ≡ length xs + length ys
  length-append [] ys = omega arith
  length-append (x ∷ xs) ys = omega (arith, length-append xs ys)

  -- The list without its last element.
  abbrev pub init : List A → List A
  init [] = []
  init (x ∷ []) = []
  init (x ∷ y ∷ xs) = x ∷ init (y ∷ xs)

  -- The last element of a list with a head.
  abbrev pub last : A → List A → A
  last x [] = x
  last x (y ∷ xs) = last y xs

  -- The concatenation of lists.
  abbrev pub concat : List (List A) → List A
  concat [] = []
  concat (xs ∷ xss) = xs ++ concat xss

  pub concat-append : (xss yss : List (List A)) → concat (xss ++ yss) ≡ concat xss ++ concat yss
  concat-append [] yss = refl
  concat-append (xs ∷ xss) yss = simp (concat-append xss yss, append_assoc)

module _ {ℓ κ} {A : Type ℓ} (P : A → Type κ) where
  abbrev pub All : List A → Type κ
  All [] = Unit
  All (x ∷ xs) = P x × All xs

  pub All-append : (xs ys : List A) → All xs → All ys → All (xs ++ ys)
  All-append [] ys _ h = h
  All-append (x ∷ xs) ys (px, hx) h = (px, All-append xs ys hx h)

-- `i in items`, for numbers.
unfoldable pub elem : ℕ → List ℕ → Bool
elem i [] = false
elem i (x ∷ xs) = i == x || elem i xs

module _ {ℓ κ μ} {A : Type ℓ} {P : A → Type κ} {Q : A → Type μ} where
  pub All-mono : (xs : List A) → ((x : A) → P x → Q x) → All P xs → All Q xs
  All-mono [] h _ = tt
  All-mono (x ∷ xs) h (px, pxs) = (h x px, All-mono xs h pxs)

module _ {ℓ κ} {A : Type ℓ} {B : Type κ} where
  pub length-map : (f : A → B) (xs : List A) → length (map f xs) ≡ length xs
  length-map f [] = refl
  length-map f (x ∷ xs) = ap suc (length-map f xs)

  pub All-map {μ} :
      (P : A → Type μ) (Q : B → Type μ) (f : A → B) (xs : List A)
      → ((x : A) → P x → Q (f x))
      → All P xs
      → All Q (map f xs)
  All-map P Q f [] h _ = tt
  All-map P Q f (x ∷ xs) h (px, pxs) = (h x px, All-map P Q f xs h pxs)

-- Membership with its position.
module _ {A : Type 0} where
  abbrev pub In : A → List A → Type 0
  In a [] = ⊥
  In a (x ∷ xs) = (a ≡ x) ⊎ In a xs

  pub In-append_left : (a : A) (xs ys : List A) → In a xs → In a (xs ++ ys)
  In-append_left a [] ys h = absurd h
  In-append_left a (x ∷ xs) ys (inl e) = inl e
  In-append_left a (x ∷ xs) ys (inr h) = inr (In-append_left a xs ys h)

  pub In-append_right : (a : A) (xs ys : List A) → In a ys → In a (xs ++ ys)
  In-append_right a [] ys h = h
  In-append_right a (x ∷ xs) ys h = inr (In-append_right a xs ys h)

  pub All-In {κ} : (P : A → Type κ) (a : A) (xs : List A) → All P xs → In a xs → P a
  All-In P a [] h m = absurd m
  All-In P a (x ∷ xs) (px, h) (inl e) = subst P (sym e) px
  All-In P a (x ∷ xs) (px, h) (inr m) = All-In P a xs h m

module _ {A B : Type 0} where
  pub In-map : (f : A → B) (a : A) (xs : List A) → In a xs → In (f a) (map f xs)
  In-map f a [] h = absurd h
  In-map f a (x ∷ xs) (inl e) = inl (ap f e)
  In-map f a (x ∷ xs) (inr h) = inr (In-map f a xs h)

module _ {ℓ} {A : Type ℓ} where
  -- The elements that pass a test.
  abbrev pub keep : (A → Bool) → List A → List A
  keep p [] = []
  keep p (x ∷ xs) = let rest = keep p xs in if p x then x ∷ rest else rest

-- A sorted list with one more number.
unfoldable pub insert_sorted : ℕ → List ℕ → List ℕ
insert_sorted x [] = x ∷ []
insert_sorted x (y ∷ ys) = if leb x y then x ∷ y ∷ ys else y ∷ insert_sorted x ys

-- `sorted`, on numbers.
unfoldable pub sorted : List ℕ → List ℕ
unfolding insert_sorted
sorted [] = []
sorted (x ∷ xs) = insert_sorted x (sorted xs)

insert_sorted-perm : (x : ℕ) (ys : List ℕ) → Perm (insert_sorted x ys) (x ∷ ys)
unfolding insert_sorted
insert_sorted-perm x [] = Perm.refl (x ∷ [])
insert_sorted-perm x (y ∷ ys) = elim (Bool-cases (leb x y)) [
  | inl e ↦ rw e (Perm.refl (x ∷ y ∷ ys))
  | inr e ↦ rw e (Perm.trans (Perm.cons y (insert_sorted-perm x ys)) (Perm.swap x y ys))
]

pub sorted-perm : (xs : List ℕ) → Perm (sorted xs) xs
unfolding sorted
sorted-perm [] = Perm.refl []
sorted-perm (x ∷ xs) = Perm.trans (insert_sorted-perm x (sorted xs)) (Perm.cons x (sorted-perm xs))

insert_sorted_mem : (k x : ℕ) (ys : List ℕ) → In k (insert_sorted x ys) ↔ In k (x ∷ ys)
unfolding insert_sorted
insert_sorted_mem k x [] = (λ h. h, λ h. h)
insert_sorted_mem k x (y ∷ ys) = elim (Bool-cases (leb x y)) [
  | inl e ↦ rw e (λ h. h, λ h. h)
  | inr e ↦ rw e (
    elim [
      | inl p ↦ inr (inl p)
      | inr m ↦ elim ((insert_sorted_mem k x ys).0 m) [ inl p ↦ inl p | inr q ↦ inr (inr q) ]
    ],
    elim [
      | inl p ↦ inr ((insert_sorted_mem k x ys).1 (inl p))
      | inr m ↦ elim m [ inl p ↦ inl p | inr q ↦ inr ((insert_sorted_mem k x ys).1 (inr q)) ]
    ],
  )
]

pub sorted_mem : (k : ℕ) (xs : List ℕ) → In k (sorted xs) ↔ In k xs
unfolding sorted
sorted_mem k [] = (λ h. h, λ h. h)
sorted_mem k (x ∷ xs) = (
  λ h. elim ((insert_sorted_mem k x (sorted xs)).0 h) [
    | inl p ↦ inl p
    | inr m ↦ inr ((sorted_mem k xs).0 m)
  ],
  elim [
    | inl p ↦ (insert_sorted_mem k x (sorted xs)).1 (inl p)
    | inr m ↦ (insert_sorted_mem k x (sorted xs)).1 (inr ((sorted_mem k xs).1 m))
  ],
)
