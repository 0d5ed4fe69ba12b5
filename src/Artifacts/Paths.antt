-- ===== src/Artifacts/Paths.antt =====
-- Absolute paths by their components, and the paths at or below a path.
use worker_ng.Base.{◌≡◌, refl, Bool, true, false, ◌&&◌, List, [], ◌∷◌, ◌++◌, arith}
use worker_ng.Text.{Text, text_eq}
use worker_ng.Text.Equality.{text_eq_iff}

abbrev pub FilePath : Type 0
FilePath = List Text

unfoldable pub path_eq : FilePath → FilePath → Bool
path_eq [] [] = true
path_eq [] (d ∷ q) = false
path_eq (c ∷ p) [] = false
path_eq (c ∷ p) (d ∷ q) = text_eq c d && path_eq p q

-- Whether the second path is the first or lies below it.
unfoldable pub is_under : FilePath → FilePath → Bool
is_under [] q = true
is_under (c ∷ p) [] = false
is_under (c ∷ p) (d ∷ q) = text_eq c d && is_under p q

components : FilePath → Text
components [] = []
components (c ∷ p) = b'/' ∷ (c ++ components p)

-- `str(path)`
unfoldable pub path_text : FilePath → Text
unfolding components
path_text [] = b'/' ∷ []
path_text (c ∷ p) = components (c ∷ p)

pub path_eq_refl : (p : FilePath) → path_eq p p ≡ true
unfolding path_eq
path_eq_refl [] = refl
path_eq_refl (c ∷ p) = ground (arith, text_eq_iff c c, path_eq_refl p)

pub eq_of_path_eq : (p q : FilePath) → path_eq p q ≡ true → p ≡ q
unfolding path_eq
eq_of_path_eq [] [] h = refl
eq_of_path_eq [] (d ∷ q) h = cc
eq_of_path_eq (c ∷ p) [] h = cc
eq_of_path_eq (c ∷ p) (d ∷ q) h = ground (arith, text_eq_iff c d, eq_of_path_eq p q)

pub is_under_append : (a p q : FilePath) → is_under a p ≡ true → is_under a (p ++ q) ≡ true
unfolding is_under
is_under_append [] p q h = refl
is_under_append (c ∷ a) [] q h = cc
is_under_append (c ∷ a) (d ∷ p) q h = ground (arith, is_under_append a p q)

-- A path below another has the other as its front.
pub is_under-split : (a p : FilePath) → is_under a p ≡ true → (rest : FilePath) × (p ≡ a ++ rest)
unfolding is_under
is_under-split [] p h = (p, refl)
is_under-split (c ∷ a) [] h = cc
is_under-split (c ∷ a) (d ∷ p) h =
    let (rest, e) = is_under-split a p (ground arith) in
    let same = (text_eq_iff c d).0 (ground arith) in (rest, cc)

pub is_under_refl : (p : FilePath) → is_under p p ≡ true
unfolding is_under
is_under_refl [] = refl
is_under_refl (c ∷ p) = ground (arith, text_eq_iff c c, is_under_refl p)
