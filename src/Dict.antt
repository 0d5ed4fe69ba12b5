-- ===== src/Dict.antt =====
-- A Python `dict` with texts for keys: an association list in insertion order.
pub mod Laws
use worker_ng.Base.{◌≡◌, refl, true, false, Option, none, some, List, [], ◌∷◌, arith, if◌then◌else◌}
use worker_ng.Text.{Text, text_eq}

-- A dict from texts to texts.
abbrev pub Dict : Type 0
Dict = List (Text × Text)

module _ {V : Type 0} where
  unfoldable pub lookup : Text → List (Text × V) → Option V
  lookup k [] = none
  lookup k ((j, v) ∷ m) = if text_eq j k then some v else lookup k m

  -- `m[k] = v`: a new key goes to the end.
  unfoldable pub insert : Text → V → List (Text × V) → List (Text × V)
  insert k v [] = (k, v) ∷ []
  insert k v ((j, w) ∷ m) = if text_eq j k then (j, v) ∷ m else (j, w) ∷ insert k v m

  -- The loop that assigns the items of one dict into another.
  unfoldable pub update : List (Text × V) → List (Text × V) → List (Text × V)
  unfolding insert
  update m [] = m
  update m ((k, v) ∷ rest) = update (insert k v m) rest
