-- ===== src/Dict/Laws.antt =====
-- Lookup after insertion and update.
use worker_ng.Base.{
  ◌≡◌, refl, Option, none, some, List, [], ◌∷◌, arith, if◌then◌else◌, Bool-cases, inl, inr,
}
use worker_ng.Text.{Text, text_eq}
use worker_ng.Text.Equality.{text_eq_iff}
use worker_ng.Dict.{lookup, insert, update}

module _ {V : Type 0} where
  -- No key stands twice.
  abbrev pub UniqueKeys : List (Text × V) → Type 0
  UniqueKeys [] = Unit
  UniqueKeys ((k, v) ∷ m) = (lookup k m ≡ none) × UniqueKeys m

  pub lookup-insert :
      (k j : Text) (v : V) (m : List (Text × V))
      → lookup j (insert k v m) ≡ (if text_eq k j then some v else lookup j m)
  unfolding lookup insert
  lookup-insert k j v [] = refl
  lookup-insert k j v ((i, w) ∷ m) =
      ground (arith, text_eq_iff k j, text_eq_iff i k, text_eq_iff i j, lookup-insert k j v m)

  pub insert-UniqueKeys :
      (k : Text) (v : V) (m : List (Text × V)) → UniqueKeys m → UniqueKeys (insert k v m)
  unfolding lookup insert
  insert-UniqueKeys k v [] h = (refl, tt)
  insert-UniqueKeys k v ((i, w) ∷ m) (h, hs) = elim (Bool-cases (text_eq i k)) [
    | inl e ↦ rw e (h, hs)
    | inr e ↦ rw e (
      ground (arith, lookup-insert k i v m, text_eq_iff i k, text_eq_iff k i),
      insert-UniqueKeys k v m hs,
    )
  ]

  abbrev pub or_else : Option V → Option V → Option V
  or_else none o = o
  or_else (some v) o = some v

  pub lookup-update :
      (j : Text) (m rest : List (Text × V))
      → UniqueKeys rest
      → lookup j (update m rest) ≡ or_else (lookup j rest) (lookup j m)
  unfolding lookup update
  lookup-update j m [] h = refl
  lookup-update j m ((k, v) ∷ rest) (h, hs) = elim (Bool-cases (text_eq k j)) [
    | inl e ↦
        ground
          (arith, lookup-update j (insert k v m) rest hs, lookup-insert k j v m, text_eq_iff k j, e)
    | inr e ↦ ground (arith, lookup-update j (insert k v m) rest hs, lookup-insert k j v m, e)
  ]
