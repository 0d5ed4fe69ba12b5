-- ===== src/Options/PbsTorque/Resources.antt =====
-- Merging the `-l` resources of two submissions.
use mathlib.Core.Path.{subst}
use worker_ng.Base.{◌≡◌, refl, some, List, [], ◌∷◌, map}
use worker_ng.Text.{Text, split}
use worker_ng.Dict.{Dict, lookup, insert, update}
use worker_ng.Dict.Laws.{UniqueKeys, insert-UniqueKeys, lookup-update, or_else}
use worker_ng.Errors.{ok, ok_inj, >>=-eq-ok}
use worker_ng.Options.PbsTorque.{
  split_once, add_parts, add_resources, normalize_resources, merge_resources, key_value,
}

add_parts-UniqueKeys :
    (m : Dict) (parts : List Text) {n : Dict}
    → UniqueKeys m
    → add_parts m parts ≡ ok n
    → UniqueKeys n
unfolding add_parts
add_parts-UniqueKeys m [] u e = subst UniqueKeys (ok_inj e) u
add_parts-UniqueKeys m (part ∷ parts) u e =
    let (entry, _, e') = >>=-eq-ok (split_once part) _ e in
    add_parts-UniqueKeys (insert entry.0 entry.1 m) parts (insert-UniqueKeys entry.0 entry.1 m u) e'

add_resources-UniqueKeys :
    (m : Dict) (rs : List Text) {n : Dict} → UniqueKeys m → add_resources m rs ≡ ok n → UniqueKeys n
unfolding add_resources
add_resources-UniqueKeys m [] u e = subst UniqueKeys (ok_inj e) u
add_resources-UniqueKeys m (r ∷ rs) u e =
    let (added, h, e') = >>=-eq-ok (add_parts m (split b',' r)) _ e in
    add_resources-UniqueKeys added rs (add_parts-UniqueKeys m (split b',' r) u h) e'

-- Where both requests can be read, the merged request is made of the entries of a dict in which
-- every resource has its value from the new request if that names it, and from the old one if not.
pub lookup-merge_resources :
    (old new : List Text) {a b : Dict}
    → normalize_resources old ≡ ok a
    → normalize_resources new ≡ ok b
    → (merge_resources (some old) (some new) ≡ ok (some (map key_value (update a b))))
      × ((k : Text) → lookup k (update a b) ≡ or_else (lookup k b) (lookup k a))
unfolding merge_resources normalize_resources
lookup-merge_resources old new {a} {b} e f =
    (rw (e, f) refl, λ k. lookup-update k a b (add_resources-UniqueKeys [] new tt f))
