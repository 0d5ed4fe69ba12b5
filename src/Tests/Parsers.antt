-- ===== src/Tests/Parsers.antt =====
-- A concrete parser in place of `argparse`: options with one value, the rest is not looked at.
use mathlib.Core.Path.{subst}
use worker_ng.Base.{
  refl, Bool, false, ◌||◌, Option, none, some, List, [], ◌∷◌, if◌then◌else◌, inl, inr, All,
  Bool-cases, ◌∙◌, All-mono, ap,
}
use worker_ng.Text.{Text, text_eq}
use worker_ng.Text.Equality.{text_eq_refl}
use worker_ng.Dict.{lookup, insert}
use worker_ng.Dict.Laws.{UniqueKeys, lookup-insert, insert-UniqueKeys}
use worker_ng.Errors.{Result, ok, ok_inj, err}
use worker_ng.Options.CommandLine.{Value, none_value, text_value}
use worker_ng.Options.Argparse.{
  Argument, with_dest, with_default, set_default, argument_names, dest_of, argument_dest, Namespace,
  Argparse, HasKey, IsArgparse,
}

abbrev pub mentions : List Text → Text → Bool
mentions [] arg = false
mentions (n ∷ ns) arg = text_eq n arg || mentions ns arg

abbrev pub default_of : Argument → Value
default_of (with_dest dest x) = default_of x
default_of (with_default v x) = v
default_of (set_default dest v) = v
default_of x = none_value

abbrev pub value_or {ℓ} : {A : Type ℓ} → A → Option A → A
value_or default none = default
value_or default (some v) = v

abbrev pub value_of : List Text → Value → List Text → Value
value_of names default [] = default
value_of names default (arg ∷ []) = default
value_of names default (arg ∷ value ∷ args) =
    if mentions names arg then text_value value else value_of names default (value ∷ args)

abbrev pub assigned_value : Argument → List Text → Namespace → Value
assigned_value x args ns =
    value_of (argument_names x) (value_or (default_of x) (lookup (argument_dest x) ns)) args

unfoldable pub assigned : List Argument → List Text → Namespace → Namespace
unfolding insert dest_of lookup
assigned [] args ns = ns
assigned (x ∷ xs) args ns =
    insert (argument_dest x) (assigned_value x args ns) (assigned xs args ns)

abbrev pub parsers : Argparse
parsers = record { parse_known_args = λ p args ns. ok (assigned p.arguments args ns, args) }

insert-HasKey : (k j : Text) (v : Value) (ns : Namespace) → HasKey ns k → HasKey (insert j v ns) k
insert-HasKey k j v ns (w, e) = elim (Bool-cases (text_eq j k)) [
  | inl f ↦ (v, lookup-insert j k v ns ∙ rw f refl)
  | inr f ↦ (w, lookup-insert j k v ns ∙ rw f e)
]

assigned-HasKeys :
    (xs : List Argument) (args : List Text) (ns : Namespace)
    → All (λ x. HasKey (assigned xs args ns) (argument_dest x)) xs
unfolding assigned
assigned-HasKeys [] args ns = tt
assigned-HasKeys (x ∷ xs) args ns =
    let k = argument_dest x in
    let v = assigned_value x args ns in
    let here : HasKey (insert k v (assigned xs args ns)) k =
      (v, lookup-insert k k v (assigned xs args ns) ∙ rw (text_eq_refl k) refl) in
    (
      here,
      All-mono xs (λ y h. insert-HasKey (argument_dest y) k v (assigned xs args ns) h)
          (assigned-HasKeys xs args ns),
    )

assigned-UniqueKeys :
    (xs : List Argument) (args : List Text) (ns : Namespace)
    → UniqueKeys ns
    → UniqueKeys (assigned xs args ns)
unfolding assigned
assigned-UniqueKeys [] args ns h = h
assigned-UniqueKeys (x ∷ xs) args ns h =
    insert-UniqueKeys (argument_dest x) (assigned_value x args ns) (assigned xs args ns)
      (assigned-UniqueKeys xs args ns h)

pub parsers-IsArgparse : IsArgparse parsers
parsers-IsArgparse = record {
  has_dests = λ p args ns ns' rest e.
      subst (λ (m : Namespace). All (λ x. HasKey m (argument_dest x)) p.arguments)
        (ap (λ (r : Namespace × List Text). r.0) (ok_inj e)) (assigned-HasKeys p.arguments args ns);
  unique_keys = λ p args ns ns' rest e h.
      subst UniqueKeys (ap (λ (r : Namespace × List Text). r.0) (ok_inj e))
        (assigned-UniqueKeys p.arguments args ns h);
}

abbrev pub or_empty : Result Namespace → Namespace
or_empty (ok ns) = ns
or_empty (err e) = []
