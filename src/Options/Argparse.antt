-- ===== src/Options/Argparse.antt =====
-- The arguments that the scripts declare to `argparse`, whose parsers are a parameter, and the
-- namespaces that they return.
use worker_ng.Base.{
  ◌≡◌, Bool, true, false, ◌||◌, Option, none, some, List, [], ◌∷◌, ◌++◌, map, if◌then◌else◌, ◌==◌,
  All,
}
use worker_ng.Text.{Text, codes, starts_with}
use worker_ng.Dict.{lookup}
use worker_ng.Dict.Laws.{UniqueKeys}
use worker_ng.Errors.{Result, ok, err, type_error}
use worker_ng.Options.{drop}
use worker_ng.Options.CommandLine.{Value}

-- An entry of the lists of options: one name, or a tuple of names.
pub data Names : Type 0 where
  single : Text → Names
  several : List Text → Names

abbrev pub both : Text → Text → Names
both s l = several (s ∷ l ∷ [])

abbrev pub names_of : Names → List Text
names_of (single name) = name ∷ []
names_of (several names) = names

-- A call of `add_argument`: with a value, with a value that must be given, with an integer, with
-- `action='store_true'`, and with `action='append'`; and the keywords `dest` and `default`. The last is
-- a default that `set_defaults` sets for an attribute without an argument.
pub data Argument : Type 0 where
  option required integer flag appended : Names → Argument
  with_dest : Text → Argument → Argument
  with_default : Value → Argument → Argument
  set_default : Text → Value → Argument

abbrev pub argument_names : Argument → List Text
argument_names (option n) = names_of n
argument_names (required n) = names_of n
argument_names (integer n) = names_of n
argument_names (flag n) = names_of n
argument_names (appended n) = names_of n
argument_names (with_dest dest x) = argument_names x
argument_names (with_default v x) = argument_names x
argument_names (set_default dest v) = []

abbrev pub underscored : Text → Text
underscored s = map (λ c. if c == b'-' then b'_' else c) s

-- The first long name; without one, the first name.
abbrev pub chosen_name : Text → List Text → Text
chosen_name first [] = first
chosen_name first (n ∷ ns) = if starts_with (codes "--") n then n else chosen_name first ns

abbrev pub stripped : Text → Text
stripped s = if starts_with (codes "--") s then drop 2 s else drop 1 s

-- The attribute that names lead to, where no `dest` is given.
unfoldable pub dest_of : List Text → Text
dest_of [] = []
dest_of (n ∷ ns) = underscored (stripped (chosen_name n (n ∷ ns)))

-- The attribute of an argument.
abbrev pub argument_dest : Argument → Text
argument_dest (with_dest dest x) = dest
argument_dest (with_default v x) = argument_dest x
argument_dest (set_default dest v) = dest
argument_dest x = dest_of (argument_names x)

pub record ArgumentParser : Type 0 where
  pub add_help : Bool
  pub exit_on_error : Bool
  pub arguments : List Argument

abbrev pub Namespace : Type 0
Namespace = List (Text × Value)

-- `parser.parse_known_args(args, namespace=namespace)`, with an empty namespace where none is given.
pub record Argparse : Type 0 where
  pub parse_known_args : ArgumentParser → List Text → Namespace → Result (Namespace × List Text)

abbrev pub is_given : Option Value → Bool
is_given none = false
is_given (some v) = true

abbrev pub any_in : Namespace → Namespace → Bool
any_in ns [] = false
any_in ns ((k, v) ∷ rest) = is_given (lookup k ns) || any_in ns rest

-- `argparse.Namespace(**vars(a), **vars(b))`: a key that is given twice is refused.
unfoldable pub joined_namespace : Namespace → Namespace → Result Namespace
joined_namespace a b = if any_in a b then err type_error else ok (a ++ b)

abbrev pub HasKey : Namespace → Text → Type 0
HasKey ns k = (v : Value) × (lookup k ns ≡ some v)

-- What the merging of options relies on, from the documentation of `argparse`: each argument of the
-- parser is an attribute of the result, by its default where it is not given; a namespace has no
-- attribute twice.
pub record IsArgparse (a : Argparse) : Type 0 where
  pub has_dests :
      (p : ArgumentParser) (args : List Text) (ns ns' : Namespace) (rest : List Text)
      → a.parse_known_args p args ns ≡ ok (ns', rest)
      → All (λ x. HasKey ns' (argument_dest x)) p.arguments
  pub unique_keys :
      (p : ArgumentParser) (args : List Text) (ns ns' : Namespace) (rest : List Text)
      → a.parse_known_args p args ns ≡ ok (ns', rest)
      → UniqueKeys ns
      → UniqueKeys ns'
