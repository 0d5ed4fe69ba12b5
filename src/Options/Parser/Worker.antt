-- ===== src/Options/Parser/Worker.antt =====
-- The options of the worker after the directives of the job script have been merged.
use worker_ng.Base.{
  ◌≡◌, refl, sym, ap, ◌∙◌, false, Option, none, some, List, [], ◌∷◌, ◌++◌, Bool-cases, Option-cases,
  inl, inr, arith, In, All-In,
}
use worker_ng.Text.{Text, codes, text_eq}
use worker_ng.Text.Equality.{text_eq_iff}
use worker_ng.Dict.{lookup}
use worker_ng.Dict.Laws.{or_else}
use worker_ng.Errors.{ok, ok_inj, >>=-eq-ok}
use worker_ng.Artifacts.{FileSystem, read_file}
use worker_ng.Options.{ParseData}
use worker_ng.Options.Argparse.{
  Argument, argument_dest, Namespace, Argparse, IsArgparse, HasKey, any_in, joined_namespace,
}
use worker_ng.Options.CommandLine.{Value}
use worker_ng.Options.Parser.{
  SchedulerOptionParser, Pathlib, submit_arguments, cl_parser, text_of, filter_worker_cl,
  filter_command_cl, verify_scheduler_args, parse_submit,
}

lookup-append :
    {V : Type 0} (k : Text) (m rest : List (Text × V))
    → lookup k (m ++ rest) ≡ or_else (lookup k m) (lookup k rest)
unfolding lookup
lookup-append k [] rest = refl
lookup-append k ((j, v) ∷ m) rest = ground (arith, lookup-append k m rest)

-- A key of the second namespace is none of the first where they may be joined.
any_in-none :
    (x y : Namespace) (k : Text) (v : Value)
    → any_in x y ≡ false
    → lookup k y ≡ some v
    → lookup k x ≡ none
unfolding lookup
any_in-none x [] k v h e = cc
any_in-none x ((j, w) ∷ y) k v h e = elim (Bool-cases (text_eq j k)) [
  | inl f ↦ elim (Option-cases (lookup k x)) [
    | inl n ↦ n
    | inr (u, g) ↦
        let same : lookup j x ≡ some u =
          ap (λ (i : Text). lookup i x) ((text_eq_iff j k).0 f) ∙ g in
        ground (arith, same)
  ]
  | inr f ↦ any_in-none x y k v (ground arith) (ground (arith, f))
]

lookup-joined_namespace :
    (x y : Namespace) {z : Namespace} (k : Text)
    → joined_namespace x y ≡ ok z
    → HasKey y k
    → lookup k z ≡ lookup k y
unfolding joined_namespace
lookup-joined_namespace x y {z} k e (v, h) = elim (Bool-cases (any_in x y)) [
  | inl f ↦ ground (arith, f)
  | inr f ↦
      let joined : x ++ y ≡ z = ground (arith, f) in
      ap (lookup k) (sym joined)
      ∙ (lookup-append k x y
          ∙ ap (λ (o : Option Value). or_else o (lookup k y)) (any_in-none x y k v f h))
]

-- After a job script has been read successfully, each option that the worker declares, the job array
-- request and the data files among them, is what the command line leaves it, a default where it is not
-- given: no directive of the script changes it.
pub lookup-parse_submit :
    (a : Argparse) (pathlib : Pathlib) (fs : FileSystem) (s : SchedulerOptionParser)
    (args rest : List Text) (x : Argument) {cl_options : Namespace} {d : ParseData Namespace}
    → IsArgparse a
    → a.parse_known_args (cl_parser s submit_arguments) args [] ≡ ok (cl_options, rest)
    → parse_submit a pathlib fs s args ≡ ok d
    → In x (cl_parser s submit_arguments).arguments
    → lookup (argument_dest x) d.options ≡ lookup (argument_dest x) cl_options
unfolding parse_submit filter_worker_cl
lookup-parse_submit a pathlib fs s args rest x {cl_options} {d} lawful e h m =
    let has =
      All-In (λ y. HasKey cl_options (argument_dest y)) x (cl_parser s submit_arguments).arguments
        (lawful.has_dests (cl_parser s submit_arguments) args [] cl_options rest e) m in
    let parsed : filter_worker_cl a pathlib fs s submit_arguments args ≡ ok cl_options =
      rw e refl in
    let (cl, f, h1) = >>=-eq-ok (filter_worker_cl a pathlib fs s submit_arguments args) _ h in
    let (script, _, h2) = >>=-eq-ok (text_of (lookup (codes "script") cl)) _ h1 in
    let (prefix, _, h3) = >>=-eq-ok (text_of (lookup (codes "directive_prefix") cl)) _ h2 in
    let (content, _, h4) = >>=-eq-ok (read_file fs (pathlib.place script)) _ h3 in
    let (parser_result, _, h5) = >>=-eq-ok (s.parse_script prefix content) _ h4 in
    let (options, g, h6) = >>=-eq-ok (joined_namespace parser_result.options cl) _ h5 in
    let (scheduler_options, _, h7) =
      >>=-eq-ok (filter_command_cl a pathlib fs s submit_arguments args) _ h6 in
    let (_, _, h8) = >>=-eq-ok (verify_scheduler_args a pathlib fs s scheduler_options) _ h7 in
    let same : cl ≡ cl_options = sym (ok_inj (sym parsed ∙ f)) in
    let joined : joined_namespace parser_result.options cl_options ≡ ok options =
      ap (joined_namespace parser_result.options) (sym same) ∙ g in
    let stored : options ≡ d.options = ap (λ (r : ParseData Namespace). r.options) (ok_inj h8) in
    ap (lookup (argument_dest x)) (sym stored)
    ∙ lookup-joined_namespace parser_result.options cl_options (argument_dest x) joined has
