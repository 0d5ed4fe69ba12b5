-- ===== src/Options/Merging/Resources.antt =====
-- Which resources a job has that is submitted again.
use mathlib.Core.Path.{subst}
use worker_ng.Base.{◌≡◌, refl, sym, ap, ◌∙◌, some, List, [], ◌∷◌, ◌++◌, arith, In, All-In}
use worker_ng.Text.{Text}
use worker_ng.Dict.{lookup, update}
use worker_ng.Dict.Laws.{lookup-update}
use worker_ng.Errors.{ok, ok_inj, >>=-eq-ok}
use worker_ng.Options.Argparse.{
  Argument, Namespace, Argparse, IsArgparse, HasKey, argument_dest, joined_namespace,
}
use worker_ng.Options.Merging.{
  slurm_resource_parser, slurm_parser, merge_passed, merge_slurm_options, merge_slurm_resources,
}

-- A key of the front is found there.
lookup-append_left :
    {V : Type 0} (k : Text) (m rest : List (Text × V)) (v : V)
    → lookup k m ≡ some v
    → lookup k (m ++ rest) ≡ some v
unfolding lookup
lookup-append_left k [] rest v e = cc
lookup-append_left k ((j, w) ∷ m) rest v e = ground (arith, lookup-append_left k m rest v)

joined_namespace-append :
    (x y : Namespace) {z : Namespace} → joined_namespace x y ≡ ok z → x ++ y ≡ z
unfolding joined_namespace
joined_namespace-append x y e = ground arith

-- After a successful merge of Slurm's options, every resource has the value that the options given now
-- leave it, the default if they do not name it: the resources of the first submission are lost.
pub lookup-merge_slurm_options :
    (a : Argparse) (new_args old_args rest : List Text) (x : Argument) {ns new_ns : Namespace}
    → IsArgparse a
    → merge_slurm_options a new_args old_args ≡ ok ns
    → a.parse_known_args slurm_resource_parser new_args [] ≡ ok (new_ns, rest)
    → In x slurm_resource_parser.arguments
    → lookup (argument_dest x) ns ≡ lookup (argument_dest x) new_ns
unfolding merge_slurm_options merge_slurm_resources
lookup-merge_slurm_options a new_args old_args rest x {ns} {new_ns} lawful e f m =
    let (merged, _, e1) = >>=-eq-ok (merge_passed a (slurm_parser a) new_args old_args) _ e in
    let (old, _, e2) = >>=-eq-ok (a.parse_known_args slurm_resource_parser old_args []) _ e1 in
    let (new, g, e3) = >>=-eq-ok (a.parse_known_args slurm_resource_parser new_args []) _ e2 in
    let k = argument_dest x in
    let same : new.0 ≡ new_ns = ap (λ (p : Namespace × List Text). p.0) (ok_inj (sym g ∙ f)) in
    let (v, has) =
      All-In (λ y. HasKey new_ns (argument_dest y)) x slurm_resource_parser.arguments
        (lawful.has_dests slurm_resource_parser new_args [] new_ns rest f) m in
    let unique = lawful.unique_keys slurm_resource_parser new_args [] new_ns rest f tt in
    let joined : update old.0 new_ns ++ merged ≡ ns =
      subst (λ (n : Namespace). update old.0 n ++ merged ≡ ns) same
        (joined_namespace-append (update old.0 new.0) merged e3) in
    let updated : lookup k (update old.0 new_ns) ≡ some v =
      lookup-update k old.0 new_ns unique ∙ rw has refl in
    ap (lookup k) (sym joined)
    ∙ (lookup-append_left k (update old.0 new_ns) merged v updated ∙ sym has)
