-- ===== src/Options/Slurm/Flags.antt =====
-- The resource flags that have one name.
use worker_ng.Base.{◌≡◌, refl, false, ◌⊎◌, inl, inr, List, [], ◌∷◌, All}
use worker_ng.Text.{Text, codes, starts_with, text_eq}
use worker_ng.Options.Slurm.{
  contains, is_among, has_option, flatten, chain, is_resource_directive_line,
}

-- The two resource flags without a short name.
abbrev pub IsLongFlag : Text → Type 0
IsLongFlag arg = (arg ≡ codes "--contiguous") ⊎ (arg ≡ codes "--spread-job")

-- A directive line whose arguments are resource flags without a short name is not taken for a
-- resource directive.
pub is_resource_directive_line-IsLongFlag :
    (args : List Text) → All IsLongFlag args → is_resource_directive_line args ≡ false
unfolding is_resource_directive_line has_option is_among flatten chain contains starts_with text_eq
is_resource_directive_line-IsLongFlag [] h = refl
is_resource_directive_line-IsLongFlag (arg ∷ args) (inl e, h) =
    rw (e, is_resource_directive_line-IsLongFlag args h) refl
is_resource_directive_line-IsLongFlag (arg ∷ args) (inr e, h) =
    rw (e, is_resource_directive_line-IsLongFlag args h) refl
