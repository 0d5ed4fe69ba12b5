-- ===== src/Options/Attributes.antt =====
-- Attributes of a namespace, as the scripts use them. An integer is a text in a namespace, and the
-- number that `argparse` has made of it is an argument.
use worker_ng.Base.{Bool, true, false, ℤ, Option, none, some, List, [], ◌∷◌}
use worker_ng.Text.{Text}
use worker_ng.Errors.{Result, ok, err, attribute_error, type_error}
use worker_ng.Options.CommandLine.{
  Value, none_value, false_value, true_value, list_value, text_value,
}

-- Whether a value counts as true.
abbrev pub truthy : Value → Bool
truthy none_value = false
truthy false_value = false
truthy true_value = true
truthy (list_value []) = false
truthy (list_value (s ∷ ss)) = true
truthy (text_value []) = false
truthy (text_value (c ∷ s)) = true

abbrev pub flag_of : Option Value → Result Bool
flag_of none = err attribute_error
flag_of (some v) = ok (truthy v)

abbrev pub int_of : (Text → ℤ) → Option Value → Result ℤ
int_of int_value none = err attribute_error
int_of int_value (some (text_value s)) = ok (int_value s)
int_of int_value (some v) = err type_error

abbrev pub optional_int_of : (Text → ℤ) → Option Value → Result (Option ℤ)
optional_int_of int_value none = err attribute_error
optional_int_of int_value (some none_value) = ok none
optional_int_of int_value (some (text_value s)) = ok (some (int_value s))
optional_int_of int_value (some v) = err type_error

abbrev pub optional_text_of : Option Value → Result (Option Text)
optional_text_of none = err attribute_error
optional_text_of (some none_value) = ok none
optional_text_of (some (text_value s)) = ok (some s)
optional_text_of (some v) = err type_error

abbrev pub optional_list_of : Option Value → Result (Option (List Text))
optional_list_of none = err attribute_error
optional_list_of (some none_value) = ok none
optional_list_of (some (list_value ss)) = ok (some ss)
optional_list_of (some v) = err type_error
