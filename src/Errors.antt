-- ===== src/Errors.antt =====
-- scripts/worker/errors.py: the exit statuses of the scripts and the exceptions; and the outcome of
-- code that may raise.
use worker_ng.Base.{ℕ, ◌≡◌, ◌⊎◌, inl, inr, refl}
use worker_ng.Text.{Text, codes}

pub record WorkerError : Type 0 where
  pub msg : Text
  pub status : ℕ

abbrev pub config_error : WorkerError
config_error = record { msg = codes "worker configuration issue, {msg}"; status = 1 }

abbrev pub batch_file_error : WorkerError
batch_file_error = record { msg = codes "batch file issue, {msg}"; status = 2 }

abbrev pub data_error : WorkerError
data_error = record { msg = codes "data source issue, {msg}"; status = 10 }

abbrev pub scheduler_option_error : WorkerError
scheduler_option_error = record { msg = codes "invalid scheduler argument, {msg}"; status = 11 }

abbrev pub submission_error : WorkerError
submission_error = record { msg = codes "job submission issue, {msg}"; status = 12 }

abbrev pub log_file_error : WorkerError
log_file_error = record { msg = codes "log file issue, {msg}"; status = 13 }

abbrev pub worker_dir_error : WorkerError
worker_dir_error = record { msg = codes "worker directory issue, {msg}"; status = 14 }

-- The exceptions that the scripts raise or catch, with their messages where the scripts give one.
pub data Exception : Type 0 where
  job_submission log_parse worker_dir value_error key_error module_not_found : Text → Exception
  type_error attribute_error stop_iteration csv_error file_not_found system_exit : Exception
  index_error argument_error not_a_directory is_a_directory : Exception
  file_exists directory_not_empty : Exception

pub data Result {ℓ} (A : Type ℓ) : Type ℓ where
  ok : A → Result A
  err : Exception → Result A

module _ {ℓ κ} {A : Type ℓ} {B : Type κ} where
  -- What follows an outcome: it is reached only without an exception.
  infixl 5 ◌>>=◌
  abbrev pub ◌>>=◌ : Result A → (A → Result B) → Result B
  err exception >>= next = err exception
  ok value >>= next = next value

  -- A chain that succeeds has a first part that succeeds.
  pub >>=-eq-ok :
      (first : Result A) (next : A → Result B) {z : B}
      → (first >>= next) ≡ ok z
      → (value : A) × (first ≡ ok value) × (next value ≡ ok z)
  >>=-eq-ok (err exception) next h = cc
  >>=-eq-ok (ok value) next h = (value, refl, h)

  pub >>=_congr :
      (m : Result A) (f g : A → Result B) → ((a : A) → f a ≡ g a) → (m >>= f) ≡ (m >>= g)
  >>=_congr (ok a) f g h = h a
  >>=_congr (err e) f g h = refl

pub ok_inj {ℓ} : {A : Type ℓ} {a b : A} → ok a ≡ ok b → a ≡ b
ok_inj e = cc

module _ {ℓ κ μ} {A : Type ℓ} {B : Type κ} {C : Type μ} where
  pub >>=-assoc :
      (m : Result A) (f : A → Result B) (g : B → Result C)
      → (m >>= f >>= g) ≡ (m >>= (λ a. f a >>= g))
  >>=-assoc (ok a) f g = refl
  >>=-assoc (err e) f g = refl

pub >>=-ok {ℓ} : {A : Type ℓ} (m : Result A) → (m >>= ok) ≡ m
>>=-ok (ok a) = refl
>>=-ok (err e) = refl

pub Result-cases {ℓ} :
    {A : Type ℓ} (m : Result A) → ((a : A) × (m ≡ ok a)) ⊎ ((e : Exception) × (m ≡ err e))
Result-cases (ok a) = inl (a, refl)
Result-cases (err e) = inr (e, refl)
