-- ===== src/Core/Error.antt =====
-- The errors that the components tell apart, and results that are a value or an error. An error
-- stands for the sentinel that errors.Is finds under the message.
use distributed_configs_fs.Base.{Bool, ◌≡◌, refl, ◌⊎◌, inl, inr, Option, none, some, if◌then◌else◌}

pub data Error : Type 0 where
  -- core.ErrBadPath, core.ErrTooLarge, store.ErrNotFound, transport.ErrPeerNotFound
  bad_path too_large not_found peer_not_found : Error
  -- a failed statement of the database, a failed request, and any other refusal
  database network invalid : Error
  -- fs.ErrNotExist, fs.ErrExist, and any other failure of a system call
  not_exist exists io : Error

-- A value and a nil error, or an error; `code` is what errors.Is tells.
pub data Result {ℓ} (A : Type ℓ) : Type ℓ where
  ok : (value : A) → Result A
  err : (code : Error) → Result A

-- The two ways on from a call: `if err != nil { … }` and what comes after it.
abbrev pub on_result {ℓ κ} : {A : Type ℓ} {C : Type κ} → (Error → C) → (A → C) → Result A → C
on_result failed next (err code) = failed code
on_result failed next (ok value) = next value

module _ {A B : Type 0} where
  infixl 5 ◌>>=◌ ◌>>◌
  -- `if err != nil { return err }`
  abbrev pub ◌>>=◌ : Result A → (A → Result B) → Result B
  r >>= next = on_result err next r

  abbrev pub ◌>>◌ : Result A → Result B → Result B
  r >> next = on_result err (λ _. next) r

-- `if !test { return code }`
abbrev pub guard : (test : Bool) (code : Error) → Result (Unit {0})
guard test code = if test then ok tt else err code

-- An error for a value that is missing.
abbrev pub required : {A : Type 0} → Error → Option A → Result A
required code none = err code
required code (some value) = ok value

-- To split on a result and keep the equation.
pub Result-cases :
    {A : Type 0} (r : Result A) → ((a : A) × (r ≡ ok a)) ⊎ ((e : Error) × (r ≡ err e))
Result-cases (ok a) = inl (a, refl)
Result-cases (err e) = inr (e, refl)
