-- ===== src/Core/Error.antt =====
-- crates/taskfence-core/src/lib.rs: `TaskFenceError` and `Result`.
use task_fence.Prelude.{◌≡◌, refl, Bool, true, false, String, [], ◌∷◌}
use task_fence.Std.Format.{format}
use task_fence.Std.Io.{IoError, Io, done, failed}

pub data TaskFenceError : Type 0 where
  config policy approval runner audit artifact report state gateway unsupported :
      String → TaskFenceError

-- `to_string`, which the `#[error(…)]` attributes derive.
unfoldable pub to_string : TaskFenceError → String
to_string (config m) = format ("configuration error: " ∷ m ∷ [])
to_string (policy m) = format ("policy error: " ∷ m ∷ [])
to_string (approval m) = format ("approval error: " ∷ m ∷ [])
to_string (runner m) = format ("runner error: " ∷ m ∷ [])
to_string (audit m) = format ("audit error: " ∷ m ∷ [])
to_string (artifact m) = format ("artifact error: " ∷ m ∷ [])
to_string (report m) = format ("report error: " ∷ m ∷ [])
to_string (state m) = format ("state error: " ∷ m ∷ [])
to_string (gateway m) = format ("gateway error: " ∷ m ∷ [])
to_string (unsupported m) = format ("unsupported operation: " ∷ m ∷ [])

-- `Result<T>` of the crate.
pub data Result {ℓ} (T : Type ℓ) : Type ℓ where
  ok : T → Result T
  err : TaskFenceError → Result T

abbrev pub is_ok {ℓ} : {T : Type ℓ} → Result T → Bool
is_ok (err failure) = false
is_ok (ok value) = true

-- The `?` operator.
infixl 5 ◌>>=◌
abbrev pub ◌>>=◌ {ℓ κ} : {T : Type ℓ} {U : Type κ} → Result T → (T → Result U) → Result U
err failure >>= rest = err failure
ok value >>= rest = rest value

infixl 5 ◌>>◌
abbrev pub ◌>>◌ {ℓ κ} : {T : Type ℓ} {U : Type κ} → Result T → Result U → Result U
first >> rest = first >>= λ _. rest

-- A chain that succeeds has succeeded at its first step, and at the rest.
pub bind-eq-ok {ℓ κ} :
    {T : Type ℓ} {U : Type κ} (first : Result T) (rest : T → Result U) {u : U}
    → (first >>= rest) ≡ ok u
    → (t : T) × (first ≡ ok t) × (rest t ≡ ok u)
bind-eq-ok (ok value) rest given = (value, refl, given)
bind-eq-ok (err failure) rest given = cc given

pub ok_injective {ℓ} : {T : Type ℓ} {a b : T} → Result.ok a ≡ ok b → a ≡ b
ok_injective e = cc e

-- `map_err` of a call to the operating system.
abbrev pub map_err : {A : Type 0} → (IoError → TaskFenceError) → Io A → Result A
map_err f (done a) = ok a
map_err f (failed e) = err (f e)
