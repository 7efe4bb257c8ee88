-- ===== src/Io.antt =====
-- Fallible code with state: results, the actions of the program, and the errors of `std::io` as far
-- as the program tells them apart (`changed`, `is_changed` and `fatal` of src/kernel.rs).
pub mod Returned
use Prim.Native.String.{String}
use btrealloc.Prelude.{ℕ, Bool, true, false, Option, none, some, ◌==◌, if◌then◌else◌}

pub data Result (E A : Type 0) : Type 0 where
  ok : A → Result E A
  err : E → Result E A

-- A method that may fail: what was changed before a failure stays changed.
abbrev pub Action : Type 0 → Type 0 → Type 0 → Type 0
Action S E A = S → Result E A × S

module _ {S E : Type 0} where
  abbrev pub pure : {A : Type 0} → A → Action S E A
  pure a s = (ok a, s)

  abbrev pub raise : {A : Type 0} → E → Action S E A
  raise e s = (err e, s)

  -- What a pure function returns, as an action.
  abbrev pub lift : {A : Type 0} → Result E A → Action S E A
  lift r s = (r, s)

  abbrev pub gets : {A : Type 0} → (S → A) → Action S E A
  gets f s = (ok (f s), s)

  abbrev pub modify : (S → S) → Action S E (Unit {0})
  modify f s = (ok tt, f s)

module _ {S E A B : Type 0} where
  abbrev pub and_then : Result E A × S → (A → Action S E B) → Result E B × S
  and_then (ok a, s) f = f a s
  and_then (err e, s) f = (err e, s)

  infixl 5 ◌>>=◌ ◌>>◌
  abbrev pub ◌>>=◌ : Action S E A → (A → Action S E B) → Action S E B
  ◌>>=◌ m f s = and_then (m s) f

  abbrev pub ◌>>◌ : Action S E A → Action S E B → Action S E B
  ◌>>◌ m n s = and_then (m s) (λ _. n)

module _ {S E A : Type 0} where
  -- `match m { Ok(a) => …, Err(e) => … }`: the failure becomes a value.
  unfoldable pub attempt : {F : Type 0} → Action S E A → Action S F (Result E A)
  attempt m s = let (r, s') = m s in (ok r, s')

  abbrev pub map_err_result : {F : Type 0} → (E → F) → Result E A × S → Result F A × S
  map_err_result f (ok a, s) = (ok a, s)
  map_err_result f (err e, s) = (err (f e), s)

  abbrev pub map_err : {F : Type 0} → (E → F) → Action S E A → Action S F A
  map_err f m s = map_err_result f (m s)

-- `io::ErrorKind`. The program looks for two kinds; `os_kind n` is the kind that the library gives
-- to any other error number.
pub data ErrorKind : Type 0 where
  not_found invalid_data other : ErrorKind
  os_kind : ℕ → ErrorKind

-- `io::Error`: an error number of the system, an error of the program with its kind and the
-- fixed part of its message, or one that carries `Changed`. The last two are no errors of the
-- program: `panicked` stands for a panic, and `stuck` is what a loop of the model returns if its
-- fuel runs out.
pub data IoError : Type 0 where
  os : ℕ → IoError
  custom : ErrorKind → String → IoError
  changed : String → IoError
  panicked : IoError
  stuck : IoError

-- `ENOENT`, the one error number that the library calls `NotFound`.
abbrev pub enoent : ℕ
enoent = 2

unfoldable pub kind : IoError → ErrorKind
kind (os n) = if n == enoent then not_found else os_kind n
kind (custom k message) = k
kind (changed why) = other
kind panicked = other
kind stuck = other

unfoldable pub raw_os_error : IoError → Option ℕ
raw_os_error (os n) = some n
raw_os_error _ = none

-- `io::Error::other`
abbrev pub other_error : String → IoError
other_error message = custom other message

-- `is_changed`
unfoldable pub is_changed : IoError → Bool
is_changed (changed why) = true
is_changed _ = false
