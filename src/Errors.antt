-- ===== src/Errors.antt =====
-- errors.go, and what the program uses of the error package of goadb. An error value is one of the
-- program's own, one of package io, an errno, or an error of goadb's, told apart by a number.
mod Tests
use adbfs.Base.{
  ℕ, Bool, true, Option, none, some, if◌then◌else◌, ◌==◌, ◌≡◌, refl, ◌↔◌, ◌⊎◌, inl, inr, arith, ◌∙◌,
  ap, sym, Bool-cases,
}

pub data Error : Type 0 where
  link_too_deep not_a_link no_permission not_permitted eof short_write : Error
  errno : ℕ → Error
  foreign : ℕ → Error

pub data Result {ℓ} (A : Type ℓ) : Type ℓ where
  ok : A → Result A
  err : Error → Result A

-- The codes of goadb that the program asks for.
pub data ErrCode : Type 0 where
  file_no_exist device_not_found : ErrCode

-- goadb's `util.HasErrCode`, `util.WrapErrf` and `util.Errorf`. Messages are not modelled.
pub record ErrUtil : Type 0 where
  pub has_err_code : Error → ErrCode → Bool
  pub wrap_err : Error → Error
  pub errorf : ErrCode → Error

-- What the program relies on: only goadb's own errors have a code, one of those that is wrapped is
-- another and keeps the code of its cause, and a new error has the code given. `WrapErrf` panics at a
-- cause that is no error of goadb's: nothing is known of what `wrap_err` is there.
pub record IsErrUtil (u : ErrUtil) : Type 0 where
  pub code_foreign :
      (e : Error) (c : ErrCode) → u.has_err_code e c ≡ true → (n : ℕ) × (e ≡ foreign n)
  pub wrap_foreign : (n : ℕ) → (m : ℕ) × (u.wrap_err (foreign n) ≡ foreign m)
  pub wrap_code :
      (n : ℕ) (c : ErrCode)
      → u.has_err_code (u.wrap_err (foreign n)) c ≡ u.has_err_code (foreign n) c
  pub errorf_code : (c : ErrCode) → u.has_err_code (u.errorf c) c ≡ true

abbrev pub eperm : ℕ
eperm = 1

abbrev pub enoent : ℕ
enoent = 2

abbrev pub eio : ℕ
eio = 5

abbrev pub eacces : ℕ
eacces = 13

abbrev pub einval : ℕ
einval = 22

abbrev pub enosys : ℕ
enosys = 38

abbrev pub eloop : ℕ
eloop = 40

-- The last three cases of `toErrno`, for an error that is none of the program's own.
abbrev code_or : ErrUtil → Error → ℕ → ℕ
code_or u e other = if u.has_err_code e file_no_exist then enoent else other

-- `toErrno`. `OK` is the errno 0.
unfoldable pub to_errno : ErrUtil → Option Error → ℕ
to_errno u none = 0
to_errno u (some link_too_deep) = eloop
to_errno u (some not_a_link) = einval
to_errno u (some no_permission) = eacces
to_errno u (some not_permitted) = eperm
to_errno u (some (errno n)) = if n == 0 then 0 else code_or u (errno n) n
to_errno u (some eof) = code_or u eof eio
to_errno u (some short_write) = code_or u short_write eio
to_errno u (some (foreign n)) = code_or u (foreign n) eio

-- The status is 0, which is success, exactly for no error and for the errno 0: no failure is
-- reported as a success.
to_errno-eq-zero :
    (u : ErrUtil) (e : Option Error) → (to_errno u e ≡ 0) ↔ ((e ≡ none) ⊎ (e ≡ some (errno 0)))
unfolding to_errno
to_errno-eq-zero u none = (λ _. inl refl, λ _. refl)
to_errno-eq-zero u (some (errno n)) = ground arith
to_errno-eq-zero u (some _) = ground arith

-- An error with a code keeps it when it is wrapped.
pub wrapped_code :
    (u : ErrUtil) (e : Error) (c : ErrCode)
    → IsErrUtil u
    → u.has_err_code e c ≡ true
    → (u.has_err_code (u.wrap_err e) c ≡ true) × (m : ℕ) × (u.wrap_err e ≡ foreign m)
wrapped_code u e c law h =
    let (n, f) = law.code_foreign e c h in
    let (m, g) = law.wrap_foreign n in
    (
      ap (λ x. u.has_err_code (u.wrap_err x) c) f
          ∙ law.wrap_code n c
          ∙ ap (λ x. u.has_err_code x c) (sym f)
          ∙ h,
      m,
      ap u.wrap_err f ∙ g,
    )

-- No error, or one of goadb's that is wrapped.
abbrev pub IsWrapped : ErrUtil → Option Error → Type 0
IsWrapped u o = (o ≡ none) ⊎ ((n : ℕ) × (o ≡ some (u.wrap_err (foreign n))))

-- Then the status is 0 only for no error.
pub to_errno-IsWrapped :
    (u : ErrUtil) (o : Option Error) → IsErrUtil u → IsWrapped u o → to_errno u o ≡ 0 → o ≡ none
unfolding to_errno
to_errno-IsWrapped u o law (inl fine) e = fine
to_errno-IsWrapped u o law (inr (n, fails)) e = let (m, other) = law.wrap_foreign n in ground arith
