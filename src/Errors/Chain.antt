-- ===== src/Errors/Chain.antt =====
-- The chain of errors that wrap one another, for go/src/godropbox/errors/errors.go.
use mathlib.Core.Path.{ap₂}
use dbx_build_tools.Base.{
  ℕ, zero, suc, ◌≡◌, refl, ◌∙◌, inl, inr, Bool, true, false, Option, none, some, List, [], ◌∷◌,
  length, leb, if◌then◌else◌, Option-cases, arith,
}
use dbx_build_tools.Errors.{
  GoError, dropbox, plain, nothing, wraps, root_loop, root_error, find_loop, find_wrapped_error,
}

-- An error and the errors that it wraps, the outermost first.
abbrev pub chain : GoError → List GoError
chain (dropbox msg stack frames nothing) = dropbox msg stack frames nothing ∷ []
chain (dropbox msg stack frames (wraps inner)) =
    dropbox msg stack frames (wraps inner) ∷ chain inner
chain (plain text nothing) = plain text nothing ∷ []
chain (plain text (wraps inner)) = plain text (wraps inner) ∷ chain inner

abbrev pub last_of : GoError → List GoError → GoError
last_of e [] = e
last_of e (x ∷ xs) = last_of x xs

last_of-chain : (e d c : GoError) → last_of d (chain e) ≡ last_of c (chain e)
last_of-chain (dropbox msg stack frames nothing) d c = refl
last_of-chain (dropbox msg stack frames (wraps inner)) d c = refl
last_of-chain (plain text nothing) d c = refl
last_of-chain (plain text (wraps inner)) d c = refl

one_more :
    (n : ℕ) (errors : List GoError) {e d : GoError}
    → e ≡ d
    → (if leb (length errors) n then some e else none)
      ≡ (if leb (suc (length errors)) (suc n) then some d else none)
one_more n errors same =
    ap₂ (λ (b : Bool) (x : GoError). if b then some x else none) (ground arith) same

root_loop_lem :
    (rounds : ℕ) (e : GoError)
    → root_loop rounds e
      ≡ (if leb (length (chain e)) rounds then some (last_of e (chain e)) else none)
unfolding root_loop
root_loop_lem zero (dropbox msg stack frames nothing) = refl
root_loop_lem zero (dropbox msg stack frames (wraps inner)) = ground arith
root_loop_lem zero (plain text nothing) = refl
root_loop_lem zero (plain text (wraps inner)) = ground arith
root_loop_lem (suc n) (dropbox msg stack frames nothing) = ground arith
root_loop_lem (suc n) (dropbox msg stack frames (wraps inner)) =
    root_loop_lem n inner
    ∙ one_more n (chain inner) (last_of-chain inner inner (dropbox msg stack frames (wraps inner)))
root_loop_lem (suc n) (plain text nothing) = ground arith
root_loop_lem (suc n) (plain text (wraps inner)) =
    root_loop_lem n inner
    ∙ one_more n (chain inner) (last_of-chain inner inner (plain text (wraps inner)))

-- `RootError` finds the innermost error exactly if the error wraps at most nineteen others.
root_error-chain :
    (e : GoError)
    → root_error e ≡ (if leb (length (chain e)) 20 then some (last_of e (chain e)) else none)
unfolding root_error
root_error-chain e = root_loop_lem 20 e

module _ (classifier : GoError → GoError → Option GoError) (top_err : GoError) where
  -- The first of some errors that the classifier takes.
  abbrev pub first_taken : List GoError → GoError × Bool
  first_taken [] = (top_err, false)
  first_taken (e ∷ errors) = elim (classifier e top_err) [
    | none ↦ first_taken errors
    | some found ↦ (found, true)
  ]

  find_loop_lem : (e : GoError) → find_loop classifier top_err e ≡ first_taken (chain e)
  unfolding find_loop
  find_loop_lem (dropbox msg stack frames nothing) = refl
  find_loop_lem (dropbox msg stack frames (wraps inner)) =
      elim (Option-cases (classifier (dropbox msg stack frames (wraps inner)) top_err)) [
        | inl e ↦ rw (find_loop, e) (find_loop_lem inner)
        | inr (found, e) ↦ rw (find_loop, e) refl
      ]
  find_loop_lem (plain text nothing) = refl
  find_loop_lem (plain text (wraps inner)) =
      elim (Option-cases (classifier (plain text (wraps inner)) top_err)) [
        | inl e ↦ rw (find_loop, e) (find_loop_lem inner)
        | inr (found, e) ↦ rw (find_loop, e) refl
      ]

  -- `FindWrappedError` gives what the classifier makes of the first error of the chain that it takes,
  -- and the error itself if it takes none.
  find_wrapped_error-chain : find_wrapped_error classifier top_err ≡ first_taken (chain top_err)
  unfolding find_wrapped_error
  find_wrapped_error-chain = find_loop_lem top_err
