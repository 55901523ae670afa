-- ===== src/Errors.antt =====
-- The errors of go/src/godropbox/errors/errors.go, which wrap one another.
pub mod Chain
use dbx_build_tools.Base.{
  ℕ, zero, suc, Bool, true, false, Option, none, some, List, [], ◌∷◌, ◌++◌, Str, codes, length,
  take, is_nil, if◌then◌else◌,
}
use dbx_build_tools.Base.Result.{Result, ok, err, panic}

pub record Frame : Type 0 where
  pub func_name : Str
  pub file : Str
  pub line : Str
  pub pc : Str

-- A `DropboxError` with its message, its stack and the error that it wraps, and any other error with
-- its text and the error that its `Unwrap` gives. The program counters of a stack are written out.
mutual
  pub data GoError : Type 0 where
    dropbox : Str → List Str → List Frame → Inner → GoError
    plain : Str → Inner → GoError

  -- The wrapped error, or nil.
  pub data Inner : Type 0 where
    nothing : Inner
    wraps : GoError → Inner

-- `errors.Unwrap`
unfoldable pub unwrap : GoError → Inner
unwrap (dropbox msg stack frames inner) = inner
unwrap (plain text inner) = inner

-- `newBaseError`; `New` and `Wrap` call it with and without an error.
unfoldable pub new_base_error : List Str → List Frame → Inner → Str → GoError
new_base_error stack frames inner msg = dropbox msg stack frames inner

-- The loop of `StackAddrs`, which puts a space behind each address.
unfoldable pub addrs_loop : List Str → Str
addrs_loop [] = []
addrs_loop (pc ∷ stack) = (codes "0x" ++ pc) ++ 32 ∷ addrs_loop stack

-- `StackAddrs`: the slice without the last byte panics when there is none.
unfoldable pub stack_addrs : List Str → Result Str Str
unfolding addrs_loop
stack_addrs stack =
    let buf = addrs_loop stack in elim (length buf) [ zero ↦ panic | suc n ↦ ok (take n buf) ]

-- `GetStack`
unfoldable pub get_stack : List Frame → Str
get_stack [] = []
get_stack (f ∷ frames) =
    f.func_name
    ++ 10 ∷ 9 ∷ (f.file ++ 58 ∷ (f.line ++ (codes " +0x" ++ (f.pc ++ 10 ∷ get_stack frames))))

-- What the loop of `extractFullErrorMessage` writes, and the frames of the last `DropboxError`. The
-- full text of a `plain` error is its own.
unfoldable pub message_loop : Str → List Frame → Inner → Str × List Frame
message_loop msg frames nothing = (msg, frames)
message_loop msg frames (wraps (plain text inner)) = (msg ++ 10 ∷ text, frames)
message_loop msg frames (wraps (dropbox msg' stack' frames' inner')) =
    let (rest, last) = message_loop msg' frames' inner' in (msg ++ 10 ∷ rest, last)

-- `extractFullErrorMessage`
unfoldable pub extract_full_error_message : Str → List Frame → Inner → Bool → Str
unfolding message_loop get_stack
extract_full_error_message msg frames inner include_stack =
    let (text, last) = message_loop msg frames inner in
    if include_stack then text ++ (codes "\nORIGINAL STACK TRACE:\n" ++ get_stack last) else text

-- `Error`
unfoldable pub error_text : GoError → Str
unfolding extract_full_error_message
error_text (dropbox msg stack frames inner) = extract_full_error_message msg frames inner true
error_text (plain text inner) = text

-- `GetMessage` of an error.
unfoldable pub get_message : GoError → Str
unfolding extract_full_error_message
get_message (dropbox msg stack frames inner) = extract_full_error_message msg frames inner false
get_message (plain text inner) = text

-- The loop of `RootError` with the rounds that it has left; `none` is the error of too many.
unfoldable pub root_loop : ℕ → GoError → Option GoError
root_loop zero nerr = none
root_loop (suc rounds) (dropbox msg stack frames nothing) = some (dropbox msg stack frames nothing)
root_loop (suc rounds) (dropbox msg stack frames (wraps terr)) = root_loop rounds terr
root_loop (suc rounds) (plain text nothing) = some (plain text nothing)
root_loop (suc rounds) (plain text (wraps terr)) = root_loop rounds terr

unfoldable pub root_error : GoError → Option GoError
unfolding root_loop
root_error ierr = root_loop 20 ierr

-- `RootDropboxError`
unfoldable pub root_dropbox_error : Str → List Str → List Frame → Inner → GoError
root_dropbox_error msg stack frames nothing = dropbox msg stack frames nothing
root_dropbox_error msg stack frames (wraps (plain text inner)) =
    dropbox msg stack frames (wraps (plain text inner))
root_dropbox_error msg stack frames (wraps (dropbox msg' stack' frames' inner')) =
    root_dropbox_error msg' stack' frames' inner'

module _ (classifier : GoError → GoError → Option GoError) (top_err : GoError) where
  -- The loop of `FindWrappedError`
  unfoldable pub find_loop : GoError → GoError × Bool
  find_loop (dropbox msg stack frames nothing) =
      elim (classifier (dropbox msg stack frames nothing) top_err) [
        | none ↦ (top_err, false)
        | some e ↦ (e, true)
      ]
  find_loop (dropbox msg stack frames (wraps inner)) =
      let rest = find_loop inner in
      elim (classifier (dropbox msg stack frames (wraps inner)) top_err) [
        | none ↦ rest
        | some e ↦ (e, true)
      ]
  find_loop (plain text nothing) = elim (classifier (plain text nothing) top_err) [
    | none ↦ (top_err, false)
    | some e ↦ (e, true)
  ]
  find_loop (plain text (wraps inner)) =
      let rest = find_loop inner in
      elim (classifier (plain text (wraps inner)) top_err) [ none ↦ rest | some e ↦ (e, true) ]

  unfoldable pub find_wrapped_error : GoError × Bool
  unfolding find_loop
  find_wrapped_error = find_loop top_err
