-- ===== src/GenBuild/Workspace.antt =====
-- `findWorkspace` of go/src/dropbox/build_tools/gen-build-go/gen-build-go.go.
use dbx_build_tools.Base.{
  ℕ, zero, suc, ◌<◌, ◌≡◌, refl, ◌⊎◌, inl, inr, Bool, true, false, Option, none, some, Str, codes,
  str_eq, if◌then◌else◌, arith, Bool-cases,
}
use dbx_build_tools.Base.Result.{Result, ok, err}

-- `dir` is `path.Dir`, and `is_workspace` whether the workspace file of a directory has a status.
module _ {E : Type 0} (dir : Str → Str) (is_workspace : Str → Bool) (not_in_workspace : E) where
  -- The loop; `none` means that the fuel ran out.
  unfoldable pub find_workspace : ℕ → Str → Option (Result E Str)
  unfolding str_eq
  find_workspace zero check_dir = none
  find_workspace (suc fuel) check_dir =
      let rest = find_workspace fuel (dir check_dir) in
      if str_eq check_dir (codes "/")
      then some (err not_in_workspace)
      else if is_workspace check_dir
      then some (ok check_dir)
      else rest

  -- A directory above a start, below the root, with no workspace on the way to it.
  data Above : Str → Str → Type 0 where
    here : {d : Str} → str_eq d (codes "/") ≡ false → Above d d
    up :
        {start d : Str}
        → str_eq start (codes "/") ≡ false
        → is_workspace start ≡ false
        → Above (dir start) d
        → Above start d

  -- When a path is shortened until it is "/", the search ends with more fuel than the start is deep:
  -- at the nearest workspace above it, or in an error, with no workspace above it.
  find_workspace-nearest :
      (depth : Str → ℕ)
      → ((d : Str) → str_eq d (codes "/") ≡ false → depth (dir d) < depth d)
      → (fuel : ℕ) (start : Str) → depth start < fuel
      → ((d : Str) × (find_workspace fuel start ≡ some (ok d))
          × Above start d
          × (is_workspace d ≡ true))
        ⊎ ((find_workspace fuel start ≡ some (err not_in_workspace))
            × ((d : Str) → Above start d → is_workspace d ≡ false))
  unfolding find_workspace
  find_workspace-nearest depth shorter zero start enough = absurd (omega (arith, enough))
  find_workspace-nearest depth shorter (suc fuel) start enough =
      elim (Bool-cases (str_eq start (codes "/"))) [
        | inl root ↦ inr (rw (root) refl, none_at_root start root)
        | inr low ↦ elim (Bool-cases (is_workspace start)) [
          | inl found ↦ inl (start, rw (low, found) refl, here low, found)
          | inr not_here ↦
              elim (find_workspace-nearest depth shorter fuel (dir start)
                (omega (arith, enough, shorter start low))) [
                  | inl (d, run, above, found) ↦
                      inl (d, rw (low, not_here) run, up low not_here above, found)
                  | inr (run, nothing) ↦
                      inr (rw (low, not_here) run, λ d above. first start d not_here nothing above)
                ]
        ]
      ]
    where
      none_at_root :
          (start : Str)
          → str_eq start (codes "/") ≡ true
          → (d : Str) → Above start d
          → is_workspace d ≡ false
      none_at_root start root d (here low) = absurd (cc (root, low))
      none_at_root start root d (up low _ above) = absurd (cc (root, low))

      first :
          (start d : Str)
          → is_workspace start ≡ false
          → ((c : Str) → Above (dir start) c → is_workspace c ≡ false)
          → Above start d
          → is_workspace d ≡ false
      first start d not_here nothing (here low) = not_here
      first start d not_here nothing (up low _ above) = nothing d above
