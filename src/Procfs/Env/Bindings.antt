-- ===== src/Procfs/Env/Bindings.antt =====
-- What go/src/dropbox/procfs/stat.go reads of an environment and of a list of children.
use dbx_build_tools.Base.{
  ℕ, ◌≡◌, refl, sym, ap, ◌∙◌, false, Option, none, some, List, [], ◌∷◌, ◌++◌, ◌==◌, ==_iff, Str,
  cut-first, split, insert, is_nil, All, contains_byte, append_assoc, arith, append-nil,
}
use dbx_build_tools.Base.Result.{ok, err}
use dbx_build_tools.Procfs.Fault.{other}
use dbx_build_tools.Procfs.Env.{env_loop, read_proc_env, children_loop}

-- The bytes of an environment: each binding, with a zero byte behind it.
abbrev pub environ : List (Str × Str) → Str
environ [] = []
environ ((k, v) ∷ bindings) = (k ++ 61 ∷ v) ++ 0 ∷ environ bindings

-- A binding that the bytes can hold: no zero byte, and no "=" in the name.
abbrev pub IsBinding : Str × Str → Type 0
IsBinding (k, v) = (contains_byte k 61 ≡ false) × (contains_byte (k ++ 61 ∷ v) 0 ≡ false)

-- `envMap[k] = v` for each binding, in their order.
abbrev pub bind_all : List (Str × Str) → List (Str × Str) → List (Str × Str)
bind_all [] env_map = env_map
bind_all ((k, v) ∷ bindings) env_map = bind_all bindings (insert k v env_map)

split-piece : (s t : Str) (b : ℕ) → contains_byte s b ≡ false → split (s ++ b ∷ t) b ≡ s ∷ split t b
unfolding split contains_byte
split-piece [] t b h = ground (arith, ==_iff b b)
split-piece (c ∷ s) t b h = ground (arith, split-piece s t b (ground (arith, h)), h)

filled : (k v : Str) → is_nil (k ++ 61 ∷ v) ≡ false
filled [] v = refl
filled (c ∷ k) v = refl

env_loop-binding :
    (k v : Str) (pieces : List Str) (env_map : List (Str × Str))
    → contains_byte k 61 ≡ false
    → env_loop ((k ++ 61 ∷ v) ∷ pieces) env_map ≡ env_loop pieces (insert k v env_map)
unfolding env_loop
env_loop-binding k v pieces env_map free = rw (filled k v, cut-first k v 61 free) refl

env_loop-environ :
    (bindings env_map : List (Str × Str))
    → All IsBinding bindings
    → env_loop (split (environ bindings) 0) env_map ≡ bind_all bindings env_map
env_loop-environ [] env_map _ = unfold env_loop split in refl
env_loop-environ ((k, v) ∷ bindings) env_map ((free, zeroless), all) =
    ap (λ (l : List Str). env_loop l env_map)
      (split-piece (k ++ 61 ∷ v) (environ bindings) 0 zeroless)
    ∙ env_loop-binding k v (split (environ bindings) 0) env_map free
    ∙ env_loop-environ bindings (insert k v env_map) all

-- An environment is read back as the map of its bindings, where of two with one name the last holds.
read_proc_env-environ :
    (pid : ℕ) (bindings : List (Str × Str))
    → All IsBinding bindings
    → read_proc_env pid (ok (environ bindings))
      ≡ ok (record { env = environ bindings; env_map = bind_all bindings []; pid = pid })
unfolding read_proc_env
read_proc_env-environ pid bindings all = rw (env_loop-environ bindings [] all) refl

-- The bytes of a list of children, where `digits` writes a pid.
abbrev pub child_text : (ℕ → Str) → List ℕ → Str
child_text digits [] = []
child_text digits (pid ∷ pids) = digits pid ++ 32 ∷ child_text digits pids

module _ (atoi : Str → Option ℕ) (digits : ℕ → Str) (back : (n : ℕ) → atoi (digits n) ≡ some n)
    (spaceless : (n : ℕ) → contains_byte (digits n) 32 ≡ false) where
  children_loop-piece :
      (piece s t : Str) (child_pids : List ℕ)
      → contains_byte s 32 ≡ false
      → children_loop atoi piece (s ++ 32 ∷ t) child_pids ≡ elim (atoi (piece ++ s)) [
        | none ↦ err other
        | some pid ↦ children_loop atoi [] t (child_pids ++ pid ∷ [])
      ]
  unfolding children_loop contains_byte
  children_loop-piece piece [] t child_pids h = rw (append-nil piece) refl
  children_loop-piece piece (c ∷ s) t child_pids h =
      let other_byte : (c == 32) ≡ false = ground (arith, h) in
      rw (other_byte) (
        children_loop-piece (piece ++ c ∷ []) s t child_pids (ground (arith, h))
        ∙ ap
            (λ (l : Str). elim (atoi l) [
              | none ↦ err other
              | some pid ↦ children_loop atoi [] t (child_pids ++ pid ∷ [])
            ])
            (append_assoc piece (c ∷ []) s))

  -- The children of a task are read back from what the kernel writes, after those of earlier tasks.
  children_loop-child_text :
      (pids child_pids : List ℕ)
      → children_loop atoi [] (child_text digits pids) child_pids ≡ ok (child_pids ++ pids)
  children_loop-child_text [] child_pids =
      unfold children_loop in ap ok (sym (append-nil child_pids))
  children_loop-child_text (pid ∷ pids) child_pids =
      children_loop-piece [] (digits pid) (child_text digits pids) child_pids (spaceless pid)
      ∙ rw (back pid) (
          children_loop-child_text pids (child_pids ++ pid ∷ [])
          ∙ ap ok (append_assoc child_pids (pid ∷ []) pids))
