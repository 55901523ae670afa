-- ===== src/GenBuild/Embed.antt =====
-- The files that go/src/dropbox/build_tools/gen-build-go/lib/embed.go finds for the patterns of
-- `//go:embed`.
use dbx_build_tools.Base.{
  ◌≡◌, refl, subst, Bool, not, ◌&&◌, ◌||◌, Option, none, some, List, [], ◌∷◌, ◌++◌, Str, codes, has,
  has-append, has_prefix, is_nil, lookup, insert, domain, domain-insert, if◌then◌else◌, arith,
}
use dbx_build_tools.Base.Result.{Result, ok, err, ◌>>=◌, >>=-ok_inv}
use dbx_build_tools.GenBuild.Text.{EmbedConfig, EmbedConfigWrapper}

-- The functions of path/filepath and os, and the error of a workspace that is not found. `walk_dir`
-- gives the paths below a directory, and whether each is a directory.
pub record EmbedEnv (E : Type 0) : Type 0 where
  pub join_path : Str → Str → Str
  pub glob : Str → Result E (List Str)
  pub abs : Str → Result E Str
  pub is_dir : Str → Result E Bool
  pub walk_dir : Str → Result E (List (Str × Bool))
  pub rel : Str → Str → Result E Str
  pub no_workspace : E

-- The files that the callback of `WalkDir` takes.
unfoldable pub walked_files : List (Str × Bool) → List Str
unfolding has_prefix
walked_files [] = []
walked_files ((file_path, entry_is_dir) ∷ entries) =
    let rest = walked_files entries in
    if has_prefix file_path (codes ".") || has_prefix file_path (codes "-")
    then rest
    else if not entry_is_dir
    then file_path ∷ rest
    else rest

abbrev pub empty_config : EmbedConfig
empty_config = record { patterns = []; files = []; srcs = [] }

-- `ec.Patterns[p]`, where a missing key is nil.
abbrev pub files_of_pattern : Option (List Str) → List Str
files_of_pattern none = []
files_of_pattern (some l) = l

-- One file of a pattern: its place in the package and what it is read from.
unfoldable pub add_embedded : Str → Str → Str → EmbedConfig → EmbedConfig
unfolding lookup insert
add_embedded p fp_rel_dir target ec = record {
  patterns = insert p (files_of_pattern (lookup p ec.patterns) ++ fp_rel_dir ∷ []) ec.patterns;
  files = insert fp_rel_dir target ec.files;
  srcs = ec.srcs ++ fp_rel_dir ∷ [];
}

module _ {E : Type 0} (env : EmbedEnv E) (workspace dir : Str) (use_absolute_filepaths : Bool) where
  unfoldable pub target_of : Str → Result E Str
  target_of fp =
      if use_absolute_filepaths
      then ok fp
      else if is_nil workspace
      then err env.no_workspace
      else env.rel workspace fp

  -- The loop over the files of a match.
  unfoldable pub files_loop : Str → List Str → EmbedConfig → Result E EmbedConfig
  unfolding add_embedded target_of
  files_loop p [] ec = ok ec
  files_loop p (fp ∷ fps) ec = env.rel dir fp >>= λ fp_rel_dir.
      target_of fp >>= λ target. files_loop p fps (add_embedded p fp_rel_dir target ec)

  -- The files of a match: those below it, or itself.
  unfoldable pub file_paths : Str → Result E (List Str)
  unfolding walked_files
  file_paths fp = env.is_dir fp >>= λ is_dir.
      if is_dir then (env.walk_dir fp >>= λ entries. ok (walked_files entries)) else ok (fp ∷ [])

  unfoldable pub matches_loop : Str → List Str → EmbedConfig → Result E EmbedConfig
  unfolding file_paths files_loop
  matches_loop p [] ec = ok ec
  matches_loop p (glob_match ∷ matches) ec = env.abs glob_match >>= λ fp.
      file_paths fp >>= λ fps. files_loop p fps ec >>= λ ec'. matches_loop p matches ec'

  unfoldable pub patterns_loop : List Str → EmbedConfig → Result E EmbedConfig
  unfolding matches_loop
  patterns_loop [] ec = ok ec
  patterns_loop (p ∷ patterns) ec = env.glob (env.join_path dir p) >>= λ matches.
      matches_loop p matches ec >>= λ ec'. patterns_loop patterns ec'

  -- `generateEmbedConfig`
  unfoldable pub generate_embed_config : List Str → Result E EmbedConfig
  unfolding patterns_loop
  generate_embed_config patterns = patterns_loop patterns empty_config

-- `BuildEmbedConfigForPkg`
unfoldable pub build_embed_config_for_pkg :
    {E : Type 0} → EmbedEnv E → List Str → List Str → Str → Str → Bool → Result E EmbedConfigWrapper
unfolding generate_embed_config
build_embed_config_for_pkg env embed_patterns test_embed_patterns pkg_dir workspace absolute =
    if is_nil embed_patterns && is_nil test_embed_patterns
    then ok (record { ec = empty_config; test_ec = empty_config })
    else (env.abs pkg_dir >>= λ dir.
        generate_embed_config env workspace dir absolute embed_patterns >>= λ ec.
        generate_embed_config env workspace dir absolute test_embed_patterns >>= λ test_ec.
        ok (record { ec = ec; test_ec = test_ec }))

-- The files of a configuration are its sources.
abbrev pub AreSources : EmbedConfig → Type 0
AreSources ec = (k : Str) → has k (domain ec.files) ≡ has k ec.srcs

add_embedded-AreSources :
    (p f target : Str) (ec : EmbedConfig) → AreSources ec → AreSources (add_embedded p f target ec)
unfolding add_embedded has
add_embedded-AreSources p f target ec same k =
    ground (arith, same k, domain-insert k f target ec.files, has-append k ec.srcs (f ∷ []))

module _ {E : Type 0} (env : EmbedEnv E) (workspace dir : Str) (absolute : Bool) where
  files_loop-AreSources :
      (p : Str) (fps : List Str) (ec ec' : EmbedConfig)
      → files_loop env workspace dir absolute p fps ec ≡ ok ec'
      → AreSources ec
      → AreSources ec'
  unfolding files_loop
  files_loop-AreSources p [] ec ec' h same =
      let end : ec ≡ ec' = ground (arith, h) in subst AreSources end same
  files_loop-AreSources p (fp ∷ fps) ec ec' h same =
      let (f, _, h1) = >>=-ok_inv (env.rel dir fp) _ h in
      let (target, _, h2) = >>=-ok_inv (target_of env workspace dir absolute fp) _ h1 in
      files_loop-AreSources p fps (add_embedded p f target ec) ec' h2
        (add_embedded-AreSources p f target ec same)

  matches_loop-AreSources :
      (p : Str) (matches : List Str) (ec ec' : EmbedConfig)
      → matches_loop env workspace dir absolute p matches ec ≡ ok ec'
      → AreSources ec
      → AreSources ec'
  unfolding matches_loop
  matches_loop-AreSources p [] ec ec' h same =
      let end : ec ≡ ec' = ground (arith, h) in subst AreSources end same
  matches_loop-AreSources p (fp ∷ matches) ec ec' h same =
      let (full, _, h1) = >>=-ok_inv (env.abs fp) _ h in
      let (fps, _, h2) = >>=-ok_inv (file_paths env workspace dir absolute full) _ h1 in
      let (ec1, run, h3) = >>=-ok_inv (files_loop env workspace dir absolute p fps ec) _ h2 in
      matches_loop-AreSources p matches ec1 ec' h3 (files_loop-AreSources p fps ec ec1 run same)

  patterns_loop-AreSources :
      (patterns : List Str) (ec ec' : EmbedConfig)
      → patterns_loop env workspace dir absolute patterns ec ≡ ok ec'
      → AreSources ec
      → AreSources ec'
  unfolding patterns_loop
  patterns_loop-AreSources [] ec ec' h same =
      let end : ec ≡ ec' = ground (arith, h) in subst AreSources end same
  patterns_loop-AreSources (p ∷ patterns) ec ec' h same =
      let (matches, _, h1) = >>=-ok_inv (env.glob (env.join_path dir p)) _ h in
      let (ec1, run, h2) = >>=-ok_inv (matches_loop env workspace dir absolute p matches ec) _ h1 in
      patterns_loop-AreSources patterns ec1 ec' h2
        (matches_loop-AreSources p matches ec ec1 run same)

  -- The sources of a configuration, which become data of the target, are the files that it maps.
  generate_embed_config-AreSources :
      (patterns : List Str) (ec : EmbedConfig)
      → generate_embed_config env workspace dir absolute patterns ≡ ok ec
      → AreSources ec
  unfolding generate_embed_config
  generate_embed_config-AreSources patterns ec h =
      patterns_loop-AreSources patterns empty_config ec h (λ k. unfold has in refl)
