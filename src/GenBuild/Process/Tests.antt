-- ===== src/GenBuild/Process/Tests.antt =====
-- Two packages that import each other, for go/src/dropbox/build_tools/gen-build-go/gen-build-go.go.
use dbx_build_tools.Base.{
  ℕ, ◌≡◌, refl, false, Option, none, some, [], ◌∷◌, Str, codes, str_eq, has, has_prefix, arith,
  if◌then◌else◌, occ,
}
use dbx_build_tools.GenBuild.Process.{Package, found, GenEnv, Generator, process}
use dbx_build_tools.GenBuild.Process.Once.{IsSound}
use dbx_build_tools.GenBuild.Process.Ends.{IsProcessed, process_complete}

abbrev a : Str
a = codes "dropbox/a"

abbrev b : Str
b = codes "dropbox/b"

abbrev importing : Str → Str → Package
importing path dep = record {
  import_path = path;
  imports = dep ∷ [];
  test_imports = [];
  x_test_imports = [];
  has_tests = false;
  has_x_tests = false;
}

-- Errors are numbers.
abbrev cyclic : GenEnv ℕ
cyclic = record {
  go_src = codes "go/src";
  repo_by_import_path = [];
  only_gen_pkgs = none;
  join_module = λ p. p;
  dirs = λ p. p ∷ [];
  sort = λ l. l;
  stat = λ p. false;
  imported = λ p. false;
  exists = λ p. has p (a ∷ b ∷ []);
  populate = λ p. if str_eq p a then found (importing a b) else found (importing b a);
  attributes = λ p. none;
  write_to_build_config_file = λ p c. none;
  failed_to_process = λ p e. e;
}

abbrev fresh : Generator
fresh = record { golang_pkgs = []; processed_pkgs = []; visit_stack = [] }

fresh-IsSound : IsSound cyclic fresh
unfolding has occ
fresh-IsSound = record {
  apart = λ k h. refl;
  once = λ k. omega arith;
  known = λ k h. absurd (cc (h));
}

process_complete_example :
    (e : Option ℕ) × (g : Generator) × (process cyclic 3 a fresh ≡ some (e, g))
    × IsProcessed cyclic a fresh e g
process_complete_example =
    process_complete cyclic (a ∷ b ∷ []) 3 a fresh (λ k h. h) (omega arith) refl fresh-IsSound

-- The package that is visited last is generated first.
process_run :
    process cyclic 3 a fresh
    ≡ some (none, record { golang_pkgs = []; processed_pkgs = b ∷ a ∷ []; visit_stack = [] })
unfolding process has_prefix has str_eq
process_run = refl
