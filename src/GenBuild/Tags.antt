-- ===== src/GenBuild/Tags.antt =====
-- go/src/dropbox/build_tools/gen-build-go/lib/tagmap.go: the build tags of Go sources.
use mathlib.Core.Path.{ap}
use dbx_build_tools.Base.{
  ℕ, suc, ◌+◌, ◌≡◌, refl, sym, ◌∙◌, ◌↔◌, ◌⊎◌, inl, inr, Bool, true, false, not, ◌&&◌, ◌||◌, Option,
  none, some, List, [], ◌∷◌, ◌++◌, append_assoc, Str, codes, str_eq, has, has_prefix,
  has_prefix_iff, lookup, drop, take, length, ltb, ◌==◌, ◌-◌, length-append, str_eq_refl,
  str_eq_iff, split, Bool-cases, if◌then◌else◌, arith,
}
use dbx_build_tools.Base.Result.{Result, ok, panic, ◌>>=◌}
use dbx_build_tools.GenBuild.Uniq.{uniq}

-- `strings.Index`: none for -1.
unfoldable pub index : Str → Str → Option ℕ
index [] needle = if has_prefix [] needle then some 0 else none
index (c ∷ s) needle =
    let later = index s needle in
    if has_prefix (c ∷ s) needle then some 0 else elim later [ none ↦ none | some n ↦ some (suc n) ]

-- `strings.ReplaceAll` of one byte.
unfoldable pub replace_all : ℕ → Str → Str → Str
replace_all b new [] = []
replace_all b new (c ∷ s) =
    let rest = replace_all b new s in if c == b then new ++ rest else c ∷ rest

unfoldable pub is_old_build_tag : Str → Bool
is_old_build_tag line = has_prefix line (codes "// +build") || has_prefix line (codes "//+build")

-- `needleStart + len(oldBuildTagPrefix) + 1`, where -1 stands for no match.
abbrev pub needle_end : Option ℕ → ℕ
needle_end none = 6
needle_end (some n) = n + 7

-- The slice `oldDirective[needleEnd:]` panics if its start is beyond the end.
unfoldable pub convert_build_directive : Str → Result Str Str
unfolding index replace_all
convert_build_directive old_directive =
    let start = needle_end (index old_directive (codes "+build")) in
    if ltb (length old_directive) start
    then panic
    else (let tags_portion = replace_all b' ' (codes " || ") (drop start old_directive) in
        ok (codes "//go:build " ++ replace_all b',' (codes " && ") tags_portion))

-- `strings.TrimSuffix`
unfoldable pub trim_suffix : Str → Str → Str
trim_suffix s suffix =
    let rest = take (length s - length suffix) s in
    if str_eq (drop (length s - length suffix) s) suffix && not (ltb (length s) (length suffix))
    then rest
    else s

-- The loop of `reconstructTags` from a given `tagString`.
unfoldable pub tag_loop : Str → List Str → Str
tag_loop tag_string [] = tag_string
tag_loop tag_string (t ∷ tags) = tag_loop (tag_string ++ (t ++ codes " && ")) tags

unfoldable pub reconstruct_tags : List Str → Str
unfolding tag_loop trim_suffix
reconstruct_tags [] = trim_suffix (tag_loop [] []) (codes " && ")
reconstruct_tags (t ∷ []) = [] ++ t
reconstruct_tags (t ∷ u ∷ tags) = trim_suffix (tag_loop [] (t ∷ u ∷ tags)) (codes " && ")

-- `strings.Contains`
unfoldable pub contains : Str → Str → Bool
unfolding index
contains s needle = elim (index s needle) [ none ↦ false | some _ ↦ true ]

-- What `extractBuildTags` takes from Go's packages strings and regexp.
pub record TagEnv : Type 0 where
  -- `strings.Trim(line, " \t")`
  pub trim : Str → Str
  pub find_identifiers : Str → List Str
  pub match_toolchain : Str → Bool

unfoldable pub toolchain_tags : TagEnv → List Str → List Str
toolchain_tags env [] = []
toolchain_tags env (ident ∷ idents) =
    let rest = toolchain_tags env idents in if env.match_toolchain ident then ident ∷ rest else rest

-- What one line adds: none if it is passed over.
unfoldable pub line_tags : TagEnv → Str → Option Str
unfolding contains toolchain_tags reconstruct_tags
line_tags env line =
    if not (has_prefix line (codes "//go:build"))
    then none
    else (let constraint = drop 10 line in
        if contains constraint (codes "||")
        then none
        else (let build_tags =
              reconstruct_tags (toolchain_tags env (env.find_identifiers constraint)) in
            if str_eq build_tags [] then none else some build_tags))

unfoldable pub tags_loop : TagEnv → List Str → List Str → Result Str (List Str)
unfolding is_old_build_tag convert_build_directive line_tags uniq
tags_loop env build_tags [] = ok build_tags
tags_loop env build_tags (l ∷ lines) =
    let trimmed = env.trim l in
    let line = if is_old_build_tag trimmed then convert_build_directive trimmed else ok trimmed in
    line >>= λ line. elim (line_tags env line) [
      | none ↦ tags_loop env build_tags lines
      | some tags ↦ tags_loop env (uniq (build_tags ++ tags ∷ [])) lines
    ]

unfoldable pub extract_build_tags : TagEnv → Str → Result Str (List Str)
unfolding tags_loop
extract_build_tags env go_src = tags_loop env [] (split go_src b'\n')

-- `keepEntries` on a tag map.
unfoldable pub keep_entries : List (Str × List Str) → List Str → List (Str × List Str)
keep_entries [] to_keep = []
keep_entries ((k, v) ∷ m) to_keep =
    let rest = keep_entries m to_keep in if has k to_keep then (k, v) ∷ rest else rest

spaced_tag :
    (rest : Str) → (convert_build_directive (codes "// +build" ++ rest) ≡ panic) ↔ (rest ≡ [])
unfolding convert_build_directive index has_prefix
spaced_tag [] = (λ _. refl, λ _. refl)
spaced_tag (c ∷ rest) = ground arith

tight_tag :
    (rest : Str) → (convert_build_directive (codes "//+build" ++ rest) ≡ panic) ↔ (rest ≡ [])
unfolding convert_build_directive index has_prefix
tight_tag [] = (λ _. refl, λ _. refl)
tight_tag (c ∷ rest) = ground arith

-- `convertBuildDirective` of an old build tag panics exactly if nothing follows the word `+build`.
pub convert_panics :
    (line : Str)
    → is_old_build_tag line ≡ true
    → (convert_build_directive line ≡ panic)
      ↔ ((line ≡ codes "// +build") ⊎ (line ≡ codes "//+build"))
unfolding is_old_build_tag
convert_panics line h = elim (Bool-cases (has_prefix line (codes "// +build"))) [
  | inl e ↦ let (rest, f) = (has_prefix_iff line (codes "// +build")).0 e in rw f (spaced rest)
  | inr e ↦
      let (rest, f) = (has_prefix_iff line (codes "//+build")).0 (ground (arith, e, h)) in
      rw f (tight rest)
]
  where
    spaced :
        (rest : Str)
        → (convert_build_directive (codes "// +build" ++ rest) ≡ panic) ↔ (
            (codes "// +build" ++ rest ≡ codes "// +build")
            ⊎ (codes "// +build" ++ rest ≡ codes "//+build"))
    spaced [] = ground (arith, spaced_tag [])
    spaced (c ∷ rest) = ground (arith, spaced_tag (c ∷ rest))

    tight :
        (rest : Str)
        → (convert_build_directive (codes "//+build" ++ rest) ≡ panic) ↔ (
            (codes "//+build" ++ rest ≡ codes "// +build")
            ⊎ (codes "//+build" ++ rest ≡ codes "//+build"))
    tight [] = ground (arith, tight_tag [])
    tight (c ∷ rest) = ground (arith, tight_tag (c ∷ rest))

-- `keepEntries` keeps exactly the entries of the files that are to be kept.
pub lookup-keep_entries :
    (k : Str) (m : List (Str × List Str)) (to_keep : List Str)
    → lookup k (keep_entries m to_keep) ≡ (if has k to_keep then lookup k m else none)
unfolding keep_entries lookup
lookup-keep_entries k [] to_keep = ground arith
lookup-keep_entries k ((x, v) ∷ m) to_keep =
    ground (arith, lookup-keep_entries k m to_keep, str_eq_iff k x, str_eq_iff x k)

-- Strings with a separator between them.
abbrev pub joined : Str → List Str → Str
joined sep [] = []
joined sep (s ∷ []) = s
joined sep (s ∷ t ∷ l) = s ++ (sep ++ joined sep (t ∷ l))

drop-append : (s t : Str) → drop (length s) (s ++ t) ≡ t
drop-append [] t = refl
drop-append (c ∷ s) t = drop-append s t

take-append : (s t : Str) → take (length s) (s ++ t) ≡ s
take-append [] t = refl
take-append (c ∷ s) t = ap (λ (l : Str). c ∷ l) (take-append s t)

trim_suffix-append : (s t : Str) → trim_suffix (s ++ t) t ≡ s
unfolding trim_suffix
trim_suffix-append s t =
    let n : length (s ++ t) - length t ≡ length s = omega (arith, length-append s t) in
    ground (arith, n, length-append s t, drop-append s t, take-append s t, str_eq_refl t)

tag_loop_lem :
    (acc t : Str) (tags : List Str)
    → tag_loop acc (t ∷ tags) ≡ acc ++ (joined (codes " && ") (t ∷ tags) ++ codes " && ")
unfolding tag_loop
tag_loop_lem acc t [] = refl
tag_loop_lem acc t (u ∷ tags) =
    tag_loop_lem (acc ++ (t ++ codes " && ")) u tags
    ∙ append_assoc acc (t ++ codes " && ") (joined (codes " && ") (u ∷ tags) ++ codes " && ")
    ∙ ap (λ (l : Str). acc ++ l)
        (append_assoc t (codes " && ") (joined (codes " && ") (u ∷ tags) ++ codes " && ")
          ∙ sym (append_assoc t (codes " && " ++ joined (codes " && ") (u ∷ tags)) (codes " && ")))

-- `reconstructTags` joins the tags with `&&`, however many there are.
reconstruct_tags_eq : (tags : List Str) → reconstruct_tags tags ≡ joined (codes " && ") tags
unfolding reconstruct_tags
reconstruct_tags_eq [] = unfold tag_loop in unfold trim_suffix in unfold str_eq in refl
reconstruct_tags_eq (t ∷ []) = refl
reconstruct_tags_eq (t ∷ u ∷ tags) =
    rw (tag_loop_lem [] t (u ∷ tags))
      (trim_suffix-append (joined (codes " && ") (t ∷ u ∷ tags)) (codes " && "))
