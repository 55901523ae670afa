-- ===== src/Codegen/Tests.antt =====
-- Lines and aliases, for go/src/dropbox/build_tools/codegen.
use mathlib.Core.Path.{ap}
use dbx_build_tools.Base.{
  ℕ, suc, ◌≡◌, Str, codes, replicate, length, length-replicate, some, sym, ◌∙◌,
}
use dbx_build_tools.Codegen.Alias.{IsPrinting}
use dbx_build_tools.Codegen.Go.{GoPkgMap, new_go_pkg_map, name_value, reserve, assign_aliases}
use dbx_build_tools.Codegen.Go.Assigned.{IsAssigned, imported, assign_aliases-IsAssigned}

-- Numbers in unary.
abbrev strokes : ℕ → Str
strokes n = replicate (suc n) b'1'

strokes-IsPrinting : IsPrinting strokes
strokes-IsPrinting = record {
  nonempty = λ n h. absurd (cc);
  injective = λ m n h.
      let same : suc m ≡ suc n =
        sym (length-replicate (suc m) b'1') ∙ ap length h ∙ length-replicate (suc n) b'1' in
      cc;
}

abbrev two_errors : GoPkgMap
two_errors =
    (name_value (codes "godropbox/errors") (codes "New")
      (name_value (codes "errors") (codes "New")
        (reserve (codes "errors") (new_go_pkg_map (codes "x")))).0).0

assign_aliases-IsAssigned_example :
    (m : GoPkgMap) × (assign_aliases strokes two_errors ≡ some m)
    × IsAssigned two_errors.reserved (imported two_errors) m.pkgs
assign_aliases-IsAssigned_example = assign_aliases-IsAssigned strokes strokes-IsPrinting two_errors
