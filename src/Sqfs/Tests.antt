-- ===== src/Sqfs/Tests.antt =====
-- A manifest of two entries, for go/src/dropbox/build_tools/build-sqfs/main.go.
use dbx_build_tools.Base.{
  ℕ, ◌≡◌, ◌<◌, refl, some, List, [], ◌∷◌, map, codes, contains_byte, length, arith,
}
use dbx_build_tools.Base.Result.{ok}
use dbx_build_tools.Sqfs.Manifest.{ManifestEntry, manifest_line, read_manifest, read_manifest-map}
use dbx_build_tools.Sqfs.Link.{WorkItem, work_items, handled, count_up, work_items_cover}

abbrev entries : List ManifestEntry
entries =
    record { short_dest = codes "a"; src = codes "/x" }
    ∷ record { short_dest = codes "b"; src = [] }
    ∷ []

read_manifest-map_example :
    read_manifest (λ s. s) {E = ℕ} (ok (map manifest_line entries)) ≡ ok entries
unfolding contains_byte
read_manifest-map_example = read_manifest-map (λ s. s) entries ((refl, refl), ((refl, refl), tt))

work_items_cover_example :
    (items : List WorkItem) × (work_items 4 3 ≡ some items)
    × (handled items ≡ count_up 3 0)
    × (length items < 20000)
work_items_cover_example = work_items_cover 4 3 (omega arith)
