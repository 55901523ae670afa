-- ===== src/Junit/Names.antt =====
-- The names that go/src/dropbox/build_tools/junit/xml.go constructs from the environment of a test.
use dbx_build_tools.Base.{
  ℕ, ◌+◌, ◌%◌, ◌<◌, ◌≡◌, refl, sym, ap, ◌∙◌, Bool, true, false, ◌&&◌, Option, none, some, ◌++◌, Str,
  codes, is_nil, if◌then◌else◌, ltb, arith, append_cancel_left, append_cancel_right, ◌≢◌,
}
use dbx_build_tools.Base.Result.{Result, ok, err, panic, ◌>>=◌}

-- How a process ends early, other than in a panic.
pub data Exit : Type 0 where
  fatal : Exit

abbrev pub two64 : ℕ
two64 = 18446744073709551616

-- An `int` is its residue modulo 2^64; `parse_uint` is ParseUint to base 10 and 64 bits.
module _ (getenv : Str → Str) (parse_uint : Str → Option ℕ) where
  unfoldable pub parse_int_from_env : Str → ℕ → Bool → Result Exit ℕ
  parse_int_from_env env_var def fail_on_err =
      if is_nil (getenv env_var) then ok def else elim (parse_uint (getenv env_var)) [
        | none ↦ if fail_on_err then err fatal else ok def
        | some int_value ↦ ok (int_value % two64)
      ]

  -- `itoa` writes an `int`.
  unfoldable pub construct_test_name_from_env : (ℕ → Str) → Result Exit Str
  unfolding parse_int_from_env
  construct_test_name_from_env itoa =
      let name = getenv (codes "TEST_BINARY") in
      if is_nil name
      then panic
      else parse_int_from_env (codes "TEST_TOTAL_SHARDS") 0 true >>= λ total_shards.
          (if ltb 0 total_shards && ltb total_shards 9223372036854775808
            then (parse_int_from_env (codes "TEST_SHARD_INDEX") 0 true >>= λ index.
                let shard_id = (index + 1) % two64 in
                ok (
                  name
                  ++ (codes "_shard_" ++ (itoa shard_id ++ (codes "_of_" ++ itoa total_shards)))))
            else ok name)

-- What the environment of one of the shards holds.
pub record IsShard (getenv : Str → Str) (parse_uint : Str → Option ℕ) (total index : ℕ)
    : Type 0 where
  pub binary : is_nil (getenv (codes "TEST_BINARY")) ≡ false
  pub has_total : is_nil (getenv (codes "TEST_TOTAL_SHARDS")) ≡ false
  pub total_parsed : parse_uint (getenv (codes "TEST_TOTAL_SHARDS")) ≡ some total
  pub has_index : is_nil (getenv (codes "TEST_SHARD_INDEX")) ≡ false
  pub index_parsed : parse_uint (getenv (codes "TEST_SHARD_INDEX")) ≡ some index
  pub bound : (index < total) × (total < 9223372036854775808)

abbrev pub shard_name : (ℕ → Str) → Str → ℕ → ℕ → Str
shard_name itoa name index total =
    name ++ (codes "_shard_" ++ (itoa (index + 1) ++ (codes "_of_" ++ itoa total)))

construct_shard_name :
    (getenv : Str → Str) (parse_uint : Str → Option ℕ) (itoa : ℕ → Str) (total index : ℕ)
    → IsShard getenv parse_uint total index
    → construct_test_name_from_env getenv parse_uint itoa
      ≡ ok (shard_name itoa (getenv (codes "TEST_BINARY")) index total)
unfolding construct_test_name_from_env parse_int_from_env
construct_shard_name getenv parse_uint itoa total index shard =
    let (below, fits) = shard.bound in
    let same_total : total % two64 ≡ total = omega (arith, fits) in
    let same_index : (index % two64 + 1) % two64 ≡ index + 1 = omega (arith, below, fits) in
    let positive : (ltb 0 total && ltb total 9223372036854775808) ≡ true =
      ground (arith, below, fits) in
    rw
      (
        shard.binary, shard.has_total, shard.total_parsed, same_total, positive, shard.has_index,
        shard.index_parsed, same_index,
      )
      refl

-- Each shard of a binary finds a name, and two shards with different indexes find different names, if
-- different numbers are written differently.
construct_test_name-distinct :
    (g h : Str → Str) (parse_uint : Str → Option ℕ) (itoa : ℕ → Str) (total i j : ℕ)
    → ((m n : ℕ) → itoa m ≡ itoa n → m ≡ n)
    → IsShard g parse_uint total i
    → IsShard h parse_uint total j
    → g (codes "TEST_BINARY") ≡ h (codes "TEST_BINARY")
    → i ≢ j
    → (a : Str) × (b : Str) × (construct_test_name_from_env g parse_uint itoa ≡ ok a)
      × (construct_test_name_from_env h parse_uint itoa ≡ ok b)
      × (a ≢ b)
construct_test_name-distinct g h parse_uint itoa total i j injective one other same differ =
    let name = g (codes "TEST_BINARY") in
    let apart : shard_name itoa name i total ≢ shard_name itoa name j total = λ e.
      let numbers = append_cancel_left (codes "_shard_") (append_cancel_left name e) in
      let equal =
        append_cancel_right (itoa (i + 1)) (itoa (j + 1)) (codes "_of_" ++ itoa total) numbers in
      differ (omega (arith, injective (i + 1) (j + 1) equal)) in
    (
      shard_name itoa name i total,
      shard_name itoa name j total,
      construct_shard_name g parse_uint itoa total i one,
      construct_shard_name h parse_uint itoa total j other
          ∙ ap (λ (s : Str). ok (shard_name itoa s j total)) (sym same),
      apart,
    )
