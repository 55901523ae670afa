-- ===== src/Topological/Critical/Tests.antt =====
-- Two tasks, one of which needs the other, for `CriticalPath` of
-- go/src/dropbox/build_tools/svcctl/topological/runner.go.

use dbx_build_tools.Base.{
  ℕ, ◌<◌, ◌≤◌, ◌+◌, ◌≡◌, refl, Bool, true, false, some, List, [], ◌∷◌, Memᴰ, Memᴰ-cons,
  not-Memᴰ-nil, Str, lookup, str_eq, insert, arith, inl, inr,
}
use dbx_build_tools.Topological.Task.{TaskOps}
use dbx_build_tools.Topological.Critical.{Timing, Costs, critical_path, all_tasks}
use dbx_build_tools.Topological.Critical.Best.{IsTimed, AreBest}
use dbx_build_tools.Topological.Critical.Slowest.{IsCritical, critical_path_slowest}

abbrev needs : Bool → List Bool
needs true = false ∷ []
needs false = []

abbrev name : Bool → Str
name true = 1 ∷ []
name false = 0 ∷ []

abbrev lasts : Bool → ℕ
lasts true = 2
lasts false = 5

abbrev two : TaskOps Bool
two = record { key = name; dependents = needs }

abbrev timing : Timing Bool
timing = record { duration = lasts; early = λ t. false }

abbrev rank : Bool → ℕ
rank true = 1
rank false = 0

abbrev limit : Bool → ℕ
limit true = 7
limit false = 5

two-IsTimed : IsTimed two timing rank limit
two-IsTimed = record {
  injective = distinct;
  falls = falls;
  own = own;
  longer = longer;
  small = small;
}
  where
    distinct : (t u : Bool) → name t ≡ name u → t ≡ u
    distinct true true h = refl
    distinct false false h = refl
    distinct true false h = absurd (cc (h))
    distinct false true h = absurd (cc (h))

    falls : (t d : Bool) → Memᴰ d (needs t) → rank d < rank t
    falls false d m = absurd (not-Memᴰ-nil m)
    falls true false m = omega arith
    falls true true m =
        absurd (elim ((Memᴰ-cons true false []).0 m) [ inl e ↦ cc (e) | inr n ↦ not-Memᴰ-nil n ])

    own : (t : Bool) → lasts t ≤ limit t
    own true = omega arith
    own false = omega arith

    longer : (t d : Bool) → Memᴰ d (needs t) → lasts t + limit d ≤ limit t
    longer false d m = absurd (not-Memᴰ-nil m)
    longer true false m = omega arith
    longer true true m =
        absurd (elim ((Memᴰ-cons true false []).0 m) [ inl e ↦ cc (e) | inr n ↦ not-Memᴰ-nil n ])

    small : (t : Bool) → limit t < 9223372036854775808
    small true = omega arith
    small false = omega arith

both_found :
    all_tasks two timing
      ((name true, true) ∷ (name false, false) ∷ [])
      (name false ∷ name true ∷ [])
    ≡ some (false ∷ true ∷ [])
unfolding all_tasks lookup str_eq
both_found = refl

fuel_is_enough : (t : Bool) → Memᴰ t (false ∷ true ∷ []) → rank t < 2
fuel_is_enough true m = omega arith
fuel_is_enough false m = omega arith

no_costs : AreBest two timing []
unfolding lookup
no_costs t c h = absurd (cc (h))

critical_path_slowest_example :
    (path : List Bool) × (costs' : Costs) × (critical_path two timing 2
        ((name true, true) ∷ (name false, false) ∷ [])
        (name false ∷ name true ∷ [])
        []
      ≡ some (path, costs'))
    × IsCritical two timing (false ∷ true ∷ []) path
    × AreBest two timing costs'
critical_path_slowest_example =
    critical_path_slowest two timing rank limit two-IsTimed 2
      ((name true, true) ∷ (name false, false) ∷ []) (name false ∷ name true ∷ []) []
      (false ∷ true ∷ []) both_found fuel_is_enough no_costs

slowest_run :
    critical_path two timing 2
      ((name true, true) ∷ (name false, false) ∷ [])
      (name false ∷ name true ∷ [])
      []
    ≡ some (true ∷ false ∷ [], (name false, 5) ∷ (name true, 7) ∷ [])
unfolding critical_path lookup str_eq insert
slowest_run = refl
