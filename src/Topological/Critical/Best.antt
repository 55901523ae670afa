-- ===== src/Topological/Critical/Best.antt =====
-- The greatest weight of the chains from a task, for `taskCost` of
-- go/src/dropbox/build_tools/svcctl/topological/runner.go.

use dbx_build_tools.Base.{
  ◌∙◌, Memᴰ-cons, not-Memᴰ-nil, ℕ, ◌+◌, ◌<◌, ◌≤◌, ◌≡◌, refl, sym, subst, ltb, false, Option, some,
  List, [], ◌∷◌, Memᴰ, lookup, ◌⊎◌, inl, inr, arith, Bool-cases,
}
use dbx_build_tools.Topological.Task.{TaskOps}
use dbx_build_tools.Topological.Critical.{Timing, Costs, two_63, add_64, less_64, highest_loop}

less_64_small : (a b : ℕ) → a < two_63 → b < two_63 → less_64 a b ≡ ltb a b
less_64_small a b h k = ground (arith, h, k)

pub add_64_small : (a b : ℕ) → a + b < two_63 → add_64 a b ≡ a + b
add_64_small a b h = omega arith

module _ {T : Type 0} (ops : TaskOps T) (timing : Timing T) where
  open ops use {key, dependents}
  open timing use {duration, early}

  -- Each task after the first is a dependency of the one before it that the runner started.
  pub data IsChain : List T → Type 0 where
    single : {t : T} → IsChain (t ∷ [])
    link :
        {t d : T} {l : List T}
        → Memᴰ d (dependents t)
        → early d ≡ false
        → IsChain (d ∷ l)
        → IsChain (t ∷ d ∷ l)

  abbrev pub weight : List T → ℕ
  weight [] = 0
  weight (t ∷ l) = duration t + weight l

  -- Dependencies have no cycle, a key names one task, and no chain lasts 2^63 ns or more.
  pub record IsTimed (rank limit : T → ℕ) : Type 0 where
    pub injective : (t u : T) → key t ≡ key u → t ≡ u
    pub falls : (t d : T) → Memᴰ d (dependents t) → rank d < rank t
    pub own : (t : T) → duration t ≤ limit t
    pub longer : (t d : T) → Memᴰ d (dependents t) → duration t + limit d ≤ limit t
    pub small : (t : T) → limit t < two_63

  -- The greatest weight of a chain that starts with a task.
  pub record IsBest (t : T) (c : ℕ) : Type 0 where
    pub rest : List T
    pub chain : IsChain (t ∷ rest)
    pub reached : weight (t ∷ rest) ≡ c
    pub above : (l : List T) → IsChain (t ∷ l) → weight (t ∷ l) ≤ c

  pub IsBest-unique : (t : T) (c d : ℕ) → IsBest t c → IsBest t d → c ≡ d
  IsBest-unique t c d a b =
      ground (arith, a.reached, b.reached, a.above b.rest b.chain, b.above a.rest a.chain)

  -- What the loop of `highestCost` has found.
  pub record Found (l : List T) (cost : ℕ) (highest : Option T) (h : Option T) (c : ℕ)
      : Type 0 where
    pub least : cost ≤ c
    pub which :
        ((h ≡ highest) × (c ≡ cost))
        ⊎ ((t : T) × (h ≡ some t) × Memᴰ t l × (early t ≡ false) × IsBest t c)
    pub bound :
        (d : T) (k : List T) → Memᴰ d l → early d ≡ false → IsChain (d ∷ k) → weight (d ∷ k) ≤ c

  abbrev pub AreBest : Costs → Type 0
  AreBest costs = (t : T) (c : ℕ) → lookup (key t) costs ≡ some c → IsBest t c

  -- A way to find the cost of a task.
  abbrev pub Finds : (T → Costs → Option (ℕ × Costs)) → T → Type 0
  Finds f t =
      (costs : Costs)
      → AreBest costs
      → (c : ℕ) × (costs' : Costs) × (f t costs ≡ some (c, costs')) × IsBest t c × AreBest costs'

  module _ (rank limit : T → ℕ) (timed : IsTimed rank limit) where
    weight-limit : (t : T) (l : List T) → IsChain (t ∷ l) → weight (t ∷ l) ≤ limit t
    weight-limit t [] single = ground (arith, timed.own t)
    weight-limit t (d ∷ l) (link m e k) =
        let rest = weight-limit d l k in
        let longer = timed.longer t d m in omega (arith, rest, longer)

    pub IsBest-small : (t : T) (c : ℕ) → IsBest t c → c < two_63
    IsBest-small t c b =
        let h = weight-limit t b.rest b.chain in
        let k = timed.small t in let r = b.reached in omega (arith, h, k, r)

    Found-more :
        (task : T) (tasks : List T) (cost cost1 c : ℕ) (highest highest1 h : Option T)
        → cost ≤ cost1
        → (((highest1 ≡ highest) × (cost1 ≡ cost))
            ⊎ ((highest1 ≡ some task) × (early task ≡ false) × IsBest task cost1))
        → ((k : List T) → early task ≡ false → IsChain (task ∷ k) → weight (task ∷ k) ≤ cost1)
        → Found tasks cost1 highest1 h c
        → Found (task ∷ tasks) cost highest h c
    Found-more task tasks cost cost1 c highest highest1 h more was all f = record {
      least = ground (arith, more, f.least);
      which = elim f.which [
        | inl (same, eq) ↦ elim was [
          | inl (same', eq') ↦ inl (same ∙ same', eq ∙ eq')
          | inr (now, e, b) ↦ inr (
            task,
            same ∙ now,
            (Memᴰ-cons task task tasks).1 (inl refl),
            e,
            subst (IsBest task) (sym eq) b,
          )
        ]
        | inr (t, same, m, e, b) ↦ inr (t, same, (Memᴰ-cons t task tasks).1 (inr m), e, b)
      ];
      bound = λ d k m e chain. elim ((Memᴰ-cons d task tasks).0 m) [
        | inl same ↦
            let here : weight (d ∷ k) ≤ cost1 =
              subst (λ z. early z ≡ false → IsChain (z ∷ k) → weight (z ∷ k) ≤ cost1) (sym same)
                (all k) e chain in
            let least = f.least in omega (arith, here, least)
        | inr n ↦ f.bound d k n e chain
      ];
    }

    pub highest_loop-Found :
        (f : T → Costs → Option (ℕ × Costs)) (l : List T) (cost : ℕ) (highest : Option T)
        (costs : Costs)
        → ((t : T) → Memᴰ t l → early t ≡ false → Finds f t)
        → cost < two_63
        → AreBest costs
        → (h : Option T) × (costs' : Costs) × (c : ℕ) × (highest_loop ops timing f l cost highest
              costs
            ≡ some (h, costs'))
          × Found l cost highest h c
          × AreBest costs'
    unfolding highest_loop
    highest_loop-Found f [] cost highest costs finds small best = (
      highest,
      costs,
      cost,
      refl,
      record {
        least = omega arith;
        which = inl (refl, refl);
        bound = λ d k m e chain. absurd (not-Memᴰ-nil m);
      },
      best,
    )
    highest_loop-Found f (task ∷ tasks) cost highest costs finds small best =
        let later = λ (t : T) (m : Memᴰ t tasks). finds t ((Memᴰ-cons t task tasks).1 (inr m)) in
        elim (Bool-cases (early task)) [
          | inl e ↦
              let (h, costs', c, eq, found, ok) =
                highest_loop-Found f tasks cost highest costs later small best in
              (
                h,
                costs',
                c,
                rw e eq,
                Found-more task tasks cost cost c highest highest h (omega arith) (inl (refl, refl))
                    (λ k e'. absurd (cc (e, e'))) found,
                ok,
              )
          | inr e ↦
              let (c1, costs1, eq1, b1, ok1) =
                finds task ((Memᴰ-cons task task tasks).1 (inl refl)) e costs best in
              let less = less_64_small cost c1 small (IsBest-small task c1 b1) in
              elim (Bool-cases (ltb cost c1)) [
                | inl up ↦
                    let (h, costs', c, eq, found, ok) =
                      highest_loop-Found f tasks c1 (some task) costs1 later
                        (IsBest-small task c1 b1) ok1 in
                    (
                      h,
                      costs',
                      c,
                      rw (e, eq1, less, up) eq,
                      Found-more task tasks cost c1 c highest (some task) h (ground (arith, up))
                          (inr (refl, e, b1)) (λ k e'. b1.above k) found,
                      ok,
                    )
                | inr flat ↦
                    let (h, costs', c, eq, found, ok) =
                      highest_loop-Found f tasks cost highest costs1 later small ok1 in
                    (
                      h,
                      costs',
                      c,
                      rw (e, eq1, less, flat) eq,
                      Found-more task tasks cost cost c highest highest h (omega arith)
                          (inl (refl, refl)) (λ k e' chain. ground (arith, flat, b1.above k chain))
                          found,
                      ok,
                    )
              ]
        ]
