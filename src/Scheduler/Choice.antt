-- ===== src/Scheduler/Choice.antt =====
-- Which node controllers/scheduler.js chooses: one that passes every filter, with the best score.
use Prim.Native.Nat.{Ordering}
use nodejs_k8s.Prelude.{
  none, List, [], ◌∷◌, map, ◌≡◌, refl, arith, Text, text_eq, All, Among, All-weaken, Option-cases,
  inl, inr, length,
}
use mathlib.Core.Path.{subst}
use nodejs_k8s.Prelude.Sort.{sort, sort-All, sort-All_back}
use nodejs_k8s.Prelude.Map.{Map}
use nodejs_k8s.Scheduler.Types.{Pod, Node}
use nodejs_k8s.Scheduler.Usage.{Used, usage_by_node}
use nodejs_k8s.Scheduler.Filter.{filter_node, filter_nodes}
use nodejs_k8s.Scheduler.Score.{Score, score_node, Candidate, compare_candidates, ranked}
use nodejs_k8s.Scheduler.Schedule.{
  Decision, refuse, choose, feasible_of, reasons_of, first_of, decide_among, decide, summarise,
}
use nodejs_k8s.Scheduler.Ranking.{
  Scored, IsScore-score_node, AtLeast, AtLeast-refl, Leads, best-Leads,
}

module _ (pod : Pod) (usage : Map Text Used) where
  candidate : Node → Candidate
  candidate node = (node, score_node pod usage node)

  Passes : List Node → Node → Type 0
  Passes nodes n = (filter_node pod usage n ≡ none) × Among n nodes

  feasible-Passes :
      (nodes : List Node) → All (Passes nodes) (feasible_of (filter_nodes pod nodes usage))
  unfolding feasible_of filter_nodes Passes
  feasible-Passes [] = tt
  feasible-Passes (n ∷ nodes) =
      let later =
        All-weaken (Passes nodes) (Passes (n ∷ nodes)) (feasible_of (filter_nodes pod nodes usage))
          (λ m h. (h.0, inr h.1)) (feasible-Passes nodes) in
      elim (Option-cases (filter_node pod usage n)) [
        | inl none' ↦ rw (feasible_of, none') ((none', inl refl), later)
        | inr (r, some') ↦ rw (feasible_of, some') later
      ]

  Passes-feasible :
      (P : Node → Type 0) (nodes : List Node)
      → All P (feasible_of (filter_nodes pod nodes usage))
      → All (λ n. filter_node pod usage n ≡ none → P n) nodes
  unfolding feasible_of filter_nodes
  Passes-feasible P [] h = tt
  Passes-feasible P (n ∷ nodes) h = elim (Option-cases (filter_node pod usage n)) [
    | inl none' ↦
        let h' = rw (feasible_of, none') at h in ((λ _. h'.0), Passes-feasible P nodes h'.1)
    | inr (r, some') ↦ (
      (λ e. absurd (ground (arith, e, some'))),
      Passes-feasible P nodes (rw (feasible_of, some') at h),
    )
  ]

  ranked-candidates :
      (P : Node → Type 0) (ns : List Node)
      → All P ns
      → All (λ (c : Candidate). P c.0 × (c.1 ≡ score_node pod usage c.0)) (map candidate ns)
  unfolding candidate
  ranked-candidates P [] h = tt
  ranked-candidates P (n ∷ ns) (p, ps) = ((p, refl), ranked-candidates P ns ps)

  unmap :
      (P : Node → Score → Type 0) (ns : List Node)
      → All (λ (c : Candidate). P c.0 c.1) (map candidate ns)
      → All (λ n. P n (score_node pod usage n)) ns
  unfolding candidate
  unmap P [] h = tt
  unmap P (n ∷ ns) (p, ps) = (p, unmap P ns ps)

  All-Scored : (ns : List Node) → All Scored (map candidate ns)
  unfolding candidate
  All-Scored [] = tt
  All-Scored (n ∷ ns) = (IsScore-score_node pod usage n, All-Scored ns)

-- what makes a node the right one for a pod
pub record IsBest (pod : Pod) (nodes : List Node) (usage : Map Text Used) (n : Node) : Type 0 where
  pub there : Among n nodes
  pub passes : filter_node pod usage n ≡ none
  pub best :
      All
        (λ m.
          filter_node pod usage m ≡ none
          → AtLeast (score_node pod usage n) (score_node pod usage m))
        nodes

module _ (pod : Pod) (nodes : List Node) (usage : Map Text Used) where
  survivors : List Node
  survivors = feasible_of (filter_nodes pod nodes usage)

  Fair : Candidate → Type 0
  Fair c = Passes pod usage nodes c.0 × (c.1 ≡ score_node pod usage c.0)

  head-IsBest :
      (sorted : List Candidate) (n : Node)
      → All Fair sorted
      → Leads sorted
      → ((P : Candidate → Type 0) → All P sorted → All P (map (candidate pod usage) survivors))
      → first_of sorted ≡ choose n
      → IsBest pod nodes usage n
  unfolding first_of Fair Passes Leads survivors
  head-IsBest [] n fairs leads back h = absurd (ground (arith, h))
  head-IsBest ((m, s) ∷ rest) n (((ok, there), score), fairs) leads back h =
      let same : m ≡ n = ground (arith, h) in
      let least : All (λ (c : Candidate). AtLeast s c.1) ((m, s) ∷ rest) =
        (AtLeast-refl s, leads) in
      let others =
        Passes-feasible pod usage (λ k. AtLeast s (score_node pod usage k)) nodes
          (unmap pod usage (λ k t. AtLeast s t) survivors
            (back (λ (c : Candidate). AtLeast s c.1) least)) in
      subst (IsBest pod nodes usage) same (record {
        there = there;
        passes = ok;
        best =
            subst
              (λ t.
                All (λ k. filter_node pod usage k ≡ none → AtLeast t (score_node pod usage k))
                  nodes)
              score others;
      })

module _ (locale_compare : Text → Text → Ordering) (pod : Pod) (pods : List Pod) where
  among-first_of :
      (nodes fs : List Node) (n : Node)
      → (let out : Decision = elim fs [
        | [] ↦
            refuse
              (summarise (reasons_of (filter_nodes pod nodes (usage_by_node pods))) (length nodes))
        | node ∷ others ↦ first_of (ranked locale_compare pod (usage_by_node pods) (node ∷ others))
      ] in
          out)
        ≡ choose n
      → first_of (ranked locale_compare pod (usage_by_node pods) fs) ≡ choose n
  among-first_of nodes [] n h = absurd (ground (arith, h))
  among-first_of nodes (f ∷ fs) n h = h

  decide-among :
      (nodes : List Node) (n : Node)
      → decide locale_compare pod nodes pods ≡ choose n
      → decide_among locale_compare pod nodes pods ≡ choose n
  unfolding decide
  decide-among [] n h = absurd (ground (arith, h))
  decide-among (m ∷ ms) n h = ground (arith, h)

  -- A node that the scheduler chooses is one of the nodes, passes every filter with the use that the
  -- pods make of the nodes, and no node that passes them has a better score.
  pub decide-IsBest :
      (nodes : List Node) (n : Node)
      → decide locale_compare pod nodes pods ≡ choose n
      → IsBest pod nodes (usage_by_node pods) n
  unfolding decide_among ranked survivors candidate Fair Passes
  decide-IsBest nodes n h =
      let usage = usage_by_node pods in
      let ns = survivors pod nodes usage in
      let cmp = compare_candidates locale_compare in
      head-IsBest pod nodes usage (sort cmp (map (candidate pod usage) ns)) n
        (sort-All cmp (Fair pod nodes usage) (map (candidate pod usage) ns) (
          ranked-candidates pod usage (Passes pod usage nodes) ns
            (feasible-Passes pod usage nodes)))
        (best-Leads locale_compare (map (candidate pod usage) ns) (All-Scored pod usage ns))
        (λ P. sort-All_back cmp P (map (candidate pod usage) ns))
        (among-first_of nodes ns n (decide-among nodes n h))
