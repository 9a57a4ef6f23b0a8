-- ===== src/Scheduler/Refusals.antt =====
-- What controllers/scheduler.js says of a pod it could place nowhere.
use Prim.Native.Nat.{Ordering}
use nodejs_k8s.Prelude.{
  ℕ, ◌+◌, List, [], ◌∷◌, ◌≡◌, ◌≢◌, refl, sym, arith, length, Bool-cases, Option-cases, inl, inr,
}
use nodejs_k8s.Prelude.Map.{Map}
use nodejs_k8s.Prelude.{Text}
use nodejs_k8s.Scheduler.Types.{Reason, Summary, Pod, Node}
use nodejs_k8s.Scheduler.Usage.{Used, usage_by_node}
use nodejs_k8s.Scheduler.Filter.{filter_node, filter_nodes}
use nodejs_k8s.Scheduler.Score.{Candidate, ranked}
use nodejs_k8s.Scheduler.Schedule.{
  Decision, refuse, same_reason, count_reason, count_reasons, summarise, feasible_of, reasons_of,
  first_of, decide_among, decide,
}

-- the sum of the counts
unfoldable counted : List (Reason × ℕ) → ℕ
counted [] = 0
counted ((reason, n) ∷ counts) = n + counted counts

counted-count_reason :
    (reason : Reason) (counts : List (Reason × ℕ))
    → counted (count_reason reason counts) ≡ counted counts + 1
unfolding counted count_reason
counted-count_reason reason [] = refl
counted-count_reason reason ((r, n) ∷ counts) = elim (Bool-cases (same_reason r reason)) [
  | inl yes' ↦ ground (arith, yes')
  | inr no' ↦ ground (arith, no', counted-count_reason reason counts)
]

counted-count_reasons :
    (reasons : List Reason) (counts : List (Reason × ℕ))
    → counted (count_reasons reasons counts) ≡ counted counts + length reasons
unfolding count_reasons
counted-count_reasons [] counts = ground arith
counted-count_reasons (reason ∷ reasons) counts = ground (
  arith,
  counted-count_reasons reasons (count_reason reason counts),
  counted-count_reason reason counts,
)

all-refused :
    (pod : Pod) (usage : Map Text Used) (nodes : List Node)
    → feasible_of (filter_nodes pod nodes usage) ≡ []
    → length (reasons_of (filter_nodes pod nodes usage)) ≡ length nodes
unfolding feasible_of reasons_of filter_nodes
all-refused pod usage [] h = refl
all-refused pod usage (node ∷ nodes) h = elim (Option-cases (filter_node pod usage node)) [
  | inl none' ↦ absurd (ground (arith, h, none'))
  | inr (reason, some') ↦
      let rest = all-refused pod usage nodes (ground (arith, h, some')) in
      ground (arith, some', rest)
]

module _ (locale_compare : Text → Text → Ordering) (pod : Pod) (summary : Summary) where
  first_of-refuse : (candidates : List Candidate) → first_of candidates ≢ refuse summary
  unfolding first_of
  first_of-refuse [] h = absurd (ground (arith, h))
  first_of-refuse (candidate ∷ candidates) h = absurd (ground (arith, h))

  refused-among :
      (nodes fs : List Node) (usage : Map Text Used)
      → (let out : Decision = elim fs [
        | [] ↦ refuse (summarise (reasons_of (filter_nodes pod nodes usage)) (length nodes))
        | node ∷ others ↦ first_of (ranked locale_compare pod usage (node ∷ others))
      ] in
          out)
        ≡ refuse summary
      → (fs ≡ [])
        × (refuse (summarise (reasons_of (filter_nodes pod nodes usage)) (length nodes))
            ≡ refuse summary)
  refused-among nodes [] usage h = (refl, h)
  refused-among nodes (f ∷ fs) usage h =
      absurd (first_of-refuse (ranked locale_compare pod usage (f ∷ fs)) h)

  refused :
      (nodes : List Node) (pods : List Pod)
      → decide locale_compare pod nodes pods ≡ refuse summary
      → decide_among locale_compare pod nodes pods ≡ refuse summary
  unfolding decide
  refused [] pods h = absurd (ground (arith, h))
  refused (node ∷ nodes) pods h = ground (arith, h)

  -- If a pod is refused, every node was: the number of nodes in the message is that of the cluster, and
  -- the counts of the reasons add up to it.
  decide-refuse :
      (nodes : List Node) (pods : List Pod)
      → decide locale_compare pod nodes pods ≡ refuse summary
      → (summary.total ≡ length nodes) × (counted summary.counts ≡ length nodes)
  unfolding decide_among summarise counted
  decide-refuse nodes pods h =
      let usage = usage_by_node pods in
      let reasons = reasons_of (filter_nodes pod nodes usage) in
      let (none', same) =
        refused-among nodes (feasible_of (filter_nodes pod nodes usage)) usage
          (refused nodes pods h) in
      let all = all-refused pod usage nodes none' in
      let sums = counted-count_reasons reasons [] in
      let total : length nodes ≡ summary.total = ground (arith, same) in
      let counts : count_reasons reasons [] ≡ summary.counts = ground (arith, same) in
      (sym total, rw (← counts) (omega (arith, sums, all)))
