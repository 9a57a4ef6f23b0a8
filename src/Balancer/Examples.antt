-- ===== src/Balancer/Examples.antt =====
-- A table of two pods.
use nodejs_k8s.Prelude.{some, Option, List, [], ◌∷◌, filter, ◌++◌, Text, any, ◌≡◌, refl}
use nodejs_k8s.Balancer.Tables.{
  Balancer, Outcome, answered, refused, unanswered, target, serve, index_of, add_pod, remove_pod,
  run_command, pod_remove,
}
use nodejs_k8s.Balancer.Rotation.{passes_on, moving, serve-rotation}

abbrev first : Option Text
first = some (49 ∷ [])

abbrev second : Option Text
second = some (50 ∷ [])

abbrev third : Option Text
third = some (51 ∷ [])

-- the next request goes to the second pod
abbrev table : Balancer
table = record { pods = first ∷ second ∷ []; cur = some 1; ports = []; listeners = [] }

target_second : target table ≡ second
unfolding target
target_second = refl

adds_once : add_pod second (add_pod third table) ≡ add_pod third table
unfolding add_pod any
adds_once = refl

removes :
    run_command (λ t. 0) (λ t. t ∷ []) (pod_remove second) table
    ≡ some (record table { pods = first ∷ [] })
unfolding run_command remove_pod index_of
removes = refl

-- the second pod answers with an error status at first
abbrev outcomes : List Outcome
outcomes = refused ∷ unanswered ∷ answered ∷ []

serve-rotation_example :
    (moving outcomes (serve outcomes table) ≡ second ∷ [] ++ first ∷ [])
    × (serve (refused ∷ outcomes) table ≡ second ∷ serve outcomes table)
unfolding filter
serve-rotation_example =
    serve-rotation outcomes table (first ∷ []) [] second refl refl (unfold passes_on in refl)
