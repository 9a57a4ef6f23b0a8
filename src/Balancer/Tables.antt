-- ===== src/Balancer/Tables.antt =====
-- The tables of loadBalancer/index.js, its commands, and the choice of a pod for a request. A listener is
-- known by the number of its port, and an address that a command leaves out is `none`.
use nodejs_k8s.Prelude.{
  ℕ, zero, suc, ◌+◌, ◌%◌, Bool, true, false, Option, none, some, List, [], ◌∷◌, ◌++◌, Text, text_eq,
  length, drop_last, any, nat_beq, ◌==◌, if◌then◌else◌,
}
use nodejs_k8s.Prelude.Map
use nodejs_k8s.Prelude.Map.{Map}

-- `cur` is not a number once a request has ended while there was no pod
pub record Balancer : Type 0 where
  pub pods : List (Option Text)
  pub cur : Option ℕ
  pub ports : Map Text Text
  pub listeners : List ℕ

abbrev pub same_ip : Option Text → Option Text → Bool
same_ip none none = true
same_ip none (some b) = false
same_ip (some a) none = false
same_ip (some a) (some b) = a == b

-- `pods[n]`
unfoldable pub pod_at : ℕ → List (Option Text) → Option Text
pod_at n [] = none
pod_at zero (p ∷ ps) = p
pod_at (suc n) (p ∷ ps) = pod_at n ps

-- the pod that a request is forwarded to; `none` is printed as "undefined" in the URL
unfoldable pub target : Balancer → Option Text
unfolding pod_at
target b = elim b.cur [ none ↦ none | some n ↦ pod_at n b.pods ]

-- how the forwarding ends: the pod answers, it answers with the status of an error, or it does not answer
pub data Outcome : Type 0 where
  answered refused unanswered : Outcome

-- what the client is told
pub data Told : Type 0 where
  pods_answer unavailable : Told

unfoldable pub advance : Balancer → Balancer
advance b = record b {
  cur = elim b.cur [
    | none ↦ none
    | some n ↦ if nat_beq (length b.pods) 0 then none else some ((n + 1) % length b.pods)
  ];
}

-- a request, and the table after it: an error status of the pod's is passed on, and the handler returns
-- before it moves to the next pod
unfoldable pub handler : Outcome → Balancer → Told × Balancer
unfolding advance
handler answered b = (pods_answer, advance b)
handler refused b = (pods_answer, b)
handler unanswered b = (unavailable, advance b)

-- the pods of requests that follow one another
unfoldable pub serve : List Outcome → Balancer → List (Option Text)
unfolding target handler
serve [] b = []
serve (o ∷ os) b = target b ∷ serve os (handler o b).1

unfoldable pub add_pod : Option Text → Balancer → Balancer
add_pod ip b = if any (λ p. same_ip p ip) b.pods then b else record b { pods = b.pods ++ ip ∷ [] }

-- `findIndex`: `none` is -1
unfoldable pub index_of : Option Text → List (Option Text) → Option ℕ
index_of ip [] = none
index_of ip (p ∷ ps) =
    let rest = index_of ip ps in
    if same_ip p ip then some 0 else elim rest [ none ↦ none | some n ↦ some (suc n) ]

unfoldable pub without_at : ℕ → List (Option Text) → List (Option Text)
without_at n [] = []
without_at zero (p ∷ ps) = ps
without_at (suc n) (p ∷ ps) = p ∷ without_at n ps

-- The test `if (p)` holds of every index but 0, and `splice(-1, 1)` takes the last.
unfoldable pub remove_pod : Option Text → Balancer → Balancer
unfolding index_of without_at
remove_pod ip b = elim (index_of ip b.pods) [
  | none ↦ record b { pods = drop_last b.pods }
  | some n ↦ if nat_beq n 0 then b else record b { pods = without_at n b.pods }
]

-- `port === e.address().port` compares a text and a number.
unfoldable pub is_listening : Text → ℕ → Bool
is_listening port number = false

-- A port comes split at its colon; `number` is what the text in front stands for.
unfoldable pub add_port : (number : Text → ℕ) → Text → List Text → Balancer → Balancer
unfolding is_listening
add_port number port (outer ∷ inner ∷ []) b =
    if any (is_listening port) b.listeners then b else record b {
      ports = Map.set inner outer b.ports;
      listeners = b.listeners ++ number outer ∷ [];
    }
add_port number port [] b = b
add_port number port (outer ∷ []) b = b
add_port number port (outer ∷ inner ∷ more ∷ rest) b = b

-- Where a listener is found, its index is a number, which has no server to close: the call throws, after
-- the port was taken out of the table.
unfoldable pub remove_port : Text → List Text → Balancer → Option Balancer
unfolding is_listening
remove_port port (outer ∷ inner ∷ []) b =
    if any (is_listening port) b.listeners then none else some b
remove_port port [] b = some b
remove_port port (outer ∷ []) b = some b
remove_port port (outer ∷ inner ∷ more ∷ rest) b = some b

-- a line that comes in, by its words; a port that is left out has nothing to split
pub data Command : Type 0 where
  port_add port_remove : Option Text → Command
  pod_add pod_remove : Option Text → Command
  other : Command

-- `none` is the end of the process
unfoldable pub run_command :
    (number : Text → ℕ) → (split : Text → List Text) → Command → Balancer → Option Balancer
unfolding add_port remove_port add_pod remove_pod
run_command number split (port_add none) b = none
run_command number split (port_add (some port)) b = some (add_port number port (split port) b)
run_command number split (port_remove none) b = none
run_command number split (port_remove (some port)) b = remove_port port (split port) b
run_command number split (pod_add ip) b = some (add_pod ip b)
run_command number split (pod_remove ip) b = some (remove_pod ip b)
run_command number split other b = some b
