-- ===== src/Endpoints/Backends.antt =====
-- Which pods a service points at, in the two shapes that controllers/endpoints.js keeps: `matches`,
-- `isReady`, `resolvePort`, `subsetsFor`, `endpointsFor` and `slicePortsFor`. Text that is missing where the
-- source tests it for truth is empty.
use nodejs_k8s.Prelude.{
  ℕ, Bool, true, false, not, ◌&&◌, Option, none, some, List, [], ◌∷◌, map, Text, text_eq, ◌==◌,
  filter, find, if◌then◌else◌,
}
use nodejs_k8s.Prelude.Map
use nodejs_k8s.Prelude.Map.{Map}
use nodejs_k8s.Scheduler.Filter.{matches_selector, number_of}

pub record ContainerPort : Type 0 where
  pub name : Text
  pub container_port : ℕ

pub record Pod : Type 0 where
  pub namespace : Text
  pub name : Text
  pub uid : Text
  pub labels : Map Text Text
  pub ip : Text
  pub node_name : Text
  pub is_running : Bool
  pub conditions : List (Text × Text)
  pub is_terminating : Bool
  pub ports : List ContainerPort

pub data Target : Type 0 where
  port_number : ℕ → Target
  port_name : Text → Target

pub record ServicePort : Type 0 where
  pub name : Text
  pub port : ℕ
  pub target : Option Target
  pub protocol : Text
  pub app_protocol : Text

pub record Service : Type 0 where
  pub namespace : Text
  pub name : Text
  pub selector : Map Text Text
  pub ports : List ServicePort

abbrev ready_text : Text
ready_text = b'R' ∷ b'e' ∷ b'a' ∷ b'd' ∷ b'y' ∷ []

abbrev true_text : Text
true_text = b'T' ∷ b'r' ∷ b'u' ∷ b'e' ∷ []

-- the status of the first condition of that type
unfoldable pub is_ready : Pod → Bool
is_ready pod =
    pod.is_running && elim (find (λ (c : Text × Text). c.0 == ready_text) pod.conditions) [
      | none ↦ false
      | some c ↦ c.1 == true_text
    ]

-- the pods of a service that have an address
unfoldable pub is_backend : Service → Pod → Bool
is_backend service pod = matches_selector pod.labels service.selector && not (pod.ip == [])

unfoldable pub port_named : Text → ℕ → List ContainerPort → ℕ
port_named name default [] = default
port_named name default (p ∷ ps) =
    let rest = port_named name default ps in if p.name == name then p.container_port else rest

unfoldable pub is_empty_text : Text → Bool
is_empty_text [] = true
is_empty_text (c ∷ cs) = false

-- a name of digits alone is a number
unfoldable pub resolve_name : Text → ℕ → List ContainerPort → ℕ
unfolding port_named is_empty_text
resolve_name name default ports =
    if is_empty_text name
    then port_named name default ports
    else elim (number_of (some name)) [ none ↦ port_named name default ports | some n ↦ n ]

-- the container ports of the pod, none where there is no pod
unfoldable pub resolve_port : ServicePort → List ContainerPort → ℕ
unfolding resolve_name
resolve_port p ports = elim p.target [
  | none ↦ p.port
  | some target ↦ elim target [
    | port_number n ↦ n
    | port_name name ↦ resolve_name name p.port ports
  ]
]

pub record Address : Type 0 where
  pub ip : Text
  pub node_name : Text
  pub namespace : Text
  pub name : Text
  pub uid : Text

unfoldable pub address_for : Pod → Address
address_for pod = record {
  ip = pod.ip;
  node_name = pod.node_name;
  namespace = pod.namespace;
  name = pod.name;
  uid = pod.uid;
}

abbrev tcp : Text
tcp = b'T' ∷ b'C' ∷ b'P' ∷ []

pub record Port : Type 0 where
  pub name : Text
  pub port : ℕ
  pub protocol : Text

unfoldable pub port_for : List ContainerPort → ServicePort → Port
unfolding resolve_port
port_for ports p = record {
  name = p.name;
  port = resolve_port p ports;
  protocol = if p.protocol == [] then tcp else p.protocol;
}

pub record Subset : Type 0 where
  pub addresses : List Address
  pub not_ready_addresses : List Address
  pub ports : List Port

unfoldable pub subsets_of : List ServicePort → List Pod → List Subset
unfolding address_for port_for is_ready
subsets_of ports [] = []
subsets_of ports (first ∷ others) =
    let selected = first ∷ others in
    record {
      addresses = map address_for (filter is_ready selected);
      not_ready_addresses = map address_for (filter (λ pod. not (is_ready pod)) selected);
      ports = map (port_for first.ports) ports;
    }
    ∷ []

unfoldable pub subsets_for : Service → List Pod → List Subset
unfolding subsets_of is_backend
subsets_for service pods = elim service.selector [
  | [] ↦ []
  | requirement ∷ requirements ↦ subsets_of service.ports (filter (is_backend service) pods)
]

pub record Endpoint : Type 0 where
  pub address : Address
  pub ready : Bool
  pub serving : Bool
  pub terminating : Bool
  pub zone : Option Text

unfoldable pub endpoint_for : Map Text Text → Pod → Endpoint
unfolding address_for is_ready
endpoint_for zones pod = record {
  address = address_for pod;
  ready = is_ready pod;
  serving = is_ready pod;
  terminating = pod.is_terminating;
  zone = Map.get pod.node_name zones;
}

unfoldable pub endpoints_for : Service → List Pod → Map Text Text → List Endpoint
unfolding endpoint_for is_backend
endpoints_for service pods zones = map (endpoint_for zones) (filter (is_backend service) pods)

unfoldable pub sample_ports : Option Pod → List ContainerPort
sample_ports none = []
sample_ports (some pod) = pod.ports

pub record SlicePort : Type 0 where
  pub port : Port
  pub app_protocol : Text

unfoldable pub slice_port_for : List ContainerPort → ServicePort → SlicePort
unfolding port_for
slice_port_for ports p = record { port = port_for ports p; app_protocol = p.app_protocol }

unfoldable pub slice_ports_for : Service → List Pod → List SlicePort
unfolding slice_port_for sample_ports is_backend
slice_ports_for service pods =
    map (slice_port_for (sample_ports (find (is_backend service) pods))) service.ports
