-- ===== src/Gateway/Examples.antt =====
-- A client of the gateway at an empty store.
use nodejs_k8s.Prelude.{◌+◌, ◌-◌, [], map, ◌≡◌, refl, true, false, Text}
use nodejs_k8s.Prelude.Map
use nodejs_k8s.Mvcc.Types.{Bytes, Codec, Store}
use nodejs_k8s.Gateway.Calls.{Site, failed, route, no_json, fail}

-- a codec that shifts each byte up, and back
abbrev shifting : Codec
shifting = record { to_base64 = map (λ b. b + 1); from_base64 = map (λ b. b - 1); to_text = λ b. b }

abbrev bytes_of : Text → Bytes
bytes_of t = t

abbrev nothing : Store
nothing = record {
  revision = 0;
  compact_revision = 0;
  keys = [];
  events = [];
  leases = [];
  watchers = [];
  next_watch_id = 1;
  delivered = [];
}

abbrev site : Site
site = record { now = 1000; term = 1; index = 1; is_leader = true; applied = λ s. s }

bad_body : (route shifting bytes_of site no_json nothing).0 ≡ failed 400 3
unfolding route fail
bad_body = refl

-- a node that follows, and has applied nothing
abbrev follower : Site
follower = record { now = 1000; term = 1; index = 1; is_leader = false; applied = λ s. nothing }
