-- ===== src/Lib.antt =====
-- nodejs-k8s: a Kubernetes API server in JavaScript, with a store of its own that speaks etcd's
-- protocol. A write enters through store/gateway.js or store/index.js, is proposed to the Raft replica
-- of store/node.js, and once a majority of replicas holds it, is applied to the MVCC keyspace. The
-- controllers and the HTTP routes read and watch that keyspace.
--
-- Modelled are the store's two state machines, the files that the replica writes, the node's commands
-- and the loop in which it executes them, the gateway's calls, the scheduler, the endpoints
-- controller, the rollout of deployments, the probes and init containers of pods, the load balancer, and
-- the part of the API that merges, checks, writes, scales, lists and watches resources:
--
--   Prelude   numbers, lists, text and Boolean tests as JavaScript's arrays and strings use them, and
--             Map (Prelude/Map), an association list for the `Map` objects.
--
--   Mvcc      class `Store` of store/mvcc.js. Types is its state; Read is `matchingKeys`, `entryAt`
--             and `range`; Write is `putAt` and `deleteAt`; Compare is `compare`; Batch is
--             `applyWrites`, `rollback` and `applyTxn`; Compact is `applyCompact`; Leases the lease
--             commands; Watch is `watch` and `publish`; Apply is `apply`; Snapshot is `snapshot` and
--             `restore`. The other children prove. A method takes the store and returns it beside a
--             result, which is an error where the source throws; what the store was changed to before
--             the throw is kept. Chains, the event log and the maps are lists in insertion order.
--
--   Raft      class `Raft` of store/raft.js, over class `Wal` of store/wal.js. Types is the state, with
--             what the three files hold; Log the log helpers; Election is `becomeFollower` and
--             `handleVote`; Leading is `startElection`, `becomeLeader`, `appendLocal`, `propose`,
--             `replicate`, `sendSnapshot`, `advanceCommit` and the handling of replies; Following is
--             `handleAppend` and `handleSnapshot`; Progress is `applyCommitted` and the snapshots;
--             Lifecycle is the constructor, `start` and `stop`; Steps makes events of them. The
--             `apply` callback is a parameter, a function that returns a reply and the new state, and
--             a promise that the source settles is listed with its outcome.
--
--   Wal       class `Wal` of store/wal.js over the text of its files. Files is the class: `append`,
--             `read`, `rewrite`, the state and the snapshot, and an append that a crash cuts short;
--             Lines is how the text falls into lines; Recovery and Torn prove. `JSON.stringify` and
--             `JSON.parse` are a parameter, with what is relied on in the record IsJson. The Raft model
--             stands on the lists that Recovery shows the file to be.
--
--   Node      class `StoreNode` of store/node.js: Execute is the loop of `execute`, whose environment says of
--             each attempt whether the node leads, whether it knows the leader, and whether the command
--             was applied and heard of; the loop runs on the number of attempts that the source
--             allows. Commands is `put` to `sweepLeases`, with `encodeOp` and `encodeCompare`. Swaps and
--             Encoding prove.
--
--   Gateway   store/gateway.js: Decode is `rangeArgs`, `decodeOp` and `decodeCompare`; Calls is `route` with
--             the calls behind it, `encodeKv` and `encodeResponse`, over the store that the
--             log's commands come to; a node that leads has applied them, and one that follows answers
--             what it does not send through the log from a store of its own; Streams is `watch`.
--             The other children prove.
--
--   Scheduler the scheduler of controllers/scheduler.js. Types is what it reads of pods and nodes; Usage
--             is `podRequests`, `nodeAllocatable` and `usageByNode`; Filter the filters, up to
--             `filterNodes`; Score is `scoreNode` and the sort; Schedule is `summarise`, `recordEvent`,
--             `setScheduledCondition`, `schedulePod` and `bindPod` over the database's collections, with
--             what is decided on the lists that were read (`decide`) apart from what is done when that
--             is over (`act`). The other children prove. Quantities are doubles, counted in a power of
--             two of which they are whole numbers, and Doubles is their addition; a score is an exact
--             fraction where the source has a double, a label's text is read as a number only if it is
--             plain digits, and `localeCompare` is a parameter.
--
--   Json      JSON values and what middleware/general.js does with them: Members is access to an object's
--             members; Merging is `mergeDeep`; Same is `canonical` and `sameValue`; Patches is
--             `applyJsonPatchToDoc`, and Pointers proves of it. A key that is an index is not told
--             apart from the other keys of an array, but by a JSON patch, where how a token reads
--             as an index is a parameter. Objects have their own members only: a key that
--             JavaScript finds in a prototype, and `__proto__`, are not told apart from others.
--
--   Handlers  the checks of middleware/general.js before a write: Checks is `conflictsOnResourceVersion`,
--             `isDryRun`, `projectedWrite` and `rejectsImmutableChange`; Selectors is `genFindQuery` of
--             objects/object.js with `evaluateExpr` and `matchesQuery`; Watching is the watch in
--             `format`, with `keyFor` of objects/bus.js. The other children prove. What a JSON patch
--             makes of an object is a function in the request (the flattening of what Patches
--             gives into MongoDB's operators is not modelled), a selector comes parsed, and how a
--             template prints a value that is no text is a parameter.
--
--   Objects   the class of objects/object.js over a collection of MongoDB, which is an interface (Types).
--             Writes is `create`, `delete`, `finalizeIfReleased`, `update` and `patch`; Requests is the
--             `update` and `deleteOne` of middleware/general.js over them; Changes is its `patch`, `save`,
--             `getScale` and `setScale`; Paging is `listByReq` and
--             `list` with their tokens, and a client that follows them for a number of pages, for
--             which one more than there are resources is enough; the other children prove. The
--             raw writes that the source falls back to when mongoose refuses a document have the effect
--             of the writes they stand in for, and are not told apart. The printed time, the printed
--             version and the random suffix of a name are arguments.
--
--   Endpoints the endpoints controller of controllers/endpoints.js: Backends is `matches` to `subsetsFor`,
--             `endpointsFor` and `slicePortsFor`; Reconcile is the comparisons, `reconcileSlice` and
--             `reconcileService`, over what stands under one service's name; the other children prove.
--
--   Workloads objects/deployment.js and objects/replicationController.js: Names is `ownedControllers` and
--             `ownedPods`; Rollout is `createPods`, `deletePods` and `rollout`, over a list of pods,
--             where no service has the deployment's name. The random bytes of a name, whether the
--             database takes a new pod, and which pods it finds first are the environment's. The
--             other children prove.
--
--   Pods      objects/pod.js: Probes is `probeHandler`, `runProbe` and the ticks of `scheduleProbes`;
--             InitContainers is `runInitContainers`, the launch, the end of the containers, and
--             `podStatusText`. What a container answers and how it exits is the environment's. The
--             other children prove.
--
--   Balancer  loadBalancer/index.js: Tables is its tables, its commands, and the pod that a request goes to;
--             Rotation proves. Requests follow one another, and whether a pod answers, and with an
--             error status, is given.
--
--   Helpers   functions.js: Duration is `duration` and `age`; Rounding proves.
--
-- Bounds and fuel: numbers are natural numbers, as they are in the commands, save a requested revision,
-- which may be below zero and has a constructor for that. The apply loop runs on the number of entries
-- between the last applied index and the commit index, the node's loop on its number of attempts, a
-- client that pages on a number of pages, a rollout on the number of pods that are desired, of which each
-- round creates one at least, and every other loop is over a list.
--
-- Not modelled: timers, sockets and the file system's calls, which decide when a handler runs or
-- whether a message arrives; base64 and UTF-8, which are parameters with the law that decoding undoes
-- encoding; the listeners of `on` and `emit`, of which the deliveries to watchers alone are listed; docker,
-- express, mongoose and protobuf, which are libraries that the source calls; the schemas of
-- database/models.js and the tables of columns in src/objects, which are data; the nodes controller,
-- the routes, which bind paths to handlers, and the server's start.
pub mod Balancer
pub mod Endpoints
pub mod Gateway
pub mod Handlers
pub mod Helpers
pub mod Json
pub mod Mvcc
pub mod Node
pub mod Objects
pub mod Pods
pub mod Prelude
pub mod Raft
pub mod Scheduler
pub mod Wal
pub mod Workloads
