-- ===== src/Mvcc/Watch.antt =====
-- Watches of store/mvcc.js: `watch`, its `on` and `cancel`, `covers`, `shape` and `publish`.
use nodejs_k8s.Prelude.{
  ℕ, Text, Bool, not, ◌&&◌, ◌||◌, ◌+◌, ◌==◌, none, List, [], ◌∷◌, ◌++◌, map, text_eq, text_ltb, leb,
  ltb, nat_beq, filter, if◌then◌else◌,
}
use nodejs_k8s.Mvcc.Types.{Event, event_key, Watcher, Delivery, Store, Result, ok, err, compacted}
use nodejs_k8s.Mvcc.Read.{nul, is_empty}

unfoldable pub covers : Watcher → Text → Bool
covers w key =
    if is_empty w.range_end
    then key == w.key
    else if w.range_end == nul
    then w.key == nul || not (text_ltb key w.key)
    else (not (text_ltb key w.key) && text_ltb key w.range_end)

unfoldable pub shape : Watcher → Event → Event
shape w event = if w.prev_kv then event else record event { prev_kv = none }

-- the events of a batch that a watcher is told of
unfoldable pub mine : Watcher → List Event → List Event
mine w events = map (shape w) (filter (λ e. covers w (event_key e)) events)

unfoldable pub deliveries : ℕ → List Event → Watcher → List Delivery
deliveries revision events w =
    if is_empty (mine w events)
    then []
    else map
        (λ listener. record {
          watcher = w.id;
          listener = listener;
          events = mine w events;
          revision = revision;
        })
        w.listeners

unfoldable pub all_deliveries : ℕ → List Event → List Watcher → List Delivery
all_deliveries revision events [] = []
all_deliveries revision events (w ∷ ws) =
    deliveries revision events w ++ all_deliveries revision events ws

unfoldable pub publish : List Event → Store → Store
publish events s = record s {
  delivered = s.delivered ++ all_deliveries s.revision events s.watchers;
}

pub record WatchOptions : Type 0 where
  pub range_end : Text
  pub start_revision : ℕ
  pub prev_kv : Bool

pub record WatchReply : Type 0 where
  pub id : ℕ
  pub backlog : List Event

unfoldable pub new_watcher : ℕ → Text → WatchOptions → Watcher
new_watcher id key o = record {
  id = id;
  key = key;
  range_end = o.range_end;
  prev_kv = o.prev_kv;
  listeners = [];
}

unfoldable pub backlog_of : Watcher → ℕ → List Event → List Event
backlog_of w start events =
    if nat_beq start 0
    then []
    else map (shape w) (filter (λ e. leb start e.rev && covers w (event_key e)) events)

unfoldable pub watch : Text → WatchOptions → Store → Result WatchReply × Store
watch key o s =
    if not (nat_beq o.start_revision 0) && ltb o.start_revision s.compact_revision
    then (err compacted, s)
    else (let w = new_watcher s.next_watch_id key o in
        (
          ok (record { id = w.id; backlog = backlog_of w o.start_revision s.events }),
          record s { next_watch_id = s.next_watch_id + 1; watchers = s.watchers ++ w ∷ [] },
        ))

-- the reply's `on(cb)`: the watcher of this id gets one more listener
unfoldable pub on : ℕ → ℕ → Store → Store
on id listener s = record s {
  watchers =
      map
        (λ (w : Watcher).
          if nat_beq w.id id then record w { listeners = w.listeners ++ listener ∷ [] } else w)
        s.watchers;
}

-- the reply's `cancel()`
unfoldable pub cancel : ℕ → Store → Store
cancel id s = record s { watchers = filter (λ (w : Watcher). not (nat_beq w.id id)) s.watchers }
