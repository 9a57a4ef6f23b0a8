-- ===== src/Mvcc/Watches.antt =====
-- What watchers are told: a watch that resumes from a revision, and the batches that follow it.
use nodejs_k8s.Prelude.{
  nat_eq, text_eq, ℕ, ◌+◌, ◌≤◌, ◌<◌, Text, Bool, ◌&&◌, List, [], ◌∷◌, ◌++◌, ◌≡◌, ◌∙◌, inl, inr, ap,
  sym, refl, arith, length, drop, filter, leb, ltb, append-nil, filter-append,
}
use mathlib.Core.List.{map-append}
use nodejs_k8s.Mvcc.Types.{Codec, Event, event_key, Watcher, Store, Result, ok, err}
use nodejs_k8s.Mvcc.Watch.{
  covers, shape, mine, deliveries, all_deliveries, backlog_of, watch, WatchOptions, new_watcher,
}
use nodejs_k8s.Mvcc.Batch.{Op, Response, run_ops, commit, rollback, finish_writes, apply_writes}
use nodejs_k8s.Mvcc.Compact.{compacted_store}
use nodejs_k8s.Mvcc.Grows.{Grows, AreStamped, run_ops-Grows}
use nodejs_k8s.Mvcc.Preserve.{quiet-SameView, commit-cases}
use nodejs_k8s.Mvcc.Atomicity.{SameView, rollback-SameView}

all_deliveries-nil : (rev : ℕ) (ws : List Watcher) → all_deliveries rev [] ws ≡ []
unfolding all_deliveries deliveries mine filter
all_deliveries-nil rev [] = refl
all_deliveries-nil rev (w ∷ ws) = all_deliveries-nil rev ws

-- events at or after `start` are all wanted by a watch from `start`
filter-fresh :
    (w : Watcher) (start rev : ℕ) (es : List Event)
    → start ≤ rev
    → AreStamped rev es
    → filter (λ e. leb start e.rev && covers w (event_key e)) es
      ≡ filter (λ e. covers w (event_key e)) es
unfolding filter
filter-fresh w start rev [] le st = refl
filter-fresh w start rev (e ∷ es) le st = ground (arith, st.0, filter-fresh w start rev es le st.1)

backlog_of-append :
    (w : Watcher) (start rev : ℕ) (old news : List Event)
    → 0 < start
    → start ≤ rev
    → AreStamped rev news
    → backlog_of w start (old ++ news) ≡ backlog_of w start old ++ mine w news
unfolding backlog_of mine
backlog_of-append w start rev old news pos le st =
    let test = λ (e : Event). leb start e.rev && covers w (event_key e) in
    let all = filter (λ (e : Event). covers w (event_key e)) in
    ground (
      arith,
      filter-append test old news,
      filter-fresh w start rev news le st,
      map-append (shape w) (filter test old) (all news),
    )

-- What a batch that has ended tells whom: `news` is what it added to the log.
pub record Tells (s t : Store) : Type 0 where
  pub news : List Event
  pub events : t.events ≡ s.events ++ news
  pub delivered : t.delivered ≡ s.delivered ++ all_deliveries t.revision news s.watchers
  pub resumed :
      (w : Watcher) (start : ℕ)
      → 0 < start
      → start ≤ s.revision + 1
      → backlog_of w start t.events ≡ backlog_of w start s.events ++ mine w news

-- a store in which nothing visible has changed tells nobody anything
SameView-Tells : (s t : Store) → SameView t s → Tells s t
SameView-Tells s t same = record {
  news = [];
  events = same.events ∙ sym (append-nil s.events);
  delivered =
      same.delivered
      ∙ sym (
          ap (λ xs. s.delivered ++ xs) (all_deliveries-nil t.revision s.watchers)
          ∙ append-nil s.delivered);
  resumed = λ w start pos le.
      ap (backlog_of w start) same.events
      ∙ sym (append-nil (backlog_of w start s.events))
      ∙ ap (λ xs. backlog_of w start s.events ++ xs) (unfold mine filter in refl);
}

module _ (s t : Store) (g : Grows (s.revision + 1) s t) where
  loud-Tells : Tells s (record t {
    revision = s.revision + 1;
    delivered = t.delivered ++ all_deliveries (s.revision + 1) g.news t.watchers;
  })
  loud-Tells = record {
    news = g.news;
    events = g.events;
    delivered = ground (arith, g.delivered, g.watchers);
    resumed = λ w start pos le.
        ap (backlog_of w start) g.events
        ∙ backlog_of-append w start (s.revision + 1) s.events g.news pos le g.news_stamped;
  }

  commit-Tells : Tells s (commit (s.revision + 1) (drop (length s.events) t.events) t)
  commit-Tells = elim (commit-cases s t g) [
    | inl (same, quiet) ↦ rw same (SameView-Tells s t (quiet-SameView s t g quiet))
    | inr (committed, loud) ↦ rw committed loud-Tells
  ]

-- Whether a batch commits or throws, what it adds to the event log is what it tells: each listener of
-- each watcher is called with the new events that its watcher covers, if there are any; and a watch
-- opened after the batch, from any revision up to the batch's own, replays what the same watch opened
-- before the batch would have replayed, followed by what it would then have been told.
pub apply_writes-Tells : (c : Codec) (ops : List Op) (s : Store) → Tells s (apply_writes c ops s).1
unfolding apply_writes finish_writes
apply_writes-Tells c ops s =
    finish (run_ops c (s.revision + 1) ops s) (run_ops-Grows c (s.revision + 1) ops s)
  where
    finish :
        (r : Result (List Response) × Store)
        → Grows (s.revision + 1) s r.1
        → Tells s (finish_writes (length s.events) (s.revision + 1) r).1
    finish (ok rs, t) g = commit-Tells s t g
    finish (err e, t) g =
        SameView-Tells s (rollback (length s.events) (s.revision + 1) t)
          (rollback-SameView (s.revision + 1) s t g)

filter-compacted :
    (w : Watcher) (target : ℕ) (es : List Event)
    → filter
        (λ e. leb target e.rev && covers w (event_key e))
        (filter (λ (e : Event). ltb target e.rev) es)
      ≡ filter (λ e. leb (target + 1) e.rev && covers w (event_key e)) es
unfolding filter
filter-compacted w target [] = refl
filter-compacted w target (e ∷ es) = ground (arith, filter-compacted w target es)

abbrev pub from : Text → Bool → ℕ → WatchOptions
from range_end prev_kv start = record {
  range_end = range_end;
  start_revision = start;
  prev_kv = prev_kv;
}

-- After a compaction at `target` a watch from `target` itself is still accepted, but the events of that
-- revision are gone: its backlog is that of a watch from the next revision before the compaction.
watch_at_compacted :
    (target : ℕ) (s : Store) (key range_end : Text) (prev_kv : Bool)
    → 0 < target
    → let w = new_watcher s.next_watch_id key (from range_end prev_kv target) in
      (watch key (from range_end prev_kv target) (compacted_store target s)).0
      ≡ ok (record { id = s.next_watch_id; backlog = backlog_of w (target + 1) s.events })
unfolding watch backlog_of compacted_store new_watcher
watch_at_compacted target s key range_end prev_kv pos =
    let w = new_watcher s.next_watch_id key (from range_end prev_kv target) in
    ground (arith, filter-compacted w target s.events)
