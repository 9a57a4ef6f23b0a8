-- ===== src/Handlers/Resuming.antt =====
-- What a watch of middleware/general.js that resumes from a version sends.
use nodejs_k8s.Prelude.{
  ◌<◌, arith, ℕ, true, not, Option, some, List, [], ◌∷◌, ◌++◌, ◌≡◌, Text, text_eq, ◌==◌, any, every,
  filter, All, All-append, Bool-cases, inl, inr,
}
use nodejs_k8s.Prelude.Map.{Map}
use nodejs_k8s.Json.Value.{Json}
use nodejs_k8s.Handlers.Selectors.{Condition, matches_query}
use nodejs_k8s.Handlers.Watching.{
  Change, added, modified, deleted, Frame, BusEvent, on_created, on_updated, on_deleted, on_listed,
  Watch, version_of, resume_from, is_above, is_newer, key_for, has_seen, see, push, handle,
  handle_all, open_watch,
}

-- a deletion, or an object whose version is no number or above `resume`
unfoldable pub IsNews : ℕ → Frame → Type 0
IsNews resume (deleted, obj) = Unit
IsNews resume (change, obj) = (version : ℕ) → version_of obj ≡ some version → resume < version

module _ (print : Json → Text) (scope : Map Text Condition) (resume : ℕ) where
  -- what holds of the watch at every step
  record IsResumed (w : Watch) : Type 0 where
    at : w.resume ≡ some resume
    news : All (IsNews resume) w.sent

  push-IsResumed :
      (change : Change) (obj : Json) (seen : List Text) (w : Watch)
      → IsNews resume (change, obj)
      → IsResumed w
      → IsResumed (push print scope change obj (record w { seen = seen }))
  unfolding push
  push-IsResumed change obj seen w new r = elim (Bool-cases (matches_query print obj scope)) [
    | inl yes' ↦ rw yes' (record {
      at = r.at;
      news = All-append (IsNews resume) w.sent ((change, obj) ∷ []) r.news (new, tt);
    })
    | inr no' ↦ rw no' (record { at = r.at; news = r.news })
  ]

  newer-above :
      (w : Watch) (obj : Json)
      → IsResumed w
      → is_newer w.resume obj ≡ true
      → (version : ℕ) → version_of obj ≡ some version
      → resume < version
  unfolding is_newer is_above
  newer-above w obj r h version there =
      let above : is_above (version_of obj) resume ≡ true = rw r.at at h in
      let above' : is_above (some version) resume ≡ true = rw there at above in
      ground (arith, above')

  handle-IsResumed : (e : BusEvent) (w : Watch) → IsResumed w → IsResumed (handle print scope e w)
  unfolding handle IsNews any every
  handle-IsResumed (on_created obj) w r = elim (Bool-cases (has_seen (key_for obj) w.seen)) [
    | inl known ↦ rw (handle, known) r
    | inr fresh ↦ elim (Bool-cases (is_newer w.resume obj)) [
      | inl newer ↦
          rw (handle, fresh, newer)
            (push-IsResumed added obj (w.seen ++ key_for obj ∷ []) w (newer-above w obj r newer) r)
      | inr old ↦ rw (handle, fresh, old) r
    ]
  ]
  handle-IsResumed (on_updated obj) w r = elim (Bool-cases (is_newer w.resume obj)) [
    | inl newer ↦
        rw (handle, newer)
          (push-IsResumed modified obj (see (key_for obj) w.seen) w (newer-above w obj r newer) r)
    | inr old ↦ rw (handle, old) r
  ]
  handle-IsResumed (on_deleted obj) w r =
      push-IsResumed deleted obj (filter (λ k. not (k == key_for obj)) w.seen) w tt r
  handle-IsResumed (on_listed objs) w r = rw (handle, r.at) r

  handle_all-IsResumed :
      (es : List BusEvent) (w : Watch) → IsResumed w → IsResumed (handle_all print scope es w)
  unfolding handle_all
  handle_all-IsResumed [] w r = r
  handle_all-IsResumed (e ∷ es) w r =
      handle_all-IsResumed es (handle print scope e w) (handle-IsResumed e w r)

  -- Whatever events come, a watch that resumes from a version sends only deletions and objects whose
  -- version is no number or is above the one that it resumes from.
  pub handle_all-IsNews :
      (asked : Option Text) (es : List BusEvent)
      → resume_from asked ≡ some resume
      → All (IsNews resume) (handle_all print scope es (open_watch asked)).sent
  unfolding open_watch
  handle_all-IsNews asked es h =
      let r = handle_all-IsResumed es (open_watch asked) (record { at = h; news = tt }) in r.news
