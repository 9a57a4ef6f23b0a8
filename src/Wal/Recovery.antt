-- ===== src/Wal/Recovery.antt =====
-- What a read of the log of store/wal.js gives after appends and rewrites, and after a crash in one.
use nodejs_k8s.Prelude.{
  List, [], ◌∷◌, ◌++◌, append_assoc, append-nil, ◌≡◌, ◌∙◌, refl, sym, ap, arith, nat_eq,
}
use nodejs_k8s.Wal.Files.{
  Json, IsJson, WalFiles, text_of, split_lines, payload, read_lines, read_log, append_entries,
  rewrite_log,
}
use nodejs_k8s.Wal.Lines.{payload-cons, read_lines-payload}

-- a change to the log file that returns
pub data LogWrite (A : Type 0) : Type 0 where
  append rewrite : List A → LogWrite A

module _ {A : Type 0} (json : Json A) where
  unfoldable pub write : LogWrite A → WalFiles → WalFiles
  write (append entries) w = append_entries json entries w
  write (rewrite entries) w = rewrite_log json entries w

  unfoldable pub write_all : List (LogWrite A) → WalFiles → WalFiles
  write_all [] w = w
  write_all (op ∷ ops) w = write_all ops (write op w)

  -- the entries that a log has after the writes, as a list
  unfoldable pub entries_of : List (LogWrite A) → List A → List A
  entries_of [] old = old
  entries_of (append entries ∷ ops) old = entries_of ops (old ++ entries)
  entries_of (rewrite entries ∷ ops) old = entries_of ops entries

  -- the file holds these entries, each on a line that was written to its end
  unfoldable pub IsWhole : List A → WalFiles → Type 0
  IsWhole entries w = text_of w.log_file ≡ payload json entries

module _ {A : Type 0} (json : Json A) (law : IsJson json) where
  payload-append :
      (old new : List A) → payload json (old ++ new) ≡ payload json old ++ payload json new
  payload-append [] new = unfold payload in refl
  payload-append (a ∷ old) new =
      payload-cons json law a (old ++ new)
      ∙ ap (λ t. json.stringify a ++ 10 ∷ t) (payload-append old new)
      ∙ sym (append_assoc (json.stringify a) (10 ∷ payload json old) (payload json new))
      ∙ ap (λ t. t ++ payload json new) (sym (payload-cons json law a old))

  write-IsWhole :
      (op : LogWrite A) (old : List A) (w : WalFiles)
      → IsWhole json old w
      → IsWhole json (entries_of json (op ∷ []) old) (write json op w)
  unfolding IsWhole write entries_of append_entries rewrite_log text_of
  write-IsWhole (append []) old w h = h ∙ ap (payload json) (sym (append-nil old))
  write-IsWhole (append (a ∷ new)) old w h =
      ap (λ t. t ++ payload json (a ∷ new)) h ∙ sym (payload-append old (a ∷ new))
  write-IsWhole (rewrite new) old w h = refl

  read_lines-whole :
      (entries : List A) → read_lines json (split_lines (payload json entries)) ≡ entries
  unfolding split_lines read_lines
  read_lines-whole entries =
      ap (λ t. read_lines json (split_lines t)) (sym (append-nil (payload json entries)))
      ∙ read_lines-payload json law entries []
      ∙ append-nil entries

  pub read_log-text :
      (w : WalFiles) → read_log json w ≡ read_lines json (split_lines (text_of w.log_file))
  unfolding read_log text_of split_lines read_lines
  read_log-text w = ground arith

  entries_of-cons :
      (op : LogWrite A) (ops : List (LogWrite A)) (old : List A)
      → entries_of json (op ∷ ops) old ≡ entries_of json ops (entries_of json (op ∷ []) old)
  unfolding entries_of
  entries_of-cons (append es) ops old = refl
  entries_of-cons (rewrite es) ops old = refl

  -- A log file whose lines are whole behaves as a list: after any sequence of appends and rewrites, a
  -- read gives what the same sequence makes of the list of its entries, if JSON is as IsJson says.
  pub read_log-write_all :
      (ops : List (LogWrite A)) (old : List A) (w : WalFiles)
      → IsWhole json old w
      → read_log json (write_all json ops w) ≡ entries_of json ops old
  unfolding write_all IsWhole entries_of
  read_log-write_all [] old w h =
      read_log-text w ∙ ap (λ t. read_lines json (split_lines t)) h ∙ read_lines-whole old
  read_log-write_all (op ∷ ops) old w h =
      read_log-write_all ops (entries_of json (op ∷ []) old) (write json op w)
        (write-IsWhole op old w h)
      ∙ sym (entries_of-cons op ops old)
