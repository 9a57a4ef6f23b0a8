-- ===== src/Wal/Files.antt =====
-- Class `Wal` of store/wal.js over the text of its three files. A file that is not there is `none`, and
-- a read that throws gives the default. `writeFileSynced` replaces a file as one step, by a rename;
-- `append` does not, so that a crash may leave any part of what it writes (`torn_append`).
-- `JSON.stringify` and `JSON.parse` are a parameter.
use nodejs_k8s.Prelude.{
  ℕ, Option, none, some, List, [], ◌∷◌, ◌++◌, ◌≡◌, ◌≢◌, ◌<◌, Text, length, take, All, nat_beq,
  if◌then◌else◌,
}

-- JSON text of one type of values; `none` is a text that does not parse
pub record Json (A : Type 0) : Type 0 where
  pub stringify : A → Text
  pub parse : Text → Option A

-- What the class relies on: a text parses back and is not empty, is on one line, and is cut short by nothing that is
-- itself a text, as is so for the texts of objects.
pub record IsJson {A : Type 0} (json : Json A) : Type 0 where
  pub parse-stringify : (a : A) → json.parse (json.stringify a) ≡ some a
  pub parse-nil : json.parse [] ≡ none
  pub one_line : (a : A) → All (λ (c : ℕ). c ≢ 10) (json.stringify a)
  pub parse-cut :
      (a : A) (n : ℕ)
      → n < length (json.stringify a)
      → json.parse (take n (json.stringify a)) ≡ none

pub record WalFiles : Type 0 where
  pub log_file : Option Text
  pub state_file : Option Text
  pub snapshot_file : Option Text

-- a file's text, empty if it is not there
unfoldable pub text_of : Option Text → Text
text_of none = []
text_of (some text) = text

-- `raw.split('\n')`
unfoldable pub add_to_first : ℕ → List Text → List Text
add_to_first c [] = (c ∷ []) ∷ []
add_to_first c (line ∷ lines) = (c ∷ line) ∷ lines

unfoldable pub split_lines : Text → List Text
unfolding add_to_first
split_lines [] = [] ∷ []
split_lines (c ∷ text) =
    let rest = split_lines text in if nat_beq c 10 then [] ∷ rest else add_to_first c rest

module _ {A : Type 0} (json : Json A) where
  -- `entries.map((e) => JSON.stringify(e)).join('\n')`
  unfoldable pub join_lines : List A → Text
  join_lines [] = []
  join_lines (a ∷ []) = json.stringify a
  join_lines (a ∷ b ∷ rest) = json.stringify a ++ 10 ∷ join_lines (b ∷ rest)

  unfoldable pub payload : List A → Text
  payload [] = []
  payload (a ∷ rest) = join_lines (a ∷ rest) ++ 10 ∷ []

  -- the first `n` code units of the payload reach the file
  unfoldable pub torn_append : ℕ → List A → WalFiles → WalFiles
  torn_append n entries w = record w {
    log_file = some (text_of w.log_file ++ take n (payload entries));
  }

  unfoldable pub append_entries : List A → WalFiles → WalFiles
  append_entries [] w = w
  append_entries (a ∷ rest) w = record w {
    log_file = some (text_of w.log_file ++ payload (a ∷ rest));
  }

  unfoldable pub read_lines : List Text → List A
  read_lines [] = []
  read_lines ([] ∷ lines) = read_lines lines
  read_lines ((c ∷ line) ∷ lines) =
      let rest = read_lines lines in elim (json.parse (c ∷ line)) [ none ↦ [] | some a ↦ a ∷ rest ]

  unfoldable pub read_log : WalFiles → List A
  read_log w = elim w.log_file [ none ↦ [] | some raw ↦ read_lines (split_lines raw) ]

  unfoldable pub rewrite_log : List A → WalFiles → WalFiles
  rewrite_log entries w = record w { log_file = some (payload entries) }

  -- `JSON.parse(fs.readFileSync(path))` with a default
  unfoldable pub load_or : A → Option Text → A
  load_or default none = default
  load_or default (some raw) = elim (json.parse raw) [ none ↦ default | some a ↦ a ]

  unfoldable pub write_state : A → WalFiles → WalFiles
  write_state state w = record w { state_file = some (json.stringify state) }

  unfoldable pub load_state : A → WalFiles → A
  unfolding load_or
  load_state default w = load_or default w.state_file

  unfoldable pub write_snapshot : A → WalFiles → WalFiles
  write_snapshot snapshot w = record w { snapshot_file = some (json.stringify snapshot) }

  unfoldable pub read_snapshot : WalFiles → Option A
  read_snapshot w = elim w.snapshot_file [ none ↦ none | some raw ↦ json.parse raw ]
