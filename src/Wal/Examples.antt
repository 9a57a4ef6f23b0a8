-- ===== src/Wal/Examples.antt =====
-- The theorems of the log file at a concrete file of two kinds of entry, `{1}` and `{0}`.
use nodejs_k8s.Prelude.{
  ℕ, zero, suc, ◌<◌, true, false, Bool, Option, none, some, List, [], ◌∷◌, ◌++◌, ◌≡◌, ◌≢◌, refl,
  arith, Text, length, take, All, text_beq, nat_eq, if◌then◌else◌,
}
use nodejs_k8s.Wal.Files.{
  Json, IsJson, WalFiles, text_of, payload, join_lines, read_log, torn_append,
}
use nodejs_k8s.Wal.Recovery.{
  LogWrite, append, rewrite, write_all, entries_of, IsWhole, read_log-write_all,
}
use nodejs_k8s.Wal.Torn.{read_log-torn_append}

abbrev text_of_bool : Bool → Text
text_of_bool true = 123 ∷ 49 ∷ 125 ∷ []
text_of_bool false = 123 ∷ 48 ∷ 125 ∷ []

abbrev parse_bool : Text → Option Bool
parse_bool t =
    if text_beq t (text_of_bool true)
    then some true
    else if text_beq t (text_of_bool false)
    then some false
    else none

abbrev bools : Json Bool
bools = record { stringify = text_of_bool; parse = parse_bool }

bools-IsJson : IsJson bools
bools-IsJson = record {
  parse-stringify = stringified;
  parse-nil = refl;
  one_line = lines;
  parse-cut = cut;
}
  where
    stringified : (b : Bool) → parse_bool (text_of_bool b) ≡ some b
    stringified true = refl
    stringified false = refl

    lines : (b : Bool) → All (λ (c : ℕ). c ≢ 10) (text_of_bool b)
    lines true = (omega arith, (omega arith, (omega arith, tt)))
    lines false = (omega arith, (omega arith, (omega arith, tt)))

    cut :
        (b : Bool) (n : ℕ)
        → n < length (text_of_bool b)
        → parse_bool (take n (text_of_bool b)) ≡ none
    cut true zero h = refl
    cut true (suc zero) h = refl
    cut true (suc (suc zero)) h = refl
    cut true (suc (suc (suc n))) h = absurd (omega (arith, h))
    cut false zero h = refl
    cut false (suc zero) h = refl
    cut false (suc (suc zero)) h = refl
    cut false (suc (suc (suc n))) h = absurd (omega (arith, h))

abbrev one_entry : WalFiles
one_entry = record {
  log_file = some (123 ∷ 49 ∷ 125 ∷ 10 ∷ []);
  state_file = none;
  snapshot_file = none;
}

one_entry-IsWhole : IsWhole bools (true ∷ []) one_entry
unfolding IsWhole text_of payload join_lines
one_entry-IsWhole = refl

abbrev writes : List (LogWrite Bool)
writes = append (false ∷ true ∷ []) ∷ rewrite (true ∷ false ∷ []) ∷ append (false ∷ []) ∷ []

read_log-write_all_example :
    read_log bools (write_all bools writes one_entry) ≡ entries_of bools writes (true ∷ [])
read_log-write_all_example =
    read_log-write_all bools bools-IsJson writes (true ∷ []) one_entry one_entry-IsWhole

entries-writes : entries_of bools writes (true ∷ []) ≡ true ∷ false ∷ false ∷ []
unfolding entries_of
entries-writes = refl

read_log-torn_append_example :
    (kept later : List Bool) × ((false ∷ true ∷ [] ≡ kept ++ later)
      × (read_log bools (torn_append bools 6 (false ∷ true ∷ []) one_entry) ≡ true ∷ kept))
read_log-torn_append_example =
    read_log-torn_append bools bools-IsJson (true ∷ []) (false ∷ true ∷ []) 6 one_entry
      one_entry-IsWhole

-- the second line of the log was cut after its first character
abbrev torn_entry : WalFiles
torn_entry = record one_entry { log_file = some (123 ∷ 49 ∷ 125 ∷ 10 ∷ 123 ∷ []) }
