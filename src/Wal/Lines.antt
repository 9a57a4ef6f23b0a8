-- ===== src/Wal/Lines.antt =====
-- How the text of the log of store/wal.js falls into lines, and what a read makes of it.
use nodejs_k8s.Prelude.{
  ℕ, none, some, List, [], ◌∷◌, ◌++◌, append_assoc, ◌≡◌, ◌≢◌, ◌∙◌, refl, ap, arith, Text, All,
  nat_eq,
}
use nodejs_k8s.Wal.Files.{Json, IsJson, add_to_first, split_lines, join_lines, payload, read_lines}

-- a line without a newline, then a newline: the line stands by itself
pub split_lines-line :
    (line text : Text)
    → All (λ (c : ℕ). c ≢ 10) line
    → split_lines (line ++ 10 ∷ text) ≡ line ∷ split_lines text
unfolding split_lines add_to_first
split_lines-line [] text h = refl
split_lines-line (c ∷ line) text h = ground (arith, h.0, split_lines-line line text h.1)

pub split_lines-last : (line : Text) → All (λ (c : ℕ). c ≢ 10) line → split_lines line ≡ line ∷ []
unfolding split_lines add_to_first
split_lines-last [] h = refl
split_lines-last (c ∷ line) h = ground (arith, h.0, split_lines-last line h.1)

module _ {A : Type 0} (json : Json A) (law : IsJson json) where
  -- the payload, entry by entry
  pub payload-cons :
      (a : A) (rest : List A) → payload json (a ∷ rest) ≡ json.stringify a ++ 10 ∷ payload json rest
  unfolding payload join_lines
  payload-cons a [] = refl
  payload-cons a (b ∷ rest) =
      append_assoc (json.stringify a) (10 ∷ join_lines json (b ∷ rest)) (10 ∷ [])

  -- a line that does not parse ends the read
  pub read_lines-broken :
      (line : Text) (lines : List Text)
      → json.parse line ≡ none
      → line ≢ []
      → read_lines json (line ∷ lines) ≡ []
  unfolding read_lines
  read_lines-broken [] lines h ne = absurd (ne refl)
  read_lines-broken (c ∷ line) lines h ne = rw (read_lines, h) refl

  parsed :
      (line : Text) (a : A) (lines : List Text)
      → json.parse line ≡ some a
      → read_lines json (line ∷ lines) ≡ a ∷ read_lines json lines
  unfolding read_lines
  parsed [] a lines h = absurd (ground (arith, h, law.parse-nil))
  parsed (c ∷ line) a lines h = rw (read_lines, h) refl

  -- a text that parses is not empty, and is read as its entry
  pub read_lines-entry :
      (a : A) (lines : List Text)
      → read_lines json (json.stringify a ∷ lines) ≡ a ∷ read_lines json lines
  read_lines-entry a lines = parsed (json.stringify a) a lines (law.parse-stringify a)

  -- A read of whole entries and then anything else gives the entries and what is read of the rest.
  pub read_lines-payload :
      (entries : List A) (text : Text)
      → read_lines json (split_lines (payload json entries ++ text))
        ≡ entries ++ read_lines json (split_lines text)
  read_lines-payload [] text = unfold payload in refl
  read_lines-payload (a ∷ rest) text =
      ap (λ t. read_lines json (split_lines t))
        (ap (λ t. t ++ text) (payload-cons a rest)
          ∙ append_assoc (json.stringify a) (10 ∷ payload json rest) text)
      ∙ ap (read_lines json)
          (split_lines-line (json.stringify a) (payload json rest ++ text) (law.one_line a))
      ∙ read_lines-entry a (split_lines (payload json rest ++ text))
      ∙ ap (λ es. a ∷ es) (read_lines-payload rest text)
