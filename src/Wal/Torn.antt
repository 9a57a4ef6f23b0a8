-- ===== src/Wal/Torn.antt =====
-- The log of store/wal.js after a crash during `append`: what is read back, and what becomes of the
-- entries that are appended after the torn line.
use nodejs_k8s.Prelude.{
  ℕ, zero, suc, ◌<◌, ◌≤◌, ◌+◌, none, List, [], ◌∷◌, ◌++◌, append_assoc, append-nil, ◌≡◌, ◌≢◌, ◌∙◌,
  refl, sym, ap, arith, Text, length, take, All, inl, inr, All-append, nat_eq, ◌⊎◌,
}
use nodejs_k8s.Wal.Files.{
  Json, IsJson, WalFiles, text_of, split_lines, payload, read_lines, read_log, append_entries,
  torn_append,
}
use nodejs_k8s.Wal.Lines.{
  split_lines-line, split_lines-last, payload-cons, read_lines-entry, read_lines-broken,
  read_lines-payload,
}
use nodejs_k8s.Wal.Recovery.{IsWhole, read_log-text}

module _ {A : Type 0} where
  All-take : (P : A → Type 0) (n : ℕ) (xs : List A) → All P xs → All P (take n xs)
  All-take P zero xs h = tt
  All-take P (suc n) [] h = tt
  All-take P (suc n) (x ∷ xs) h = (h.0, All-take P n xs h.1)

  take-append-front : (n : ℕ) (xs ys : List A) → n ≤ length xs → take n (xs ++ ys) ≡ take n xs
  take-append-front zero xs ys h = refl
  take-append-front (suc n) [] ys h = absurd (omega (arith, h))
  take-append-front (suc n) (x ∷ xs) ys h =
      ap (λ zs. x ∷ zs) (take-append-front n xs ys (omega (arith, h)))

  take-all : (xs : List A) → take (length xs) xs ≡ xs
  take-all [] = refl
  take-all (x ∷ xs) = ap (λ zs. x ∷ zs) (take-all xs)

  -- a cut falls into the first part, or leaves it whole and cuts the second
  take-append-cases :
      (n : ℕ) (xs ys : List A)
      → (n < length xs) ⊎ ((m : ℕ) × ((n ≡ length xs + m) × (take n (xs ++ ys) ≡ xs ++ take m ys)))
  take-append-cases n [] ys = inr (n, (omega arith, refl))
  take-append-cases zero (x ∷ xs) ys = inl (omega arith)
  take-append-cases (suc n) (x ∷ xs) ys = elim (take-append-cases n xs ys) [
    | inl h ↦ inl (omega (arith, h))
    | inr (m, (e, t)) ↦ inr (m, (omega (arith, e), ap (λ zs. x ∷ zs) t))
  ]

module _ {A : Type 0} (json : Json A) (law : IsJson json) where
  -- part of one line is read as nothing
  read_lines-cut :
      (a : A) (n : ℕ)
      → n < length (json.stringify a)
      → read_lines json (split_lines (take n (json.stringify a))) ≡ []
  read_lines-cut a n h =
      ap (read_lines json) (
        split_lines-last (take n (json.stringify a))
          (All-take (λ (c : ℕ). c ≢ 10) n (json.stringify a) (law.one_line a)))
      ∙ line (take n (json.stringify a)) (law.parse-cut a n h)
    where
      line : (text : Text) → json.parse text ≡ none → read_lines json (text ∷ []) ≡ []
      line [] e = unfold read_lines in refl
      line (c ∷ text) e =
          read_lines-broken json law (c ∷ text) [] e (λ x. absurd (ground (arith, x)))

  read_lines-torn :
      (new : List A) (n : ℕ)
      → (kept later : List A) × ((new ≡ kept ++ later)
          × (read_lines json (split_lines (take n (payload json new))) ≡ kept))
  unfolding payload split_lines read_lines
  read_lines-torn [] zero = ([], [], (refl, refl))
  read_lines-torn [] (suc n) = ([], [], (refl, refl))
  read_lines-torn (a ∷ new) n =
      cut (λ m. read_lines-torn new m)
        (take-append-cases n (json.stringify a) (10 ∷ payload json new))
    where
      read : Text → List A
      read text = read_lines json (split_lines text)

      text :
          read (take n (payload json (a ∷ new)))
          ≡ read (take n (json.stringify a ++ 10 ∷ payload json new))
      text = ap (λ t. read (take n t)) (payload-cons json law a new)

      cut :
          (again : (m : ℕ)
            → (kept later : List A) × ((new ≡ kept ++ later)
                × (read (take m (payload json new)) ≡ kept)))
          → (n < length (json.stringify a))
            ⊎ ((m : ℕ) × ((n ≡ length (json.stringify a) + m)
                  × (take n (json.stringify a ++ 10 ∷ payload json new)
                      ≡ json.stringify a ++ take m (10 ∷ payload json new))))
          → (kept later : List A) × ((a ∷ new ≡ kept ++ later)
              × (read (take n (payload json (a ∷ new))) ≡ kept))
      cut again (inl h) = (
        [],
        a ∷ new,
        (
          refl,
          text
              ∙ ap read (
                  take-append-front n (json.stringify a) (10 ∷ payload json new) (omega (arith, h)))
              ∙ read_lines-cut a n h,
        ),
      )
      cut again (inr (zero, (e, t))) = (
        a ∷ [],
        new,
        (
          refl,
          text
              ∙ ap read (t ∙ append-nil (json.stringify a))
              ∙ ap (read_lines json) (split_lines-last (json.stringify a) (law.one_line a))
              ∙ read_lines-entry json law a [],
        ),
      )
      cut again (inr (suc m, (e, t))) =
          let (kept, later, (parts, ih)) = again m in
          (
            a ∷ kept,
            later,
            (
              ap (λ es. a ∷ es) parts,
              text
                  ∙ ap read t
                  ∙ ap (read_lines json) (
                      split_lines-line (json.stringify a) (take m (payload json new))
                        (law.one_line a))
                  ∙ read_lines-entry json law a (split_lines (take m (payload json new)))
                  ∙ ap (λ es. a ∷ es) ih,
            ),
          )

  -- A crash during an append loses nothing that was in the log before, and of the entries that were
  -- being appended a read finds those up to some point and none after it: wherever the write was cut,
  -- if the lines of the log were whole and JSON is as IsJson says.
  pub read_log-torn_append :
      (old new : List A) (n : ℕ) (w : WalFiles)
      → IsWhole json old w
      → (kept later : List A) × ((new ≡ kept ++ later)
          × (read_log json (torn_append json n new w) ≡ old ++ kept))
  unfolding IsWhole torn_append text_of
  read_log-torn_append old new n w h =
      let (kept, later, (parts, e)) = read_lines-torn new n in
      (
        kept,
        later,
        (
          parts,
          read_log-text json law (torn_append json n new w)
              ∙ ap (λ t. read_lines json (split_lines (t ++ take n (payload json new)))) h
              ∙ read_lines-payload json law old (take n (payload json new))
              ∙ ap (λ es. old ++ es) e,
        ),
      )

  -- What is appended after a torn line is lost: the next entry's text goes on that line, so that if the
  -- torn line does not parse, alone or together with that text, a read of the log gives what it gave
  -- before the append, however many entries were appended, if JSON is as IsJson says.
  append_entries-torn :
      (old : List A) (torn : Text) (a : A) (new : List A) (w : WalFiles)
      → text_of w.log_file ≡ payload json old ++ torn
      → All (λ (c : ℕ). c ≢ 10) torn
      → json.parse torn ≡ none
      → json.parse (torn ++ json.stringify a) ≡ none
      → torn ≢ []
      → (read_log json w ≡ old) × (read_log json (append_entries json (a ∷ new) w) ≡ old)
  unfolding append_entries text_of
  append_entries-torn old torn a new w h line broken joined ne =
      let s = json.stringify a in
      let tail = payload json new in
      let read = λ (t : Text). read_lines json (split_lines t) in
      (
        read_log-text json law w
            ∙ ap read h
            ∙ read_lines-payload json law old torn
            ∙ ap (λ es. old ++ es)
                (ap (read_lines json) (split_lines-last torn line)
                  ∙ read_lines-broken json law torn [] broken ne)
            ∙ append-nil old,
        read_log-text json law (append_entries json (a ∷ new) w)
            ∙ ap read (
                ap (λ t. t ++ payload json (a ∷ new)) h
                ∙ append_assoc (payload json old) torn (payload json (a ∷ new))
                ∙ ap (λ t. payload json old ++ (torn ++ t)) (payload-cons json law a new)
                ∙ ap (λ t. payload json old ++ t) (sym (append_assoc torn s (10 ∷ tail))))
            ∙ read_lines-payload json law old ((torn ++ s) ++ 10 ∷ tail)
            ∙ ap (λ es. old ++ es)
                (ap (read_lines json) (
                    split_lines-line (torn ++ s) tail
                      (All-append (λ (c : ℕ). c ≢ 10) torn s line (law.one_line a)))
                  ∙ read_lines-broken json law (torn ++ s) (split_lines tail) joined
                      (joined_full torn ne))
            ∙ append-nil old,
      )
    where
      joined_full : (t : Text) → t ≢ [] → t ++ json.stringify a ≢ []
      joined_full [] ne e = ne refl
      joined_full (c ∷ t) ne e = absurd (ground (arith, e))
