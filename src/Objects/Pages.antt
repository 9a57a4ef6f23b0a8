-- ===== src/Objects/Pages.antt =====
-- A client that follows the tokens of objects/object.js from page to page sees the whole list.
use nodejs_k8s.Prelude.{
  ℕ, zero, suc, ◌+◌, ◌-◌, ◌≤◌, ◌<◌, min, true, false, Option, none, some, List, [], ◌∷◌, ◌++◌, ◌≡◌,
  ◌∙◌, refl, sym, ap, arith, Text, length, take, drop, nat_beq, ltb, if◌then◌else◌, Bool-cases, inl,
  inr,
}
use nodejs_k8s.Objects.Paging.{decode_continue, remaining_of, list, find_page, list_by_req, follow}

module _ {A : Type 0} where
  take-append-drop : (n : ℕ) (xs : List A) → take n xs ++ drop n xs ≡ xs
  take-append-drop zero xs = refl
  take-append-drop (suc n) [] = refl
  take-append-drop (suc n) (x ∷ xs) = ap (λ ys. x ∷ ys) (take-append-drop n xs)

  drop-nil : (n : ℕ) → drop {A = A} n [] ≡ []
  drop-nil zero = refl
  drop-nil (suc n) = refl

  drop-drop : (m n k : ℕ) (xs : List A) → m + n ≡ k → drop n (drop m xs) ≡ drop k xs
  drop-drop zero n k xs h = ap (λ j. drop j xs) (omega (arith, h))
  drop-drop (suc m) zero k [] h = sym (drop-nil k)
  drop-drop (suc m) (suc n) k [] h = sym (drop-nil k)
  drop-drop (suc m) n zero (x ∷ xs) h = absurd (omega (arith, h))
  drop-drop (suc m) n (suc k) (x ∷ xs) h = drop-drop m n k xs (omega (arith, h))

  length-drop : (n : ℕ) (xs : List A) → length (drop n xs) ≡ length xs - n
  length-drop zero xs = omega arith
  length-drop (suc n) [] = omega arith
  length-drop (suc n) (x ∷ xs) = length-drop n xs ∙ omega arith

  drop-all : (n : ℕ) (xs : List A) → length xs ≤ n → drop n xs ≡ []
  drop-all zero [] h = refl
  drop-all zero (x ∷ xs) h = absurd (omega (arith, h))
  drop-all (suc n) [] h = refl
  drop-all (suc n) (x ∷ xs) h = drop-all n xs (omega (arith, h))

  length-take : (n : ℕ) (xs : List A) → length (take n xs) ≡ min n (length xs)
  length-take zero xs = omega arith
  length-take (suc n) [] = omega arith
  length-take (suc n) (x ∷ xs) = omega (arith, length-take n xs)

  take-all : (n : ℕ) (xs : List A) → length xs ≤ n → take n xs ≡ xs
  take-all zero [] h = refl
  take-all zero (x ∷ xs) h = absurd (omega (arith, h))
  take-all (suc n) [] h = refl
  take-all (suc n) (x ∷ xs) h = ap (λ ys. x ∷ ys) (take-all n xs (omega (arith, h)))

module _ {A : Type 0} (print_token : ℕ → Text) (parse_token : Text → Option ℕ) (limit : ℕ)
    (token : Option Text) (xs : List A) where
  follow-last :
      (pages : ℕ)
      → (list_by_req print_token parse_token limit token xs).continue ≡ none
      → follow print_token parse_token (suc pages) limit token xs
        ≡ (list_by_req print_token parse_token limit token xs).items
  unfolding follow
  follow-last pages h = rw (follow, h) refl

  follow-next :
      (pages : ℕ) (next : Text)
      → (list_by_req print_token parse_token limit token xs).continue ≡ some next
      → follow print_token parse_token (suc pages) limit token xs
        ≡ (list_by_req print_token parse_token limit token xs).items
          ++ follow print_token parse_token pages limit (some next) xs
  unfolding follow
  follow-next pages next h = rw (follow, h) refl

  unlimited-page :
      nat_beq limit 0 ≡ true
      → ((list_by_req print_token parse_token limit token xs).continue ≡ none)
        × ((list_by_req print_token parse_token limit token xs).items
            ≡ drop (decode_continue parse_token token) xs)
  unfolding list_by_req list find_page remaining_of
  unlimited-page h = rw h (ground arith, refl)

  limited-page :
      nat_beq limit 0 ≡ false
      → ((list_by_req print_token parse_token limit token xs).continue ≡ (
          if ltb 0 (
            length xs
            - (decode_continue parse_token token
                + length (take limit (drop (decode_continue parse_token token) xs))))
          then some (
              print_token (
                decode_continue parse_token token
                + length (take limit (drop (decode_continue parse_token token) xs))))
          else none))
        × ((list_by_req print_token parse_token limit token xs).items
            ≡ take limit (drop (decode_continue parse_token token) xs))
  unfolding list_by_req list find_page remaining_of
  limited-page h = rw h (refl, refl)

read-token :
    (print_token : ℕ → Text) (parse_token : Text → Option ℕ) (n : ℕ)
    → parse_token (print_token n) ≡ some n
    → decode_continue parse_token (some (print_token n)) ≡ n
unfolding decode_continue
read-token print_token parse_token n h = rw (decode_continue, h) refl

module _ {A : Type 0} (print_token : ℕ → Text) (parse_token : Text → Option ℕ)
    (reads : (n : ℕ) → parse_token (print_token n) ≡ some n) where
  -- a page that is not the last
  page-more :
      (limit skip : ℕ) (xs rest : List A)
      → ltb 0 (length xs - (skip + length (take limit (drop skip xs)))) ≡ true
      → rest ≡ drop (skip + length (take limit (drop skip xs))) xs
      → take limit (drop skip xs) ++ rest ≡ drop skip xs
  page-more limit skip xs rest more h =
      let size = length-take limit (drop skip xs) in
      let left = length-drop skip xs in
      let full : length (take limit (drop skip xs)) ≡ limit = ground (arith, more, size, left) in
      let next : drop limit (drop skip xs) ≡ drop (skip + length (take limit (drop skip xs))) xs =
        drop-drop skip limit (skip + length (take limit (drop skip xs))) xs (omega (arith, full)) in
      ap (λ ys. take limit (drop skip xs) ++ ys) (h ∙ sym next)
      ∙ take-append-drop limit (drop skip xs)

  page-last :
      (limit skip : ℕ) (xs : List A)
      → ltb 0 (length xs - (skip + length (take limit (drop skip xs)))) ≡ false
      → take limit (drop skip xs) ≡ drop skip xs
  page-last limit skip xs last =
      let size = length-take limit (drop skip xs) in
      let left = length-drop skip xs in
      take-all limit (drop skip xs) (ground (arith, last, size, left))

  follow-rest :
      (pages limit : ℕ) (token : Option Text) (xs : List A)
      → length xs < decode_continue parse_token token + pages
      → follow print_token parse_token pages limit token xs
        ≡ drop (decode_continue parse_token token) xs
  unfolding follow
  follow-rest zero limit token xs h =
      sym (drop-all (decode_continue parse_token token) xs (omega (arith, h)))
  follow-rest (suc pages) limit token xs h =
      let skip = decode_continue parse_token token in
      let got = take limit (drop skip xs) in
      elim (Bool-cases (nat_beq limit 0)) [
        | inl all ↦
            let (end, items) = unlimited-page print_token parse_token limit token xs all in
            follow-last print_token parse_token limit token xs pages end ∙ items
        | inr bounded ↦
            let (continue', items) = limited-page print_token parse_token limit token xs bounded in
            elim (Bool-cases (ltb 0 (length xs - (skip + length got)))) [
              | inl more ↦
                  let next = print_token (skip + length got) in
                  let at : decode_continue parse_token (some next) ≡ skip + length got =
                    read-token print_token parse_token (skip + length got)
                      (reads (skip + length got)) in
                  let size : length got ≡ min limit (length (drop skip xs)) =
                    length-take limit (drop skip xs) in
                  let left : length (drop skip xs) ≡ length xs - skip = length-drop skip xs in
                  let fewer : length xs < decode_continue parse_token (some next) + pages =
                    ground (arith, at, h, size, left, bounded, more) in
                  let rest = follow-rest pages limit (some next) xs fewer in
                  let rest' : follow print_token parse_token pages limit (some next) xs
                      ≡ drop (skip + length got) xs =
                    rest ∙ ap (λ k. drop k xs) at in
                  follow-next print_token parse_token limit token xs pages next
                    (rw more at continue')
                  ∙ ap (λ ys. ys ++ follow print_token parse_token pages limit (some next) xs) items
                  ∙ page-more limit skip xs
                      (follow print_token parse_token pages limit (some next) xs) more rest'
              | inr last ↦
                  follow-last print_token parse_token limit token xs pages (rw last at continue')
                  ∙ items
                  ∙ page-last limit skip xs last
            ]
      ]

  -- Whatever the limit, a client that starts without a token and follows the tokens gets all resources
  -- that match, each once and in order, within one page more than there are resources, if nothing
  -- changes meanwhile and a token is read as the number that it was made of.
  pub follow-all :
      (limit : ℕ) (xs : List A) → follow print_token parse_token (length xs + 1) limit none xs ≡ xs
  unfolding decode_continue
  follow-all limit xs = follow-rest (length xs + 1) limit none xs (omega arith)
