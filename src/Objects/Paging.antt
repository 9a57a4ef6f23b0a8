-- ===== src/Objects/Paging.antt =====
-- Lists in pages: `encodeContinue`, `decodeContinue`, `listByReq` and `list` of objects/object.js, over the
-- resources that match, in the order of the query's sort. A limit of 0 is none. Base64 and JSON, which
-- make a token of a number, are parameters.
use nodejs_k8s.Prelude.{
  ℕ, zero, suc, ◌+◌, ◌-◌, Option, none, some, List, [], ◌++◌, Text, length, take, drop, nat_beq,
  ltb, if◌then◌else◌,
}

pub record Page (A : Type 0) : Type 0 where
  pub items : List A
  pub continue : Option Text
  pub remaining : ℕ

-- `parse_token` reads the number of a token, which is no token of ours if there is none
unfoldable pub decode_continue : (Text → Option ℕ) → Option Text → ℕ
decode_continue parse_token none = 0
decode_continue parse_token (some token) = elim (parse_token token) [ none ↦ 0 | some skip ↦ skip ]

-- `Math.max(0, total - consumed)`, where the total was counted
unfoldable pub remaining_of : Option ℕ → ℕ → ℕ
remaining_of none consumed = 0
remaining_of (some total) consumed = total - consumed

module _ {A : Type 0} (print_token : ℕ → Text) (parse_token : Text → Option ℕ) where
  unfoldable pub list : ℕ → Option ℕ → List A → Page A
  unfolding remaining_of
  list skip total found =
      let consumed = skip + length found in
      let remaining = remaining_of total consumed in
      record {
        items = found;
        continue = if ltb 0 remaining then some (print_token consumed) else none;
        remaining = remaining;
      }

  unfoldable pub find_page : ℕ → ℕ → List A → List A
  find_page limit skip matching =
      if nat_beq limit 0 then drop skip matching else take limit (drop skip matching)

  unfoldable pub list_by_req : ℕ → Option Text → List A → Page A
  unfolding decode_continue find_page list
  list_by_req limit token matching =
      let skip = decode_continue parse_token token in
      list skip (if nat_beq limit 0 then none else some (length matching))
        (find_page limit skip matching)

  -- the items of the pages that a client gets that follows the tokens, at most so many pages
  unfoldable pub follow : ℕ → ℕ → Option Text → List A → List A
  unfolding list_by_req
  follow zero limit token matching = []
  follow (suc pages) limit token matching =
      let page = list_by_req limit token matching in
      elim page.continue [
        | none ↦ page.items
        | some next ↦ page.items ++ follow pages limit (some next) matching
      ]
