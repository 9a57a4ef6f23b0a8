-- ===== src/Mvcc/Read.antt =====
-- Reads of store/mvcc.js: `matchingKeys`, `entryAt`, `kvOf`, `sortKvs` and `range`.
use Prim.Native.Nat.{compare, Ordering}
use mathlib.Core.List.{reverse}
use nodejs_k8s.Prelude.{
  ℕ, Text, Bool, true, false, not, ◌&&◌, Option, none, some, List, [], ◌∷◌, ◌==◌, map, text_eq,
  text_ltb, ltb, nat_beq, filter, length, take, if◌then◌else◌,
}
use nodejs_k8s.Prelude.Sort.{sort}
use nodejs_k8s.Prelude.Map
use nodejs_k8s.Mvcc.Types.{Codec, Entry, Kv, Store, Result, ok, err, compacted, future_revision}

-- `'\0'`
abbrev pub nul : Text
nul = 0 ∷ []

abbrev pub is_empty {ℓ} : {A : Type ℓ} → List A → Bool
is_empty [] = true
is_empty (x ∷ xs) = false

unfoldable pub text_compare : Text → Text → Ordering
text_compare a b =
    if text_ltb a b then Ordering.lt else if text_ltb b a then Ordering.gt else Ordering.eq

-- `[...this.keys.keys()].sort()`
unfoldable pub sorted_keys : Store → List Text
sorted_keys s = sort text_compare (Map.keys s.keys)

-- `key <= k && k < rangeEnd`, with the two special cases of `'\0'`
unfoldable pub in_range : Text → Text → Text → Bool
in_range key range_end k =
    if range_end == nul
    then (if key == nul then true else not (text_ltb k key))
    else (not (text_ltb k key) && text_ltb k range_end)

unfoldable pub matching_keys : Store → Text → Text → List Text
matching_keys s key range_end =
    if is_empty range_end
    then (if Map.has key s.keys then key ∷ [] else [])
    else filter (in_range key range_end) (sorted_keys s)

-- the loop of `entryAt`: the last candidate before the first one that is newer than `rev`
unfoldable pub scan : ℕ → Option Entry → List Entry → Option Entry
scan rev entry [] = entry
scan rev entry (candidate ∷ rest) =
    let next = scan rev (some candidate) rest in
    if not (nat_beq rev 0) && ltb rev candidate.rev then entry else next

unfoldable pub live : Option Entry → Option Entry
live none = none
live (some entry) = if entry.deleted then none else some entry

-- `this.keys.get(key)`, an absent key having no entries
unfoldable pub chain_of : Store → Text → List Entry
chain_of s key = elim (Map.get key s.keys) [ none ↦ [] | some chain ↦ chain ]

unfoldable pub entry_at : Store → Text → ℕ → Option Entry
entry_at s key rev = live (scan rev none (chain_of s key))

unfoldable pub kv_of : Text → Entry → Kv
kv_of key entry = record {
  key = key;
  value = entry.value;
  create_revision = entry.create_revision;
  mod_revision = entry.rev;
  version = entry.version;
  lease = entry.lease;
}

pub data SortOrder : Type 0 where
  unsorted ascend descend : SortOrder

pub data SortTarget : Type 0 where
  by_key by_version by_create by_mod by_value : SortTarget

-- the comparator of the case `'NONE'` never answers 0
compare_none : Kv → Kv → Ordering
compare_none a b = if text_ltb a.key b.key then Ordering.lt else Ordering.gt

compare_by : Codec → SortTarget → Kv → Kv → Ordering
compare_by c by_key a b = text_compare a.key b.key
compare_by c by_version a b = compare a.version b.version
compare_by c by_create a b = compare a.create_revision b.create_revision
compare_by c by_mod a b = compare a.mod_revision b.mod_revision
compare_by c by_value a b = text_compare (c.to_text a.value) (c.to_text b.value)

unfoldable pub sort_kvs : Codec → List Kv → SortOrder → SortTarget → List Kv
unfolding compare_none compare_by
sort_kvs c kvs unsorted target = sort compare_none kvs
sort_kvs c kvs ascend target = sort (compare_by c target) kvs
sort_kvs c kvs descend target = reverse (sort (compare_by c target) kvs)

-- a requested revision, which a client may send below zero
pub data Revision : Type 0 where
  at : ℕ → Revision
  negative : Revision

pub record RangeOptions : Type 0 where
  pub range_end : Text
  pub revision : Revision
  pub limit : ℕ
  pub count_only : Bool
  pub keys_only : Bool
  pub sort_order : SortOrder
  pub sort_target : SortTarget

pub record RangeReply : Type 0 where
  pub kvs : List Kv
  pub count : ℕ
  pub more : Bool
  pub revision : ℕ

unfoldable pub clamp : Revision → ℕ
clamp (at n) = n
clamp negative = 0

add_kv : Text → Option Entry → List Kv → List Kv
add_kv key none kvs = kvs
add_kv key (some entry) kvs = kv_of key entry ∷ kvs

-- the `for` loop of `range`
unfoldable pub collect : Store → ℕ → List Text → List Kv
unfolding add_kv
collect s rev [] = []
collect s rev (key ∷ keys) = add_kv key (entry_at s key rev) (collect s rev keys)

unfoldable pub shape_reply : RangeOptions → ℕ → List Kv → RangeReply
shape_reply o now kvs =
    let more = not (nat_beq o.limit 0) && ltb o.limit (length kvs) in
    let page = if more then take o.limit kvs else kvs in
    record {
      kvs =
          if o.count_only
          then []
          else if o.keys_only
          then map (λ (kv : Kv). record kv { value = [] }) page
          else page;
      count = length kvs;
      more = more;
      revision = now;
    }

unfoldable pub range : Codec → Store → Text → RangeOptions → Result RangeReply
range c s key o =
    let rev = clamp o.revision in
    if not (nat_beq rev 0) && ltb rev s.compact_revision
    then err compacted
    else if ltb s.revision rev
    then err future_revision
    else (ok (
        shape_reply o s.revision (
          sort_kvs c (collect s rev (matching_keys s key o.range_end)) o.sort_order o.sort_target)))
