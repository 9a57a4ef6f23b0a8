-- ===== src/Gateway/Compares.antt =====
-- What the guard of a transaction that comes through store/gateway.js tests.
use nodejs_k8s.Prelude.{
  ◌<◌, Text, Bool, true, false, Option, none, some, ◌≡◌, ◌↔◌, refl, arith, Option-cases, inl, inr,
  nat_eq, text_eq,
}
use nodejs_k8s.Mvcc.Types.{Codec, Entry, Store}
use nodejs_k8s.Mvcc.Read.{entry_at, chain_of, scan, live}
use nodejs_k8s.Mvcc.Compare.{
  mod_revision, version, equal, compare, holds, order_target, actual, expected, entry_field,
}
use nodejs_k8s.Mvcc.Valid.{IsValid}
use nodejs_k8s.Mvcc.Swap.{scan-All}
use nodejs_k8s.Gateway.Decode.{CompareBody, b64, or_default, decode_compare}

is_absent : Option Entry → Bool
is_absent none = true
is_absent (some e) = false

live-positive :
    (s : Store) (key : Text) (e : Entry) → IsValid s → entry_at s key 0 ≡ some e → 0 < e.rev
unfolding entry_at live
live-positive s key e v = found (scan 0 none (chain_of s key)) refl
  where
    found : (o : Option Entry) → scan 0 none (chain_of s key) ≡ o → live o ≡ some e → 0 < e.rev
    found none h p = absurd (ground (arith, p))
    found (some x) h p = ground (
      arith,
      p,
      scan-All (λ (y : Entry). 0 < y.rev) 0 (chain_of s key) none x (v.chains key).positive
          (λ q. cc) h,
    )

-- A guard that asks, as a client does for a swap, that a key's modRevision be some number, and names no
-- version, holds in a valid store exactly if the key is not there: the number is not looked at.
compare-decode_compare :
    (c : Codec) (s : Store) (body : CompareBody)
    → IsValid s
    → body.target ≡ some mod_revision
    → body.result ≡ some equal
    → body.version ≡ none
    → (compare c s (decode_compare c body) ≡ true) ↔ (entry_at s (b64 c body.key) 0 ≡ none)
unfolding compare decode_compare or_default order_target holds actual expected entry_field
compare-decode_compare c s body v t r n = elim (Option-cases (entry_at s (b64 c body.key) 0)) [
  | inl none' ↦ ground (arith, none', t, r, n)
  | inr (e, some') ↦
      let p = live-positive s (b64 c body.key) e v some' in ground (arith, some', t, r, n, p)
]

-- A guard that a key's version be some number tests the version that the request names, or 0 if it
-- names none.
compare-decode_compare-version :
    (c : Codec) (s : Store) (body : CompareBody)
    → body.target ≡ some version
    → body.result ≡ some equal
    → (compare c s (decode_compare c body) ≡ true)
      ↔ (entry_field 0 (λ e. e.version) (entry_at s (b64 c body.key) 0) ≡ or_default 0 body.version)
unfolding compare decode_compare or_default order_target holds actual expected entry_field
compare-decode_compare-version c s body t r = ground (arith, t, r)
