-- ===== src/Mvcc/History.antt =====
-- Old revisions stay readable: a batch of writes changes no read that names an earlier revision.
use nodejs_k8s.Prelude.{
  ℕ, ◌<◌, Text, Option, none, some, List, [], ◌∷◌, ◌++◌, ◌≡◌, refl, ap, ◌∙◌, arith,
}
use nodejs_k8s.Mvcc.Types.{Entry, Store}
use nodejs_k8s.Mvcc.Read.{chain_of, entry_at, scan, live}
use nodejs_k8s.Mvcc.Chains.{IsStamped}
use nodejs_k8s.Mvcc.Grows.{Grows}

-- the scan stops before entries that are newer than the revision asked for
scan-append_newer :
    (rev now : ℕ) (entry : Option Entry) (chain added : List Entry)
    → 0 < rev
    → rev < now
    → IsStamped now added
    → scan rev entry (chain ++ added) ≡ scan rev entry chain
unfolding scan
scan-append_newer rev now entry [] [] pos newer stamped = refl
scan-append_newer rev now entry [] (x ∷ xs) pos newer stamped = ground (arith, stamped.0)
scan-append_newer rev now entry (c ∷ cs) added pos newer stamped =
    ground (arith, scan-append_newer rev now (some c) cs added pos newer stamped)

pub entry_at-Grows :
    {now : ℕ} (s t : Store) (key : Text) (rev : ℕ)
    → Grows now s t
    → 0 < rev
    → rev < now
    → entry_at t key rev ≡ entry_at s key rev
unfolding entry_at
entry_at-Grows {now} s t key rev g pos newer = ap live (
    ap (scan rev none) (g.chains key)
    ∙ scan-append_newer rev now none (chain_of s key) (g.added key) pos newer (g.added_stamped key))
