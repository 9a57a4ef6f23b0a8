-- ===== src/Balancer/Rotation.antt =====
-- The order in which loadBalancer/index.js serves its pods, and what its removals do.
use nodejs_k8s.Prelude.{
  ℕ, zero, suc, ◌+◌, ◌%◌, ◌<◌, Bool, true, false, if◌then◌else◌, filter, Option, none, some, List,
  [], ◌∷◌, ◌++◌, Text, text_eq, length, drop_last, nat_beq, ◌≡◌, refl, ap, sym, ◌∙◌, arith,
  append_assoc, length-append, drop_last-append_one, beq_refl,
}
use nodejs_k8s.Balancer.Tables.{
  Balancer, Outcome, answered, refused, unanswered, same_ip, pod_at, target, advance, handler,
  serve, index_of, remove_pod,
}

pod_at-append :
    (front back : List (Option Text)) (p : Option Text)
    → pod_at (length front) (front ++ p ∷ back) ≡ p
unfolding pod_at
pod_at-append [] back p = refl
pod_at-append (q ∷ front) back p = pod_at-append front back p

mod_small : (x n : ℕ) → x < n → x % n ≡ x
mod_small x n h = grind (arith, h)

mod_self : (n : ℕ) → 0 < n → n % n ≡ 0
mod_self n h = grind (arith, h)

-- the pods of as many requests, each of which moves on
visits : ℕ → Balancer → List (Option Text)
visits zero b = []
visits (suc n) b = target b ∷ visits n (advance b)

-- whether a request moves on, whatever the table
unfoldable pub passes_on : Outcome → Bool
passes_on refused = false
passes_on _ = true

-- the pods of the requests that move on
unfoldable pub moving : List Outcome → List (Option Text) → List (Option Text)
unfolding passes_on
moving [] ps = []
moving (o ∷ os) [] = []
moving (o ∷ os) (p ∷ ps) = let rest = moving os ps in if passes_on o then p ∷ rest else rest

moving-serve :
    (os : List Outcome) (b : Balancer)
    → moving os (serve os b) ≡ visits (length (filter passes_on os)) b
unfolding moving serve visits handler passes_on filter
moving-serve [] b = refl
moving-serve (answered ∷ os) b = ap (λ ps. target b ∷ ps) (moving-serve os (advance b))
moving-serve (refused ∷ os) b = moving-serve os b
moving-serve (unanswered ∷ os) b = ap (λ ps. target b ∷ ps) (moving-serve os (advance b))

module _ (b : Balancer) where
  from : ℕ → Balancer
  from n = record b { cur = some n }

  advance-next : (n : ℕ) → suc n < length b.pods → advance (from n) ≡ from (suc n)
  unfolding advance from
  advance-next n h =
      let nonempty : nat_beq (length b.pods) 0 ≡ false = ground (arith, h) in
      let small : (n + 1) % length b.pods ≡ suc n =
        mod_small (n + 1) (length b.pods) (omega (arith, h)) ∙ omega arith in
      rw (nonempty, small) refl

  advance-last : (n : ℕ) → suc n ≡ length b.pods → advance (from n) ≡ from 0
  unfolding advance from
  advance-last n h =
      let nonempty : nat_beq (length b.pods) 0 ≡ false = ground (arith, h) in
      let same : n + 1 ≡ length b.pods = omega (arith, h) in
      let wrapped : (n + 1) % length b.pods ≡ 0 =
        rw same (mod_self (length b.pods) (omega (arith, h))) in
      rw (nonempty, wrapped) refl

  target-from :
      (n : ℕ) (front back : List (Option Text)) (p : Option Text)
      → b.pods ≡ front ++ p ∷ back
      → n ≡ length front
      → target (from n) ≡ p
  unfolding target from
  target-from n front back p all at = rw (all, at) (pod_at-append front back p)

  -- one more request, and those after it
  visits-step :
      (n m left : ℕ) (p : Option Text)
      → target (from n) ≡ p
      → advance (from n) ≡ from m
      → visits (suc left) (from n) ≡ p ∷ visits left (from m)
  unfolding visits
  visits-step n m left p here next = rw (here, next) refl

  -- the requests after the first, at the place behind it
  at_next :
      (n : ℕ) (front back : List (Option Text)) (p : Option Text)
      → n ≡ length front
      → suc n ≡ length (front ++ p ∷ [])
  at_next n front back p at = omega (arith, at, length-append front (p ∷ []))

  length-pods :
      (front back : List (Option Text)) (p : Option Text)
      → b.pods ≡ front ++ p ∷ back
      → length b.pods ≡ length front + suc (length back)
  length-pods front back p all = ap length all ∙ length-append front (p ∷ back)

  -- requests that do not pass the end of the table
  visits-within :
      (n : ℕ) (front ps back : List (Option Text))
      → b.pods ≡ front ++ ps ++ back
      → n ≡ length front
      → visits (length ps) (from n) ≡ ps
  unfolding visits
  visits-within n front [] back all at = refl
  visits-within n front (p ∷ []) back all at =
      ap (λ q. q ∷ []) (target-from n front back p (all ∙ append_assoc front (p ∷ []) back) at)
  visits-within n front (p ∷ q ∷ ps) back all at =
      let all' = all ∙ append_assoc front (p ∷ q ∷ ps) back in
      let next = advance-next n (omega (arith, at, length-pods front (q ∷ ps ++ back) p all')) in
      visits-step n (suc n) (length (q ∷ ps)) p (target-from n front (q ∷ ps ++ back) p all' at)
        next
      ∙ ap (λ qs. p ∷ qs)
          (visits-within (suc n) (front ++ p ∷ []) (q ∷ ps) back
            (all'
              ∙ sym (append_assoc front (p ∷ []) (q ∷ ps ++ back))
              ∙ sym (append_assoc (front ++ p ∷ []) (q ∷ ps) back))
            (at_next n front [] p at))

  -- requests up to the end of the table, and more that start at 0
  visits-end :
      (n more all_of : ℕ) (front ps : List (Option Text)) (p : Option Text)
      → b.pods ≡ front ++ p ∷ ps
      → n ≡ length front
      → all_of ≡ suc (length ps) + more
      → visits all_of (from n) ≡ p ∷ ps ++ visits more (from 0)
  unfolding visits
  visits-end n more zero front ps p all at sum = absurd (omega (arith, sum))
  visits-end n more (suc left) front [] p all at sum =
      let same : left ≡ more = omega (arith, sum) in
      let last = advance-last n (omega (arith, at, length-pods front [] p all)) in
      rw (target-from n front [] p all at, last, same) refl
  visits-end n more (suc left) front (q ∷ ps) p all at sum =
      let next = advance-next n (omega (arith, at, length-pods front (q ∷ ps) p all)) in
      rw (target-from n front (q ∷ ps) p all at, next)
        (ap (λ qs. p ∷ qs)
          (visits-end (suc n) more left (front ++ p ∷ []) ps q
            (all ∙ sym (append_assoc front (p ∷ []) (q ∷ ps))) (at_next n front [] p at)
            (omega (arith, sum))))

-- Of requests that follow one another, those which the pod does not answer with an error status, if they
-- are as many as there are pods, reach each place of the table once: from the present place to the end,
-- and then from the start; a request that is answered with an error status stays where it is.
pub serve-rotation :
    (os : List Outcome) (b : Balancer) (front back : List (Option Text)) (p : Option Text)
    → b.pods ≡ front ++ p ∷ back
    → b.cur ≡ some (length front)
    → length (filter passes_on os) ≡ length b.pods
    → (moving os (serve os b) ≡ p ∷ back ++ front) × (serve (refused ∷ os) b ≡ p ∷ serve os b)
unfolding from serve handler
serve-rotation os b front back p all at as_many =
    let start : b ≡ from b (length front) = ap (λ c. record b { cur = c }) at in
    (
      moving-serve os b
          ∙ ap (λ n. visits n b) as_many
          ∙ ap (visits (length b.pods)) start
          ∙ visits-end b (length front) (length front) (length b.pods) front back p all refl
              (omega (arith, length-pods b front back p all))
          ∙ ap (λ qs. p ∷ back ++ qs) (visits-within b 0 [] front (p ∷ back) all refl),
      ap (λ q. q ∷ serve os b)
          (ap target start ∙ target-from b (length front) front back p all refl),
    )

-- An address that is not in the table takes the last pod out of it.
remove_pod-absent :
    (b : Balancer) (ip : Option Text) (others : List (Option Text)) (last : Option Text)
    → b.pods ≡ others ++ last ∷ []
    → index_of ip b.pods ≡ none
    → remove_pod ip b ≡ record b { pods = others }
unfolding remove_pod
remove_pod-absent b ip others last ends absent =
    rw (remove_pod, absent)
      (ap (λ ps. record b { pods = ps }) (ap drop_last ends ∙ drop_last-append_one others last))

same_ip_refl : (ip : Option Text) → same_ip ip ip ≡ true
same_ip_refl none = refl
same_ip_refl (some ip) = beq_refl ip

-- The first pod of the table cannot be taken out.
remove_pod-first :
    (b : Balancer) (ip : Option Text) (others : List (Option Text))
    → b.pods ≡ ip ∷ others
    → remove_pod ip b ≡ b
unfolding remove_pod index_of
remove_pod-first b ip others starts =
    let at : index_of ip b.pods ≡ some 0 =
      ap (index_of ip) starts ∙ rw (index_of, same_ip_refl ip) refl in
    rw (remove_pod, at) refl
