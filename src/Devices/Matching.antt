-- ===== src/Devices/Matching.antt =====
-- The comparison of ports (agent/internal/agent/expectations_api.go).
use infracheck_appliance.Base.{
  ℕ, suc, ◌≤◌, true, false, List, [], ◌∷◌, ◌≡◌, ◌↔◌, refl, sym, ◌∙◌, arith, All, length,
  if◌then◌else◌, Bool-cases, inl, inr,
}
use infracheck_appliance.Base.Int.{ℤ, ltb_ℤ, eq_ℤ}
use infracheck_appliance.Base.Sort.{put_by, sort_with, sort_with-length, put_by-All}
use infracheck_appliance.Devices.Expected.{same_sorted, same_ints}

-- How often a number stands in a list.
abbrev pub count : ℤ → List ℤ → ℕ
count n [] = 0
count n (m ∷ ms) = if eq_ℤ n m then suc (count n ms) else count n ms

abbrev Sorted : List ℤ → Type 0
Sorted [] = Unit
Sorted (n ∷ ns) = All (λ m. ltb_ℤ m n ≡ false) ns × Sorted ns

put_by-count : (k n : ℤ) (ns : List ℤ) → count k (put_by ltb_ℤ n ns) ≡ count k (n ∷ ns)
unfolding put_by
put_by-count k n [] = refl
put_by-count k n (m ∷ ns) = ground (arith, put_by-count k n ns)

sort_with-count : (k : ℤ) (ns : List ℤ) → count k (sort_with ltb_ℤ ns) ≡ count k ns
unfolding sort_with
sort_with-count k [] = refl
sort_with-count k (n ∷ ns) =
    ground (arith, put_by-count k n (sort_with ltb_ℤ ns), sort_with-count k ns)

not_before :
    (m n : ℤ) (ns : List ℤ)
    → ltb_ℤ n m ≡ false
    → All (λ k. ltb_ℤ k n ≡ false) ns
    → All (λ k. ltb_ℤ k m ≡ false) ns
not_before m n [] h all = tt
not_before m n (k ∷ ns) h all = (ground (arith, h, all.0), not_before m n ns h all.1)

put_by-Sorted : (n : ℤ) (ns : List ℤ) → Sorted ns → Sorted (put_by ltb_ℤ n ns)
unfolding put_by
put_by-Sorted n [] h = (tt, tt)
put_by-Sorted n (m ∷ ns) h = elim (Bool-cases (ltb_ℤ m n)) [
  | inl below ↦ rw below (
    put_by-All ltb_ℤ (λ k. ltb_ℤ k m ≡ false) n ns (ground (arith, below)) h.0,
    put_by-Sorted n ns h.1,
  )
  | inr above ↦ rw above ((above, not_before n m ns above h.0), h)
]

sort_with-Sorted : (ns : List ℤ) → Sorted (sort_with ltb_ℤ ns)
unfolding sort_with
sort_with-Sorted [] = tt
sort_with-Sorted (n ∷ ns) = put_by-Sorted n (sort_with ltb_ℤ ns) (sort_with-Sorted ns)

-- A number that stands in a sorted list is not below its first.
counted-above :
    (k n : ℤ) (ns : List ℤ) → All (λ m. ltb_ℤ m n ≡ false) ns → 1 ≤ count k ns → ltb_ℤ k n ≡ false
counted-above k n [] all h = ground (arith, h)
counted-above k n (m ∷ ns) all h = ground (arith, h, all.0, counted-above k n ns all.1)

same_sorted-count :
    (a b : List ℤ) (k : ℤ) → length a ≡ length b → same_sorted a b ≡ true → count k a ≡ count k b
unfolding same_sorted
same_sorted-count [] [] k l h = refl
same_sorted-count [] (m ∷ b) k l h = ground (arith, l)
same_sorted-count (n ∷ a) [] k l h = ground (arith, h)
same_sorted-count (n ∷ a) (m ∷ b) k l h = ground (arith, h, l, same_sorted-count a b k)

count_self : (n : ℤ) (ns : List ℤ) → count n (n ∷ ns) ≡ suc (count n ns)
count_self n ns = ground arith

heads-equal :
    (n m : ℤ) (a b : List ℤ)
    → Sorted (n ∷ a)
    → Sorted (m ∷ b)
    → ((k : ℤ) → count k (n ∷ a) ≡ count k (m ∷ b))
    → eq_ℤ n m ≡ true
heads-equal n m a b sa sb h = ground (
  arith,
  h n,
  h m,
  count_self n a,
  count_self m b,
  counted-above n m b sb.0,
  counted-above m n a sa.0,
)

tails-equal :
    (n m : ℤ) (a b : List ℤ) (k : ℤ)
    → eq_ℤ n m ≡ true
    → count k (n ∷ a) ≡ count k (m ∷ b)
    → count k a ≡ count k b
tails-equal n m a b k same h = ground (arith, same, h)

count-same_sorted :
    (a b : List ℤ)
    → Sorted a
    → Sorted b
    → ((k : ℤ) → count k a ≡ count k b)
    → (same_sorted a b ≡ true) × (length a ≡ length b)
unfolding same_sorted
count-same_sorted [] [] sa sb h = (refl, refl)
count-same_sorted [] (m ∷ b) sa sb h = ground (arith, h m, count_self m b)
count-same_sorted (n ∷ a) [] sa sb h = ground (arith, h n, count_self n a)
count-same_sorted (n ∷ a) (m ∷ b) sa sb h =
    let same = heads-equal n m a b sa sb h in
    let rest = count-same_sorted a b sa.1 sb.1 (λ k. tails-equal n m a b k same (h k)) in
    ground (arith, same, rest.0, rest.1)

-- Two lists of ports are the same for the code exactly if every number stands equally often in both,
-- in whatever order.
pub same_ints_iff : (a b : List ℤ) → (same_ints a b ≡ true) ↔ ((k : ℤ) → count k a ≡ count k b)
unfolding same_ints
same_ints_iff a b = (
  (λ h k.
      sym (sort_with-count k a)
      ∙ same_sorted-count (sort_with ltb_ℤ a) (sort_with ltb_ℤ b) k
          (ground (arith, h, sort_with-length ltb_ℤ a, sort_with-length ltb_ℤ b))
          (ground (arith, h))
      ∙ sort_with-count k b),
  (λ h.
      let r =
        count-same_sorted (sort_with ltb_ℤ a) (sort_with ltb_ℤ b) (sort_with-Sorted a)
          (sort_with-Sorted b) (λ k. sort_with-count k a ∙ h k ∙ sym (sort_with-count k b)) in
      ground (arith, r.0, r.1, sort_with-length ltb_ℤ a, sort_with-length ltb_ℤ b)),
)
