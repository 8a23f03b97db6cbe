-- ===== src/Common/Ranges/RoundTrip.antt =====
-- ArrayToRanges and RangesToArray (common/utils.go) undo one another.
use riak_mesos_legacy.Base.{
  ℕ, zero, suc, ◌+◌, ◌-◌, ◌^◌, ◌≡◌, refl, ap, ◌∙◌, inl, inr, true, false, List, [], ◌∷◌, ◌++◌, map,
  some, arith, All, Bool-cases,
}
use riak_mesos_legacy.Common.Ranges.{
  u64, less, sort, extend_ranges, fakeret, to_value_range, array_to_ranges, fill, range_to_array,
  ranges_to_array,
}
use riak_mesos_legacy.Common.Ranges.Sorted.{
  IsSmall, Above, Ascending, Distinct, less-ltb, All-sort, sort-Ascending,
}

-- `n` numbers from `a` on.
iota : ℕ → ℕ → List ℕ
iota a zero = []
iota a (suc n) = a ∷ iota (a + 1) n

iota-suc : (a n : ℕ) (l : List ℕ) → iota a (suc n) ++ l ≡ iota a n ++ (a + n) ∷ l
unfolding iota
iota-suc a zero l = ap (λ k. k ∷ l) (omega arith)
iota-suc a (suc n) l =
    ap (λ r. a ∷ r) (iota-suc (a + 1) n l ∙ ap (λ k. iota (a + 1) n ++ k ∷ l) (omega arith))

fill-iota : (n a b : ℕ) → a + n ≡ b + 1 → IsSmall b → fill n a b ≡ some (iota a n)
unfolding fill iota
fill-iota zero a b e s = ground arith
fill-iota (suc n) a b e s = ground (arith, fill-iota n (a + 1) b)

range_to_array-iota :
    (a n b : ℕ)
    → a + n ≡ b
    → IsSmall b
    → range_to_array (to_value_range (a, b)) ≡ some (iota a (suc n))
unfolding range_to_array
range_to_array-iota a n b e s =
    let size : u64 (b + 2 ^ 64 - a + 1) ≡ suc n = omega arith in
    rw size (ground (arith, fill-iota (suc n) a b))

extend_ranges-true :
    (lo hi val : ℕ) (l : List ℕ)
    → less (u64 (hi + 1)) val ≡ true
    → extend_ranges lo hi (val ∷ l) ≡ (lo, hi) ∷ extend_ranges val val l
unfolding extend_ranges
extend_ranges-true lo hi val l t = ground arith

extend_ranges-false :
    (lo hi val : ℕ) (l : List ℕ)
    → less (u64 (hi + 1)) val ≡ false
    → extend_ranges lo hi (val ∷ l) ≡ extend_ranges lo val l
unfolding extend_ranges
extend_ranges-false lo hi val l t = ground arith

extend_ranges-nil : (lo hi : ℕ) → extend_ranges lo hi [] ≡ (lo, hi) ∷ []
unfolding extend_ranges
extend_ranges-nil lo hi = refl

-- The loop reads back as the open range followed by what it has still to read.
extend_ranges_lem :
    (lo n hi : ℕ) (l : List ℕ)
    → lo + n ≡ hi
    → IsSmall hi
    → All IsSmall l
    → Above hi l
    → ranges_to_array (map to_value_range (extend_ranges lo hi l)) ≡ some (iota lo (suc n) ++ l)
unfolding ranges_to_array
extend_ranges_lem lo n hi [] e s ss h =
    rw (extend_ranges-nil lo hi) (rw (range_to_array-iota lo n hi e s) refl)
extend_ranges_lem lo n hi (val ∷ l) e s ss h = elim (Bool-cases (less (u64 (hi + 1)) val)) [
  | inl t ↦ rw (extend_ranges-true lo hi val l t) (
      rw (range_to_array-iota lo n hi e s)
        (rw (extend_ranges_lem val 0 val l (omega arith) ss.0 ss.1 h.1) (unfold iota in refl)))
  | inr t ↦
      let next : lo + suc n ≡ val = ground (arith, less-ltb (hi + 1) val) in
      rw (extend_ranges-false lo hi val l t) (
        extend_ranges_lem lo (suc n) val l next ss.0 ss.1 h.1
        ∙ ap some (iota-suc lo (suc n) l ∙ ap (λ k. iota lo (suc n) ++ k ∷ l) next))
]

ranges_lem :
    (l : List ℕ)
    → All IsSmall l
    → Ascending l
    → ranges_to_array (map to_value_range (fakeret l)) ≡ some l
unfolding fakeret
ranges_lem [] s h = unfold ranges_to_array in refl
ranges_lem (a ∷ l) s h =
    let same : less (u64 (a + 1)) a ≡ false = ground (arith, less-ltb (a + 1) a) in
    rw (extend_ranges-false a a a l same)
      (extend_ranges_lem a 0 a l (omega arith) s.0 s.1 h ∙ unfold iota in refl)

-- Distinct ports, all below the largest int64, come back sorted from the ranges that
-- ArrayToRanges makes of them, with no panic.
pub ranges_to_array-array_to_ranges :
    (ports : List ℕ)
    → All IsSmall ports
    → Distinct ports
    → ranges_to_array (array_to_ranges ports) ≡ some (sort ports)
unfolding array_to_ranges
ranges_to_array-array_to_ranges ports s d =
    ranges_lem (sort ports) (All-sort IsSmall ports s) (sort-Ascending ports s d)
