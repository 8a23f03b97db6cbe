-- ===== src/Common/Ranges/Sorted.antt =====
-- The sort of ArrayToRanges (common/utils.go).
use mathlib.Core.List.{Perm}
use mathlib.Core.List.Perm
use riak_mesos_legacy.Base.{
  ℕ, suc, refl, ap, ◌∙◌, length, ◌+◌, ◌<◌, ◌^◌, ◌≡◌, ◌≢◌, inl, inr, List, [], ◌∷◌, arith, All,
  Bool-cases, ltb,
}
use riak_mesos_legacy.Common.Ranges.{less, insert_sorted, sort}

-- Below the largest int64, so that the next number is an int64 too and not negative.
abbrev pub IsSmall : ℕ → Type 0
IsSmall a = a + 1 < 2 ^ 63

-- Strictly ascending, and above `a`.
abbrev pub Above : ℕ → List ℕ → Type 0
Above a [] = Unit {0}
Above a (b ∷ l) = (a < b) × Above b l

abbrev pub Ascending : List ℕ → Type 0
Ascending [] = Unit {0}
Ascending (a ∷ l) = Above a l

abbrev pub Distinct : List ℕ → Type 0
Distinct [] = Unit {0}
Distinct (a ∷ l) = All (λ b. a ≢ b) l × Distinct l

pub less-ltb : (a b : ℕ) → a < 2 ^ 63 → b < 2 ^ 63 → less a b ≡ ltb a b
unfolding less
less-ltb a b ha hb = ground arith

insert_sorted-perm : (a : ℕ) (l : List ℕ) → Perm (insert_sorted a l) (a ∷ l)
unfolding insert_sorted
insert_sorted-perm a [] = Perm.refl (a ∷ [])
insert_sorted-perm a (b ∷ l) = elim (Bool-cases (less b a)) [
  | inl e ↦ rw e (Perm.trans (Perm.cons b (insert_sorted-perm a l)) (Perm.swap a b l))
  | inr e ↦ rw e (Perm.refl (a ∷ b ∷ l))
]

-- Sorting only reorders.
pub sort-perm : (l : List ℕ) → Perm (sort l) l
unfolding sort
sort-perm [] = Perm.refl []
sort-perm (a ∷ l) = Perm.trans (insert_sorted-perm a (sort l)) (Perm.cons a (sort-perm l))

length-insert_sorted : (a : ℕ) (l : List ℕ) → length (insert_sorted a l) ≡ suc (length l)
unfolding insert_sorted
length-insert_sorted a [] = refl
length-insert_sorted a (b ∷ l) = ground (arith, length-insert_sorted a l)

pub length-sort : (l : List ℕ) → length (sort l) ≡ length l
unfolding sort
length-sort [] = refl
length-sort (a ∷ l) = length-insert_sorted a (sort l) ∙ ap suc (length-sort l)

module _ (P : ℕ → Type 0) where
  All-insert_sorted : (a : ℕ) (l : List ℕ) → P a → All P l → All P (insert_sorted a l)
  unfolding insert_sorted
  All-insert_sorted a [] p h = (p, tt)
  All-insert_sorted a (b ∷ l) p h = elim (Bool-cases (less b a)) [
    | inl e ↦ rw e (h.0, All-insert_sorted a l p h.1)
    | inr e ↦ rw e (p, h)
  ]

  pub All-sort : (l : List ℕ) → All P l → All P (sort l)
  unfolding sort
  All-sort [] h = tt
  All-sort (a ∷ l) h = All-insert_sorted a (sort l) h.0 (All-sort l h.1)

insert_sorted-Above :
    (c a : ℕ) (l : List ℕ)
    → c < a
    → IsSmall a
    → All IsSmall l
    → All (λ b. a ≢ b) l
    → Above c l
    → Above c (insert_sorted a l)
unfolding insert_sorted
insert_sorted-Above c a [] lt s ss n h = (lt, tt)
insert_sorted-Above c a (b ∷ l) lt s ss n h = elim (Bool-cases (less b a)) [
  | inl e ↦
      let lower : b < a = ground (arith, less-ltb b a) in
      rw e (h.0, insert_sorted-Above b a l lower s ss.1 n.1 h.1)
  | inr e ↦ let higher : a < b = ground (arith, less-ltb b a) in rw e (lt, (higher, h.1))
]

insert_sorted-Ascending :
    (a : ℕ) (l : List ℕ)
    → IsSmall a
    → All IsSmall l
    → All (λ b. a ≢ b) l
    → Ascending l
    → Ascending (insert_sorted a l)
unfolding insert_sorted
insert_sorted-Ascending a [] s ss n h = tt
insert_sorted-Ascending a (b ∷ l) s ss n h = elim (Bool-cases (less b a)) [
  | inl e ↦
      let lower : b < a = ground (arith, less-ltb b a) in
      rw e (insert_sorted-Above b a l lower s ss.1 n.1 h)
  | inr e ↦ let higher : a < b = ground (arith, less-ltb b a) in rw e (higher, h)
]

pub sort-Ascending : (l : List ℕ) → All IsSmall l → Distinct l → Ascending (sort l)
unfolding sort
sort-Ascending [] s d = tt
sort-Ascending (a ∷ l) s d =
    insert_sorted-Ascending a (sort l) s.0 (All-sort IsSmall l s.1) (All-sort (λ b. a ≢ b) l d.0)
      (sort-Ascending l s.1 d.1)
