-- ===== src/Base/Split.antt =====
-- `strings.Join`, `strings.Split` and `strings.Contains` of Go, for a separator of one byte.
use Prim.Native.Nat.{ℕ, ◌≤◌, ◌<◌}
use mathlib.Core.Path.{◌≡◌, refl, ap, sym, ◌∙◌}
use mathlib.Core.Logic.{inl, inr}
use mathlib.Core.Bool.{Bool, true, false}
use mathlib.Core.List.{List, [], ◌∷◌, ◌++◌}
use native.Mathlib.Omega.{arith}
use riak_mesos_legacy.Base.Tests.{◌==◌, Bool-cases, if◌then◌else◌}
use riak_mesos_legacy.Base.Lists.{All}
use riak_mesos_legacy.Base.Text.{Text, itoa, itoa-digits}

unfoldable pub contains : ℕ → Text → Bool
contains c [] = false
contains c (x ∷ s) = if x == c then true else contains c s

unfoldable pub join : ℕ → List Text → Text
join c [] = []
join c (s ∷ []) = s
join c (s ∷ t ∷ l) = s ++ c ∷ join c (t ∷ l)

-- The first byte of the first part.
abbrev prepend : ℕ → List Text → List Text
prepend x [] = (x ∷ []) ∷ []
prepend x (p ∷ ps) = (x ∷ p) ∷ ps

unfoldable pub split : ℕ → Text → List Text
split c [] = [] ∷ []
split c (x ∷ s) = let rest = split c s in if x == c then [] ∷ rest else prepend x rest

-- The text has no separator.
abbrev pub Plain : ℕ → Text → Type 0
Plain c s = contains c s ≡ false

pub split-Plain : (c : ℕ) (s : Text) → Plain c s → split c s ≡ s ∷ []
unfolding split contains
split-Plain c [] h = refl
split-Plain c (x ∷ s) h = ground (arith, split-Plain c s)

pub split-append : (c : ℕ) (s t : Text) → Plain c s → split c (s ++ c ∷ t) ≡ s ∷ split c t
unfolding split contains
split-append c [] t h = ground arith
split-append c (x ∷ s) t h = ground (arith, split-append c s t)

-- What is joined is split again.
pub split-join :
    (c : ℕ) (s : Text) (l : List Text) → All (Plain c) (s ∷ l) → split c (join c (s ∷ l)) ≡ s ∷ l
unfolding join
split-join c s [] h = split-Plain c s h.0
split-join c s (t ∷ l) h =
    split-append c s (join c (t ∷ l)) h.0 ∙ ap (λ r. s ∷ r) (split-join c t l h.1)

contains-middle : (c : ℕ) (s t : Text) → contains c (s ++ c ∷ t) ≡ true
unfolding contains
contains-middle c [] t = ground arith
contains-middle c (x ∷ s) t = ground (arith, contains-middle c s t)

-- What stands before the last separator is determined.
pub last_part_inj :
    (c : ℕ) (s t u w : Text) → Plain c u → Plain c w → s ++ c ∷ u ≡ t ++ c ∷ w → s ≡ t
unfolding contains
last_part_inj c [] [] u w h k e = refl
last_part_inj c [] (x ∷ t) u w h k e = absurd (cc (contains-middle c t w, h, e))
last_part_inj c (x ∷ s) [] u w h k e = absurd (cc (contains-middle c s u, k, e))
last_part_inj c (x ∷ s) (y ∷ t) u w h k e =
    let tails : s ++ c ∷ u ≡ t ++ c ∷ w = cc e in cc (last_part_inj c s t u w h k tails, e)

above-Plain : (c b : ℕ) (s : Text) → c < b → All (λ d. b ≤ d) s → Plain c s
unfolding contains
above-Plain c b [] lt h = refl
above-Plain c b (x ∷ s) lt h = ground (arith, above-Plain c b s lt h.1)

-- A decimal has no byte below the digits.
pub itoa-Plain : (c n : ℕ) → c < b'0' → Plain c (itoa n)
itoa-Plain c n lt = above-Plain c b'0' (itoa n) lt (itoa-digits n)

-- A text has a first part.
split-cons : (c : ℕ) (s : Text) → (p : Text) × (ps : List Text) × (split c s ≡ p ∷ ps)
unfolding split
split-cons c [] = ([], [], refl)
split-cons c (x ∷ s) = elim (Bool-cases (x == c)) [
  | inl e ↦ ([], split c s, rw e refl)
  | inr e ↦ let (p, ps, f) = split-cons c s in (x ∷ p, ps, rw (e, f) refl)
]

join-cons :
    (c : ℕ) (p d : Text) (ps l : List Text)
    → join c (p ∷ (ps ++ d ∷ l)) ≡ p ++ c ∷ join c (ps ++ d ∷ l)
unfolding join
join-cons c p d [] l = refl
join-cons c p d (q ∷ ps) l = refl

-- Parts that are joined after those of a text stand after the text.
pub join-split :
    (c : ℕ) (s d : Text) (l : List Text) → join c (split c s ++ d ∷ l) ≡ s ++ c ∷ join c (d ∷ l)
unfolding split
join-split c [] d l = join-cons c [] d [] l
join-split c (x ∷ s) d l =
    let (p, ps, f) = split-cons c s in
    let rest : p ++ c ∷ join c (ps ++ d ∷ l) ≡ s ++ c ∷ join c (d ∷ l) =
      sym (join-cons c p d ps l) ∙ ap (λ r. join c (r ++ d ∷ l)) (sym f) ∙ join-split c s d l in
    elim (Bool-cases (x == c)) [
      | inl e ↦
          let same : c ≡ x = ground arith in
          rw (e, f)
            (join-cons c [] p [] (ps ++ d ∷ l)
              ∙ ap (λ r. c ∷ r) (join-cons c p d ps l ∙ rest)
              ∙ ap (λ y. y ∷ (s ++ c ∷ join c (d ∷ l))) same)
      | inr e ↦ rw (e, f) (join-cons c (x ∷ p) d ps l ∙ ap (λ r. x ∷ r) rest)
    ]
