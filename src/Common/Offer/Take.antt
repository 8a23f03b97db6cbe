-- ===== src/Common/Offer/Take.antt =====
-- The ports that OfferHelper.apply takes from a group (common/offer.go).
use mathlib.Core.List.{Perm, append_assoc, perm_append_comm}
use mathlib.Core.List.Perm
use riak_mesos_legacy.Base.{
  ℕ, zero, suc, ◌+◌, ◌-◌, ◌<◌, ◌≤◌, ◌≡◌, ◌≢◌, refl, subst, ap, ◌∙◌, inl, inr, List, [], ◌∷◌, ◌++◌,
  some, arith, All, Bool-cases, ltb, length, take, drop, take-append-drop, length-take, length-drop,
}
use riak_mesos_legacy.Common.Ranges.Sorted.{IsSmall, Distinct}
use riak_mesos_legacy.Common.Offer.{Intn, slice_loc, take_ports}

-- What `rand.Intn` promises.
abbrev pub IsIntn : Intn → Type 0
IsIntn intn = (n : ℕ) → 0 < n → intn n < n

slice_loc-le : (intn : Intn) → IsIntn intn → (len n : ℕ) → n ≤ len → slice_loc intn len n + n ≤ len
unfolding slice_loc
slice_loc-le intn h len n le = ground (arith, h (len - n))

module _ {ℓ} {A : Type ℓ} where
  drop-nil : (n : ℕ) → drop {A = A} n [] ≡ []
  drop-nil zero = refl
  drop-nil (suc n) = refl

  drop-drop : (m n : ℕ) (xs : List A) → drop n (drop m xs) ≡ drop (m + n) xs
  drop-drop zero n xs = ap (λ j. drop j xs) (omega arith)
  drop-drop (suc m) n [] = rw (drop-nil n, drop-nil (suc m + n))
  drop-drop (suc m) n (x ∷ xs) =
      let e : suc (m + n) ≡ suc m + n = omega arith in
      drop-drop m n xs ∙ ap (λ j. drop j (x ∷ xs)) e

  -- A window moved to the front.
  window-perm :
      (loc n : ℕ) (xs : List A)
      → Perm (take n (drop loc xs) ++ (take loc xs ++ drop (loc + n) xs)) xs
  window-perm loc n xs = subst (Perm _) whole (
      rw (← append_assoc, ← append_assoc)
        (Perm.append (perm_append_comm (take n (drop loc xs)) (take loc xs))
          (Perm.refl (drop (loc + n) xs))))
    where
      whole : take loc xs ++ (take n (drop loc xs) ++ drop (loc + n) xs) ≡ xs
      whole = rw (← drop-drop loc n xs, take-append-drop n (drop loc xs), take-append-drop loc xs)

-- The ports taken are as many as asked for, and with those left they are the ports there were.
pub take_ports_lem :
    (intn : Intn) (ps : List ℕ) (n : ℕ) {taking leaving : List ℕ}
    → IsIntn intn
    → take_ports intn ps n ≡ some (taking, leaving)
    → Perm (taking ++ leaving) ps × (length taking ≡ n)
unfolding take_ports
take_ports_lem intn ps n {taking} {leaving} h e = elim (Bool-cases (ltb (length ps) n)) [
  | inl few ↦ absurd (ground arith)
  | inr enough ↦
      let loc = slice_loc intn (length ps) n in
      let le : loc + n ≤ length ps = slice_loc-le intn h (length ps) n (ground arith) in
      let t : take n (drop loc ps) ≡ taking = ground arith in
      let l : take loc ps ++ drop (loc + n) ps ≡ leaving = ground arith in
      rw (← t, ← l)
        (window-perm loc n ps, omega (arith, length-take n (drop loc ps), length-drop loc ps))
]

module _ (P : ℕ → Type 0) where
  All-take : (n : ℕ) (l : List ℕ) → All P l → All P (take n l)
  All-take zero l h = tt
  All-take (suc n) [] h = tt
  All-take (suc n) (x ∷ l) h = (h.0, All-take n l h.1)

  All-drop : (n : ℕ) (l : List ℕ) → All P l → All P (drop n l)
  All-drop zero l h = h
  All-drop (suc n) [] h = tt
  All-drop (suc n) (x ∷ l) h = All-drop n l h.1

Distinct-take : (n : ℕ) (l : List ℕ) → Distinct l → Distinct (take n l)
Distinct-take zero l d = tt
Distinct-take (suc n) [] d = tt
Distinct-take (suc n) (x ∷ l) d = (All-take (λ y. x ≢ y) n l d.0, Distinct-take n l d.1)

Distinct-drop : (n : ℕ) (l : List ℕ) → Distinct l → Distinct (drop n l)
Distinct-drop zero l d = d
Distinct-drop (suc n) [] d = tt
Distinct-drop (suc n) (x ∷ l) d = Distinct-drop n l d.1

-- The ports taken are a window of the group's.
pub take_ports-window :
    (intn : Intn) (ps : List ℕ) (n : ℕ) {taking leaving : List ℕ}
    → take_ports intn ps n ≡ some (taking, leaving)
    → All IsSmall ps
    → Distinct ps
    → All IsSmall taking × Distinct taking
unfolding take_ports
take_ports-window intn ps n {taking} {leaving} e s d = elim (Bool-cases (ltb (length ps) n)) [
  | inl few ↦ absurd (ground arith)
  | inr enough ↦
      let loc = slice_loc intn (length ps) n in
      let t : take n (drop loc ps) ≡ taking = ground arith in
      rw (← t) (
        All-take IsSmall n (drop loc ps) (All-drop IsSmall loc ps s),
        Distinct-take n (drop loc ps) (Distinct-drop loc ps d),
      )
]

-- No panic while there are enough ports.
pub take_ports-some :
    (intn : Intn) (ps : List ℕ) (n : ℕ)
    → n ≤ length ps
    → (t : List ℕ × List ℕ) × (take_ports intn ps n ≡ some t)
unfolding take_ports
take_ports-some intn ps n le =
    let loc = slice_loc intn (length ps) n in
    ((take n (drop loc ps), take loc ps ++ drop (loc + n) ps), ground arith)
