-- ===== src/Base/Text.antt =====
-- Go strings: sequences of bytes.
use Prim.Native.Char.{code}
use Prim.Native.String.{String}
use Prim.Native.Nat.{ℕ, zero, suc, ◌+◌, ◌-◌, ◌*◌, ◌/◌, ◌%◌, ◌≤◌, ◌<◌}
use mathlib.Core.Path.{◌≡◌, refl, ap, ◌∙◌, sym}
use mathlib.Core.Logic.{◌↔◌, inl, inr}
use mathlib.Core.Bool.{Bool, true, false, ◌&&◌}
use mathlib.Core.List.{List, [], ◌∷◌, ◌++◌}
use native.Mathlib.Omega.{arith}
use riak_mesos_legacy.Base.Tests.{ltb, ◌==◌, Bool-cases, if◌then◌else◌}
use riak_mesos_legacy.Base.Lists.{All}

abbrev pub Text : Type 0
Text = List ℕ

-- The bytes of an ASCII literal.
abbrev pub codes : String → Text
codes String.[] = []
codes (String.◌∷◌ c s) = code c ∷ codes s

unfoldable pub text_eq : Text → Text → Bool
text_eq [] [] = true
text_eq [] (_ ∷ _) = false
text_eq (_ ∷ _) [] = false
text_eq (a ∷ s) (b ∷ t) = (a == b) && text_eq s t

pub text_eq_iff : (s t : Text) → (text_eq s t ≡ true) ↔ (s ≡ t)
unfolding text_eq
text_eq_iff [] [] = (λ _. refl, λ _. refl)
text_eq_iff [] (b ∷ t) = (λ h. cc, λ h. cc)
text_eq_iff (a ∷ s) [] = (λ h. cc, λ h. cc)
text_eq_iff (a ∷ s) (b ∷ t) = ground (arith, text_eq_iff s t)

pub text_eq_refl : (s : Text) → text_eq s s ≡ true
text_eq_refl s = (text_eq_iff s s).1 refl

pub append_cancel : (s : Text) {t u : Text} → s ++ t ≡ s ++ u → t ≡ u
append_cancel [] h = h
append_cancel (a ∷ s) h = append_cancel s (cc)

-- `%d` of a number that is not negative, most significant digit first, on fuel.
itoa_from : ℕ → ℕ → Text → Text
itoa_from zero n acc = acc
itoa_from (suc f) n acc =
    let rest = itoa_from f (n / 10) ((b'0' + n % 10) ∷ acc) in
    if ltb n 10 then (b'0' + n) ∷ acc else rest

-- The number has no more digits than its value, plus one.
unfoldable pub itoa : ℕ → Text
unfolding itoa_from
itoa n = itoa_from (suc n) n []

-- The value that a run of digits stands for, after a number already read.
value : ℕ → Text → ℕ
value n [] = n
value n (d ∷ s) = value (n * 10 + (d - b'0')) s

itoa_from_lem : (f n : ℕ) (acc : Text) → n < f → value 0 (itoa_from f n acc) ≡ value n acc
unfolding itoa_from value
itoa_from_lem zero n acc h = elim h [ ]
itoa_from_lem (suc f) n acc h = elim (Bool-cases (ltb n 10)) [
  | inl small ↦ rw small (ap (λ k. value k acc) (omega arith))
  | inr large ↦ rw large (
      itoa_from_lem f (n / 10) ((b'0' + n % 10) ∷ acc) (ground arith)
      ∙ ap (λ k. value k acc) (omega arith))
]

value-itoa : (n : ℕ) → value 0 (itoa n) ≡ n
unfolding itoa value
value-itoa n = itoa_from_lem (suc n) n [] (omega arith)

-- Different numbers have different decimals.
pub itoa_inj : {m n : ℕ} → itoa m ≡ itoa n → m ≡ n
itoa_inj {m} {n} e = sym (value-itoa m) ∙ ap (value 0) e ∙ value-itoa n

itoa_from-digits :
    (f n : ℕ) (acc : Text) → All (λ d. b'0' ≤ d) acc → All (λ d. b'0' ≤ d) (itoa_from f n acc)
unfolding itoa_from
itoa_from-digits zero n acc h = h
itoa_from-digits (suc f) n acc h = elim (Bool-cases (ltb n 10)) [
  | inl small ↦ rw small (omega arith, h)
  | inr large ↦ rw large (itoa_from-digits f (n / 10) ((b'0' + n % 10) ∷ acc) (omega arith, h))
]

pub itoa-digits : (n : ℕ) → All (λ d. b'0' ≤ d) (itoa n)
unfolding itoa
itoa-digits n = itoa_from-digits (suc n) n [] tt
