-- ===== src/Framework/Names.antt =====
-- Which names of a framework are taken (framework/framework.go).
use riak_mesos_legacy.Base.{
  ℕ, suc, ◌≤◌, ◌≡◌, ◌↔◌, ◌⊎◌, inl, inr, refl, ap, true, [], ◌∷◌, arith, length, All, Bool-cases,
}
use riak_mesos_legacy.Base.Text.{Text, text_eq, text_eq_iff}
use riak_mesos_legacy.Framework.{is_letter, is_name_byte, longest_name, find_name, name_is_valid}

-- A letter, and then letters, digits, dashes and underscores.
abbrev pub IsFrameName : Text → Type 0
IsFrameName [] = ⊥
IsFrameName (c ∷ s) = (is_letter c ≡ true) × All (λ d. is_name_byte d ≡ true) s

longest_name-le : (s : Text) → length (longest_name s) ≤ length s
unfolding longest_name
longest_name-le [] = omega arith
longest_name-le (c ∷ s) = ground (arith, longest_name-le s)

find_name-le : (s : Text) → length (find_name s) ≤ length s
unfolding find_name
find_name-le [] = omega arith
find_name-le (c ∷ s) = ground (arith, find_name-le s, longest_name-le s)

longest_name-All : (s : Text) → longest_name s ≡ s → All (λ d. is_name_byte d ≡ true) s
unfolding longest_name
longest_name-All [] e = tt
longest_name-All (c ∷ s) e = elim (Bool-cases (is_name_byte c)) [
  | inl b ↦ (b, longest_name-All s (cc (rw (longest_name, b) at e)))
  | inr b ↦ absurd (cc (rw (longest_name, b) at e))
]

All-longest_name : (s : Text) → All (λ d. is_name_byte d ≡ true) s → longest_name s ≡ s
unfolding longest_name
All-longest_name [] h = refl
All-longest_name (c ∷ s) h = rw (longest_name, h.0) (ap (λ r. c ∷ r) (All-longest_name s h.1))

found_whole : (c : ℕ) (s : Text) → find_name (c ∷ s) ≡ c ∷ s → IsFrameName (c ∷ s)
unfolding find_name
found_whole c s e = elim (Bool-cases (is_letter c)) [
  | inl b ↦ (b, longest_name-All s (cc (rw (find_name, b) at e)))
  | inr b ↦
      let short : find_name s ≡ c ∷ s = rw (find_name, b) at e in
      let same : length (find_name s) ≡ suc (length s) = ap length short in
      absurd (omega (arith, find_name-le s, same))
]

whole_found : (s : Text) → IsFrameName s → find_name s ≡ s
unfolding find_name
whole_found [] h = absurd h
whole_found (c ∷ s) h = rw (find_name, h.0) (ap (λ r. c ∷ r) (All-longest_name s h.1))

-- The check takes the names that match the whole pattern, and the empty name.
pub name_is_valid_iff :
    (name : Text) → (name_is_valid name ≡ true) ↔ ((name ≡ []) ⊎ IsFrameName name)
unfolding name_is_valid find_name text_eq
name_is_valid_iff [] = ((λ h. inl refl), (λ h. refl))
name_is_valid_iff (c ∷ s) = (
  (λ h. inr (found_whole c s ((text_eq_iff (find_name (c ∷ s)) (c ∷ s)).0 h))),
  (λ h. elim h [
    | inl e ↦ absurd (cc e)
    | inr w ↦ (text_eq_iff (find_name (c ∷ s)) (c ∷ s)).1 (whole_found (c ∷ s) w)
  ]),
)
