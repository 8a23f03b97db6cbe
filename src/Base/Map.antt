-- ===== src/Base/Map.antt =====
-- Go maps with string keys, as association lists; the list's order is the order of iteration.
use mathlib.Core.Path.{◌≡◌, refl, sym, ap, ◌∙◌, subst}
use mathlib.Core.Logic.{◌≢◌, inl, inr}
use mathlib.Core.Bool.{Bool, true, false}
use mathlib.Core.Option.{Option, none, some}
use mathlib.Core.List.{List, [], ◌∷◌}
use Prim.Native.Nat.{suc}
use native.Mathlib.Omega.{arith}
use riak_mesos_legacy.Base.Tests.{if◌then◌else◌, Bool-cases}
use riak_mesos_legacy.Base.Lists.{All, length}
use riak_mesos_legacy.Base.Text.{Text, text_eq, text_eq_iff, text_eq_refl}

abbrev pub Map {ℓ} : Type ℓ → Type ℓ
Map V = List (Text × V)

-- No entry has this key.
abbrev pub Fresh {ℓ} : {V : Type ℓ} → Text → Map V → Type 0
Fresh k [] = Unit {0}
Fresh k ((j, v) ∷ m) = (j ≢ k) × Fresh k m

-- Every key stands once.
abbrev pub UniqueKeys {ℓ} : {V : Type ℓ} → Map V → Type 0
UniqueKeys [] = Unit {0}
UniqueKeys ((k, v) ∷ m) = Fresh k m × UniqueKeys m

module _ {ℓ} {V : Type ℓ} where
  unfoldable pub lookup : Text → Map V → Option V
  lookup k [] = none
  lookup k ((j, v) ∷ m) = if text_eq j k then some v else lookup k m

  -- `m[k] = v`: in place, or at the end.
  unfoldable pub insert : Text → V → Map V → Map V
  insert k v [] = (k, v) ∷ []
  insert k v ((j, w) ∷ m) = if text_eq j k then (k, v) ∷ m else (j, w) ∷ insert k v m

  -- `delete(m, k)`.
  unfoldable pub erase : Text → Map V → Map V
  erase k [] = []
  erase k ((j, w) ∷ m) = if text_eq j k then erase k m else (j, w) ∷ erase k m

  -- `_, found := m[k]`.
  unfoldable pub has : Text → Map V → Bool
  has k [] = false
  has k ((j, v) ∷ m) = if text_eq j k then true else has k m

  pub lookup-insert :
      (k j : Text) (v : V) (m : Map V)
      → lookup j (insert k v m) ≡ (if text_eq k j then some v else lookup j m)
  unfolding lookup insert
  lookup-insert k j v [] = refl
  lookup-insert k j v ((i, w) ∷ m) =
      ground (arith, text_eq_iff k j, text_eq_iff i k, text_eq_iff i j, lookup-insert k j v m)

  pub lookup-insert_self : (k : Text) (v : V) (m : Map V) → lookup k (insert k v m) ≡ some v
  lookup-insert_self k v m =
      lookup-insert k k v m ∙ ap (λ b. if b then some v else lookup k m) (text_eq_refl k)

  pub lookup-erase :
      (k j : Text) (m : Map V) → lookup j (erase k m) ≡ (if text_eq k j then none else lookup j m)
  unfolding lookup erase
  lookup-erase k j [] = ground arith
  lookup-erase k j ((i, w) ∷ m) =
      ground (arith, text_eq_iff k j, text_eq_iff i k, text_eq_iff i j, lookup-erase k j m)

  pub has-Fresh : (k : Text) (m : Map V) → Fresh k m → has k m ≡ false
  unfolding has
  has-Fresh k [] f = refl
  has-Fresh k ((j, v) ∷ m) f = ground (arith, text_eq_iff j k, has-Fresh k m f.1)

  pub lookup-Fresh : (k : Text) (m : Map V) → Fresh k m → lookup k m ≡ none
  unfolding lookup
  lookup-Fresh k [] f = refl
  lookup-Fresh k ((j, v) ∷ m) f = ground (arith, text_eq_iff j k, lookup-Fresh k m f.1)

  pub has-lookup : (k : Text) (m : Map V) (v : V) → lookup k m ≡ some v → has k m ≡ true
  unfolding has lookup
  has-lookup k [] v h = cc
  has-lookup k ((j, w) ∷ m) v h = ground (arith, has-lookup k m v)

  pub lookup-has : (k : Text) (m : Map V) → has k m ≡ true → (v : V) × (lookup k m ≡ some v)
  unfolding has lookup
  lookup-has k [] h = absurd (cc h)
  lookup-has k ((j, w) ∷ m) h = elim (Bool-cases (text_eq j k)) [
    | inl e ↦ (w, rw e)
    | inr e ↦ rw e (lookup-has k m (rw e at h))
  ]

  pub length-insert-Fresh :
      (k : Text) (v : V) (m : Map V) → Fresh k m → length (insert k v m) ≡ suc (length m)
  unfolding insert
  length-insert-Fresh k v [] f = refl
  length-insert-Fresh k v ((j, w) ∷ m) f =
      ground (arith, text_eq_iff j k, length-insert-Fresh k v m f.1)

  pub length-insert-has :
      (k : Text) (v : V) (m : Map V) → has k m ≡ true → length (insert k v m) ≡ length m
  unfolding insert has
  length-insert-has k v [] h = cc
  length-insert-has k v ((j, w) ∷ m) h = ground (arith, length-insert-has k v m)

  pub length-erase-Fresh : (k : Text) (m : Map V) → Fresh k m → length (erase k m) ≡ length m
  unfolding erase
  length-erase-Fresh k [] f = refl
  length-erase-Fresh k ((j, w) ∷ m) f = ground (arith, text_eq_iff j k, length-erase-Fresh k m f.1)

  pub Fresh-subst : {j k : Text} (m : Map V) → j ≡ k → Fresh j m → Fresh k m
  Fresh-subst m e f = rw (← e) f

  pub length-erase :
      (k : Text) (m : Map V) → UniqueKeys m → has k m ≡ true → suc (length (erase k m)) ≡ length m
  unfolding erase has
  length-erase k [] u h = cc
  length-erase k ((j, w) ∷ m) u h = ground (
    arith,
    text_eq_iff j k,
    length-erase k m u.1,
    λ (e : j ≡ k). length-erase-Fresh k m (Fresh-subst m e u.0),
  )

  pub Fresh-insert : (i k : Text) (v : V) (m : Map V) → k ≢ i → Fresh i m → Fresh i (insert k v m)
  unfolding insert
  Fresh-insert i k v [] n f = (n, tt)
  Fresh-insert i k v ((j, w) ∷ m) n f = elim (Bool-cases (text_eq j k)) [
    | inl e ↦ rw e (n, f.1)
    | inr e ↦ rw e (f.0, Fresh-insert i k v m n f.1)
  ]

  pub Fresh-erase : (i k : Text) (m : Map V) → Fresh i m → Fresh i (erase k m)
  unfolding erase
  Fresh-erase i k [] f = tt
  Fresh-erase i k ((j, w) ∷ m) f = elim (Bool-cases (text_eq j k)) [
    | inl e ↦ rw e (Fresh-erase i k m f.1)
    | inr e ↦ rw e (f.0, Fresh-erase i k m f.1)
  ]

  pub Fresh-erase_self : (k : Text) (m : Map V) → Fresh k (erase k m)
  unfolding erase
  Fresh-erase_self k [] = tt
  Fresh-erase_self k ((j, w) ∷ m) = elim (Bool-cases (text_eq j k)) [
    | inl e ↦ rw e (Fresh-erase_self k m)
    | inr e ↦ rw e ((λ p. cc (rw (p, text_eq_refl k) at e)), Fresh-erase_self k m)
  ]

  pub UniqueKeys-insert : (k : Text) (v : V) (m : Map V) → UniqueKeys m → UniqueKeys (insert k v m)
  unfolding insert
  UniqueKeys-insert k v [] u = (tt, tt)
  UniqueKeys-insert k v ((j, w) ∷ m) u = elim (Bool-cases (text_eq j k)) [
    | inl e ↦ rw e (Fresh-subst m ((text_eq_iff j k).0 e) u.0, u.1)
    | inr e ↦ rw e (
      Fresh-insert j k v m (λ p. cc (rw (sym p, text_eq_refl k) at e)) u.0,
      UniqueKeys-insert k v m u.1,
    )
  ]

  pub UniqueKeys-erase : (k : Text) (m : Map V) → UniqueKeys m → UniqueKeys (erase k m)
  unfolding erase
  UniqueKeys-erase k [] u = tt
  UniqueKeys-erase k ((j, w) ∷ m) u = elim (Bool-cases (text_eq j k)) [
    | inl e ↦ rw e (UniqueKeys-erase k m u.1)
    | inr e ↦ rw e (Fresh-erase j k m u.0, UniqueKeys-erase k m u.1)
  ]

  module _ {κ} (P : Text × V → Type κ) where
    pub All-insert : (k : Text) (v : V) (m : Map V) → P (k, v) → All P m → All P (insert k v m)
    unfolding insert
    All-insert k v [] p h = (p, tt)
    All-insert k v ((j, w) ∷ m) p h = elim (Bool-cases (text_eq j k)) [
      | inl e ↦ rw e (p, h.1)
      | inr e ↦ rw e (h.0, All-insert k v m p h.1)
    ]

    pub All-erase : (k : Text) (m : Map V) → All P m → All P (erase k m)
    unfolding erase
    All-erase k [] h = tt
    All-erase k ((j, w) ∷ m) h = elim (Bool-cases (text_eq j k)) [
      | inl e ↦ rw e (All-erase k m h.1)
      | inr e ↦ rw e (h.0, All-erase k m h.1)
    ]

    pub All-lookup : (k : Text) (m : Map V) (v : V) → lookup k m ≡ some v → All P m → P (k, v)
    unfolding lookup
    All-lookup k [] v e h = absurd (cc e)
    All-lookup k ((j, w) ∷ m) v e h = elim (Bool-cases (text_eq j k)) [
      | inl t ↦
          let same : some w ≡ some v = rw t at e in
          let value : w ≡ v = cc in
          subst (λ x. P (x, v)) ((text_eq_iff j k).0 t) (subst (λ y. P (j, y)) value h.0)
      | inr t ↦ All-lookup k m v (rw t at e) h.1
    ]
