-- ===== src/Base/Along.antt =====
-- Two maps with the same keys in the same order, and related values under them.
use mathlib.Core.Path.{◌≡◌, refl, sym, ap, ◌∙◌}
use mathlib.Core.List.{[], ◌∷◌}
use Prim.Native.Nat.{suc}
use riak_mesos_legacy.Base.Lists.{All, length}
use riak_mesos_legacy.Base.Text.{Text}
use riak_mesos_legacy.Base.Map.{Map, Fresh, Fresh-subst, UniqueKeys}

module _ {ℓ} {V : Type ℓ} where
  abbrev pub Along : (V → V → Type 0) → Map V → Map V → Type 0
  Along R [] [] = Unit
  Along R [] (_ ∷ _) = ⊥
  Along R (_ ∷ _) [] = ⊥
  Along R ((k, v) ∷ m) ((k', v') ∷ m') = (k' ≡ k) × R v v' × Along R m m'

module _ {ℓ} {V : Type ℓ} (R : V → V → Type 0) where
  pub Along-length : (m m' : Map V) → Along R m m' → length m' ≡ length m
  Along-length [] [] r = refl
  Along-length [] (x ∷ m') r = absurd r
  Along-length (x ∷ m) [] r = absurd r
  Along-length ((k, v) ∷ m) ((k', v') ∷ m') r = ap suc (Along-length m m' r.2)

  pub Along-Fresh : (j : Text) (m m' : Map V) → Along R m m' → Fresh j m → Fresh j m'
  Along-Fresh j [] [] r f = tt
  Along-Fresh j [] (x ∷ m') r f = absurd r
  Along-Fresh j (x ∷ m) [] r f = absurd r
  Along-Fresh j ((k, v) ∷ m) ((k', v') ∷ m') r f =
      ((λ p. f.0 (sym r.0 ∙ p)), Along-Fresh j m m' r.2 f.1)

  pub Along-UniqueKeys : (m m' : Map V) → Along R m m' → UniqueKeys m → UniqueKeys m'
  Along-UniqueKeys [] [] r u = tt
  Along-UniqueKeys [] (x ∷ m') r u = absurd r
  Along-UniqueKeys (x ∷ m) [] r u = absurd r
  Along-UniqueKeys ((k, v) ∷ m) ((k', v') ∷ m') r u =
      (Fresh-subst m' (sym r.0) (Along-Fresh k m m' r.2 u.0), Along-UniqueKeys m m' r.2 u.1)

  -- What the relation carries over holds of the entries of the other map.
  pub Along-All {μ} :
      (P : Text × V → Type μ)
      → ((k : Text) (v v' : V) → R v v' → P (k, v) → P (k, v'))
      → (m m' : Map V) → Along R m m'
      → All P m
      → All P m'
  Along-All P f [] [] r h = tt
  Along-All P f [] (x ∷ m') r h = absurd r
  Along-All P f (x ∷ m) [] r h = absurd r
  Along-All P f ((k, v) ∷ m) ((k', v') ∷ m') r h =
      (rw r.0 (f k v v' r.1 h.0), Along-All P f m m' r.2 h.1)

-- Maps of values that are related to themselves.
pub Along-refl {ℓ} :
    {V : Type ℓ} (R : V → V → Type 0) → ((v : V) → R v v) → (m : Map V) → Along R m m
Along-refl R f [] = tt
Along-refl R f ((k, v) ∷ m) = (refl, f v, Along-refl R f m)
