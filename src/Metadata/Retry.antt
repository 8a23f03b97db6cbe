-- ===== src/Metadata/Retry.antt =====
-- Computations that talk to Zookeeper, and the shape of the loops of tries in
-- metadata_manager/manager.go.
pub mod Laws
use riak_mesos_legacy.Base.{ℕ, zero, suc}

-- A panic leaves the state behind.
pub data Ran (S A : Type 0) : Type 0 where
  returned : S → A → Ran S A
  panicked : S → Ran S A

abbrev pub Action : Type 0 → Type 0 → Type 0
Action S A = S → Ran S A

abbrev pub pure : {S A : Type 0} → A → Action S A
pure a s = returned s a

abbrev pub panic : {S A : Type 0} → Action S A
panic s = panicked s

infixl 5 ◌>>=◌ ◌>>◌
abbrev pub ◌>>=◌ : {S A B : Type 0} → Action S A → (A → Action S B) → Action S B
◌>>=◌ m f s = elim (m s) [ returned s' a ↦ f a s' | panicked s' ↦ panicked s' ]

abbrev pub ◌>>◌ : {S A B : Type 0} → Action S A → Action S B → Action S B
m >> k = m >>= λ _. k

-- A call that does not panic.
abbrev pub call : {S A : Type 0} → (S → S × A) → Action S A
call f s = let (s', a) = f s in returned s' a

-- How one try ends: with a result, or with an error and what the next try starts from.
pub data Try (E X A : Type 0) : Type 0 where
  succeeded : A → Try E X A
  failed : E → X → Try E X A

-- A function that tries, and on an error gives up if `currentRetry >= retry`, and otherwise recovers
-- and calls itself with `currentRetry + 1`. The number is `retry - currentRetry`.
unfoldable pub with_retry :
    {S E X A : Type 0}
    → (X → Action S (Try E X A))
    → Action S (Unit {0})
    → (E → Action S A)
    → ℕ
    → X
    → Action S A
with_retry attempt recover give_up zero x s = elim (attempt x s) [
  | returned s' (succeeded a) ↦ returned s' a
  | returned s' (failed e x') ↦ give_up e s'
  | panicked s' ↦ panicked s'
]
with_retry attempt recover give_up (suc n) x s = elim (attempt x s) [
  | returned s' (succeeded a) ↦ returned s' a
  | returned s' (failed e x') ↦ elim (recover s') [
    | returned s'' _ ↦ with_retry attempt recover give_up n x' s''
    | panicked s'' ↦ panicked s''
  ]
  | panicked s' ↦ panicked s'
]
