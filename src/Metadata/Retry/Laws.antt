-- ===== src/Metadata/Retry/Laws.antt =====
-- How computations that may panic end, and how often the loops of metadata_manager/manager.go try.
use riak_mesos_legacy.Base.{
  ℕ, zero, suc, ◌≤◌, ◌≡◌, refl, ◌∙◌, ◌↔◌, ◌⊎◌, inl, inr, Option, none, some, arith,
}
use riak_mesos_legacy.Metadata.Retry.{
  Ran, returned, panicked, Action, panic, ◌>>=◌, Try, succeeded, failed, with_retry,
}

-- What holds where a computation returns, and where it panics.
pub data Ends {ℓ} {S A : Type 0} (ok : S → A → Type ℓ) (bad : S → Type ℓ) : Ran S A → Type ℓ where
  ends : {s : S} {a : A} → ok s a → Ends ok bad (returned s a)
  breaks : {s : S} → bad s → Ends ok bad (panicked s)

-- What holds where a try succeeds, and where it fails.
pub data Tried {ℓ} {E X A : Type 0} (good : A → Type ℓ) (again : X → Type ℓ)
    : Try E X A → Type ℓ where
  tried : {a : A} → good a → Tried good again (succeeded a)
  trying : {e : E} {x : X} → again x → Tried good again (failed e x)

module _ {ℓ} {S A B : Type 0} {mid : S → A → Type ℓ} {ok : S → B → Type ℓ} {bad : S → Type ℓ} where
  Ends-then :
      (r : Ran S A) (f : A → Action S B)
      → Ends mid bad r
      → ((s : S) (a : A) → mid s a → Ends ok bad (f a s))
      → Ends ok bad (elim r [ returned s a ↦ f a s | panicked s ↦ panicked s ])
  Ends-then (returned s a) f (ends h) k = k s a h
  Ends-then (panicked s) f (breaks h) k = breaks h

  pub Ends->>= :
      (m : Action S A) (f : A → Action S B) (s : S)
      → Ends mid bad (m s)
      → ((s' : S) (a : A) → mid s' a → Ends ok bad (f a s'))
      → Ends ok bad ((m >>= f) s)
  Ends->>= m f s h k = Ends-then (m s) f h k

pub Ends-weaken {ℓ κ} :
    {S A : Type 0} {ok : S → A → Type ℓ} {bad : S → Type ℓ} {ok' : S → A → Type κ}
    {bad' : S → Type κ} {r : Ran S A}
    → ((s : S) (a : A) → ok s a → ok' s a)
    → ((s : S) → bad s → bad' s)
    → Ends ok bad r
    → Ends ok' bad' r
Ends-weaken f g (ends h) = ends (f _ _ h)
Ends-weaken f g (breaks h) = breaks (g _ h)

-- A branch on whether there is an error.
pub Ends-Option {ℓ} :
    {S E A : Type 0} {ok : S → A → Type ℓ} {bad : S → Type ℓ} (x : Option E) (f : E → Action S A)
    (g : Action S A) (s : S)
    → ((e : E) → x ≡ some e → Ends ok bad (f e s))
    → (x ≡ none → Ends ok bad (g s))
    → Ends ok bad ((elim x as (λ _. Action S A) [ none ↦ g | some e ↦ f e ]) s)
Ends-Option none f g s h k = k refl
Ends-Option (some e) f g s h k = h e refl

Ends-Try {ℓ} :
    {S E X A : Type 0} {ok : S → A → Type ℓ} {bad : S → Type ℓ} {I : S → X → Type ℓ}
    (next : E → X → Action S A) (r : Ran S (Try E X A))
    → Ends (λ s. Tried (ok s) (I s)) bad r
    → ((s : S) (e : E) (x : X) → I s x → Ends ok bad (next e x s))
    → Ends ok bad (elim r [
      | returned s (succeeded a) ↦ returned s a
      | returned s (failed e x) ↦ next e x s
      | panicked s ↦ panicked s
    ])
Ends-Try next (returned s (succeeded a)) (ends (tried h)) k = ends h
Ends-Try next (returned s (failed e x)) (ends (trying h)) k = k s e x h
Ends-Try next (panicked s) (breaks h) k = breaks h

module _ {ℓ} {S E X A : Type 0} {ok : S → A → Type ℓ} {bad : S → Type ℓ}
    (attempt : X → Action S (Try E X A)) (recover : Action S (Unit {0}))
    (give_up : E → Action S A) where
  -- An invariant of the tries, from which each of the loop's ways to end follows.
  pub with_retry-Ends :
      (I : S → X → Type ℓ)
      → ((s : S) (x : X) → I s x → Ends (λ s'. Tried (ok s') (I s')) bad (attempt x s))
      → ((s : S) (x : X) → I s x → Ends (λ s' _. I s' x) bad (recover s))
      → ((s : S) (x : X) (e : E) → I s x → Ends ok bad (give_up e s))
      → (n : ℕ) (x : X) (s : S) → I s x
      → Ends ok bad (with_retry attempt recover give_up n x s)
  unfolding with_retry
  with_retry-Ends I a r g zero x s i = Ends-Try _ (attempt x s) (a s x i) λ s' e x' k. g s' x' e k
  with_retry-Ends I a r g (suc n) x s i =
      Ends-Try _ (attempt x s) (a s x i) λ s' e x' k.
        Ends->>= recover _ s' (r s' x' k) λ s'' _ k'. with_retry-Ends I a r g n x' s'' k'

Ran-cases :
    {S B : Type 0} (r : Ran S B)
    → ((s : S) × (b : B) × (r ≡ returned s b)) ⊎ ((s : S) × (r ≡ panicked s))
Ran-cases (returned s b) = inl (s, b, refl)
Ran-cases (panicked s) = inr (s, refl)

-- A number of tries in a row that fail, the connection renewed after each.
pub data Fails {S E X A : Type 0} (attempt : X → Action S (Try E X A))
    (recover : Action S (Unit {0})) : ℕ → S → X → S → X → Type 0 where
  none_yet : {s : S} {x : X} → Fails attempt recover 0 s x s x
  one_more :
      {n : ℕ} {s s1 s2 s3 : S} {x x1 x2 : X} {e : E}
      → attempt x s ≡ returned s1 (failed e x1)
      → recover s1 ≡ returned s2 tt
      → Fails attempt recover n s2 x1 s3 x2
      → Fails attempt recover (suc n) s x s3 x2

module _ {S E X A : Type 0} (attempt : X → Action S (Try E X A))
    (recover : Action S (Unit {0})) where
  -- The loop returns a result after some failing tries, no more than it has left, where the next
  -- one succeeds.
  pub Succeeds : ℕ → X → S → S → A → Type 0
  Succeeds n x s s' a =
      (k : ℕ) × (s1 : S) × (x1 : X) × (k ≤ n)
      × Fails attempt recover k s x s1 x1
      × (attempt x1 s1 ≡ returned s' (succeeded a))

  returned-with_retry :
      (n : ℕ) {k : ℕ} {s s1 s' : S} {x x1 : X} {a : A}
      → Fails attempt recover k s x s1 x1
      → k ≤ n
      → attempt x1 s1 ≡ returned s' (succeeded a)
      → with_retry attempt recover (λ _. panic) n x s ≡ returned s' a
  unfolding with_retry
  returned-with_retry zero none_yet le h = rw (with_retry, h) refl
  returned-with_retry (suc n) none_yet le h = rw (with_retry, h) refl
  returned-with_retry zero (one_more f r fs) le h = absurd (omega arith)
  returned-with_retry (suc n) (one_more f r fs) le h =
      rw (with_retry, f, r) (returned-with_retry n fs (omega arith) h)

  with_retry-returned :
      (n : ℕ) (s s' : S) (x : X) (a : A)
      → with_retry attempt recover (λ _. panic) n x s ≡ returned s' a
      → Succeeds n x s s' a
  unfolding Succeeds with_retry
  with_retry-returned zero s s' x a h = elim (Ran-cases (attempt x s)) [
    | inl (s1, succeeded b, e) ↦ (0, s, x, omega arith, none_yet, e ∙ cc (rw (with_retry, e) at h))
    | inl (s1, failed er x1, e) ↦ absurd (cc (rw (with_retry, e) at h))
    | inr (s1, e) ↦ absurd (cc (rw (with_retry, e) at h))
  ]
  with_retry-returned (suc n) s s' x a h = elim (Ran-cases (attempt x s)) [
    | inl (s1, succeeded b, e) ↦ (0, s, x, omega arith, none_yet, e ∙ cc (rw (with_retry, e) at h))
    | inl (s1, failed er x1, e) ↦ elim (Ran-cases (recover s1)) [
      | inl (s2, _, r) ↦
          let (k, s3, x3, le, fs, t) =
            with_retry-returned n s2 s' x1 a (rw (with_retry, e, r) at h) in
          (suc k, s3, x3, omega arith, one_more e r fs, t)
      | inr (s2, r) ↦ absurd (cc (rw (with_retry, e, r) at h))
    ]
    | inr (s1, e) ↦ absurd (cc (rw (with_retry, e) at h))
  ]

  -- A loop that panics at its end returns a result exactly where a try within its bound succeeds,
  -- all before it having failed.
  pub with_retry_iff :
      (n : ℕ) (s s' : S) (x : X) (a : A)
      → (with_retry attempt recover (λ _. panic) n x s ≡ returned s' a) ↔ Succeeds n x s s' a
  unfolding Succeeds
  with_retry_iff n s s' x a =
      (with_retry-returned n s s' x a, (λ (k, s1, x1, le, fs, t). returned-with_retry n fs le t))

-- Nothing is asked of how a computation ends.
pub any-Ends {ℓ} : {S A : Type 0} (r : Ran S A) → Ends (λ _ _. Unit {ℓ}) (λ _. Unit {ℓ}) r
any-Ends (returned s a) = ends tt
any-Ends (panicked s) = breaks tt

pub Ends-returned :
    {S A : Type 0} {ok : S → A → Type 0} {bad : S → Type 0} {s : S} {a : A}
    → Ends ok bad (returned s a)
    → ok s a
Ends-returned (ends h) = h
