-- ===== src/Metadata/Manager/Ensure.antt =====
-- Nodes that are made where they do not exist (metadata_manager/manager.go: createIfNotExists,
-- createPathIfNotExists and CreateNSIfNotExists).
use riak_mesos_legacy.Base.{
  is_some, ◌≡◌, refl, sym, ◌∙◌, ◌⊎◌, inl, inr, Bool, true, false, Bool-cases, [], Option, none,
  some, Option-cases,
}
use riak_mesos_legacy.Base.Text.{Text}
use riak_mesos_legacy.Metadata.Zookeeper.{ZkError, Zk}
use riak_mesos_legacy.Metadata.Zookeeper.Laws.{Owned}
use riak_mesos_legacy.Metadata.Retry.{Ran, Try}
use riak_mesos_legacy.Metadata.Retry.Laws.{
  Ends, ends, breaks, Tried, tried, trying, with_retry-Ends,
}
use riak_mesos_legacy.Metadata.Manager.{
  try_create, try_create_if_not_exists, create_if_not_exists, retries, log_panic, go_on,
}

-- What a node holds once it is made: what it held, or nothing where it is new.
abbrev pub ensured : Option Text → Option Text
ensured none = some []
ensured (some t) = some t

-- As before, or made.
abbrev pub Midway : Option Text → Option Text → Type 0
Midway old now = (now ≡ old) ⊎ (now ≡ ensured old)

pub ensured_again : (old now : Option Text) → Midway (ensured old) now → now ≡ ensured old
ensured_again none now (inl h) = h
ensured_again none now (inr h) = h
ensured_again (some t) now (inl h) = h
ensured_again (some t) now (inr h) = h

Midway-none : (old now : Option Text) → Midway old now → now ≡ none → some [] ≡ ensured old
Midway-none none now h e = refl
Midway-none (some t) now (inl h) e = absurd (cc)
Midway-none (some t) now (inr h) e = absurd (cc)

Midway-some : (old now : Option Text) → Midway old now → is_some now ≡ true → now ≡ ensured old
Midway-some none none (inl h) e = absurd (cc)
Midway-some none (some t) (inl h) e = absurd (cc)
Midway-some (some t) now (inl h) e = h
Midway-some old now (inr h) e = h

is_some-false : (o : Option Text) → is_some o ≡ false → o ≡ none
is_some-false none e = refl
is_some-false (some t) e = absurd (cc)

module _ (z : Zk) {p : Text} (o : Owned z p) (ephemeral : Bool) (old : Option Text) where
  TryEnds : Ran z.State (Try ZkError (Unit {0}) (Unit {0})) → Type 0
  TryEnds =
      Ends (λ s. Tried (λ _. o.at s ≡ ensured old) (λ _. Midway old (o.at s)))
        (λ s. Midway old (o.at s))

  new :
      (s : z.State)
      → Midway old (o.at s)
      → o.at s ≡ none
      → Midway old (o.at (z.create p [] ephemeral s).0)
  new s h e = elim (o.create_leaves [] ephemeral s) [
    | inl same ↦ rw same h
    | inr made ↦ inr (made ∙ Midway-none old (o.at s) h e)
  ]

  try_create_if_not_exists-Ends :
      (s : z.State) → Midway old (o.at s) → TryEnds (try_create_if_not_exists z p ephemeral tt s)
  unfolding TryEnds try_create_if_not_exists
  try_create_if_not_exists-Ends s h =
      let (s', r) = z.exists p s in
      let m : Midway old (o.at s') = rw (o.exists_keeps p s) h in
      elim (Option-cases r.1) [
        | inr (x, bad) ↦ rw bad (ends (trying m))
        | inl fine ↦
            let answer : r.0 ≡ is_some (o.at s') =
              o.exists_answers s fine ∙ rw (o.exists_keeps p s) refl in
            elim (Bool-cases r.0) [
              | inl there ↦
                  rw (fine, there) (ends (tried (Midway-some old (o.at s') m (sym answer ∙ there))))
              | inr gone ↦
                  let empty : o.at s' ≡ none = is_some-false (o.at s') (sym answer ∙ gone) in
                  elim (Option-cases (z.create p [] ephemeral s').1) [
                    | inr (x, bad) ↦
                        rw (fine, gone, try_create, bad) (ends (trying (new s' m empty)))
                    | inl made ↦
                        rw (fine, gone, try_create, made)
                          (ends (
                            tried (
                              o.create_writes [] ephemeral s' made
                              ∙ Midway-none old (o.at s') m empty)))
                  ]
            ]
      ]

  -- A node that is asked for exists, and holds what it held.
  pub create_if_not_exists-Ends :
      (s : z.State)
      → Midway old (o.at s)
      → Ends
          (λ s' _. o.at s' ≡ ensured old)
          (λ s'. Midway old (o.at s'))
          (create_if_not_exists z p ephemeral s)
  unfolding create_if_not_exists TryEnds
  create_if_not_exists-Ends s h =
      with_retry-Ends (try_create_if_not_exists z p ephemeral) go_on log_panic
        (λ s _. Midway old (o.at s)) (λ s _ m. try_create_if_not_exists-Ends s m) (λ s _ m. ends m)
        (λ s _ e m. breaks m) retries tt s h
