-- ===== src/Metadata/Manager/Prefixes.antt =====
-- The nodes on the way to a namespace (metadata_manager/manager.go: createPathIfNotExists and
-- CreateNSIfNotExists).
use mathlib.Core.List.{append_assoc, append-nil}
use riak_mesos_legacy.Base.{
  ◌≡◌, ◌≢◌, refl, sym, ap, subst, ◌⊎◌, inl, inr, Bool, Bool-cases, List, [], ◌∷◌, ◌++◌, Option,
  Option-cases,
}
use riak_mesos_legacy.Base.Text.{Text, text_eq, text_eq_iff}
use riak_mesos_legacy.Base.Split.{join}
use riak_mesos_legacy.Metadata.Namespace.{
  slash, Namespace, base_namespace, sub_namespace, get_zk_path,
}
use riak_mesos_legacy.Metadata.Namespace.Paths.{
  after_root, components-after_root, IsSub, IsPlain, split-get_zk_path,
}
use riak_mesos_legacy.Metadata.Zookeeper.{Zk}
use riak_mesos_legacy.Metadata.Zookeeper.Laws.{Owned}
use riak_mesos_legacy.Metadata.Retry.Laws.{
  Ends, ends, breaks, Tried, tried, trying, Ends->>=, Ends-weaken, with_retry-Ends,
}
use riak_mesos_legacy.Metadata.Manager.{
  try_create, try_create_if_not_exists, create_if_not_exists, retries, log_panic, go_on,
}
use riak_mesos_legacy.Metadata.Tree.{
  create_each, create_below_first, create_ns_if_not_exists, create_path_if_not_exists,
}
use riak_mesos_legacy.Metadata.Manager.Ensure.{
  ensured, ensured_again, Midway, create_if_not_exists-Ends,
}

-- The path is one of those that the loop makes.
abbrev pub Reaches : Text → List Text → List Text → Type 0
Reaches p before [] = ⊥
Reaches p before (c ∷ rest) =
    (join slash (before ++ c ∷ []) ≡ p) ⊎ Reaches p (before ++ c ∷ []) rest

module _ (z : Zk) {p : Text} (o : Owned z p) (ephemeral : Bool) where
  try_elsewhere :
      (P : Option Text → Type 0) (q : Text)
      → q ≢ p
      → (s : z.State) → P (o.at s)
      → Ends
          (λ s'. Tried (λ _. P (o.at s')) (λ _. P (o.at s')))
          (λ s'. P (o.at s'))
          (try_create_if_not_exists z q ephemeral tt s)
  unfolding try_create_if_not_exists
  try_elsewhere P q other s h =
      let (s', r) = z.exists q s in
      let m : P (o.at s') = rw (o.exists_keeps q s) h in
      elim (Option-cases r.1) [
        | inr (x, bad) ↦ rw bad (ends (trying m))
        | inl fine ↦ elim (Bool-cases r.0) [
          | inl there ↦ rw (fine, there) (ends (tried m))
          | inr gone ↦
              let n : P (o.at (z.create q [] ephemeral s').0) =
                rw (o.create_elsewhere q [] ephemeral s' other) m in
              elim (Option-cases (z.create q [] ephemeral s').1) [
                | inr (x, bad) ↦ rw (fine, gone, try_create, bad) (ends (trying n))
                | inl made ↦ rw (fine, gone, try_create, made) (ends (tried n))
              ]
        ]
      ]

  elsewhere :
      (P : Option Text → Type 0) (q : Text)
      → q ≢ p
      → (s : z.State) → P (o.at s)
      → Ends (λ s' _. P (o.at s')) (λ s'. P (o.at s')) (create_if_not_exists z q ephemeral s)
  unfolding create_if_not_exists
  elsewhere P q other s h =
      with_retry-Ends (try_create_if_not_exists z q ephemeral) go_on log_panic (λ s _. P (o.at s))
        (λ s _ m. try_elsewhere P q other s m) (λ s _ m. ends m) (λ s _ e m. breaks m) retries tt s
        h

  -- Any path: the node is as before, or made.
  one-Midway :
      (old : Option Text) (q : Text) (s : z.State)
      → Midway old (o.at s)
      → Ends
          (λ s' _. Midway old (o.at s'))
          (λ s'. Midway old (o.at s'))
          (create_if_not_exists z q ephemeral s)
  one-Midway old q s h = elim (Bool-cases (text_eq q p)) [
    | inl same ↦ rw ((text_eq_iff q p).0 same) (
        Ends-weaken (λ s' _ m. inr m) (λ s' m. m) (create_if_not_exists-Ends z o ephemeral old s h))
    | inr apart ↦ elsewhere (Midway old) q (λ e. absurd (cc ((text_eq_iff q p).1 e, apart))) s h
  ]

  each-Midway :
      (old : Option Text) (before rest : List Text) (s : z.State)
      → Midway old (o.at s)
      → Ends
          (λ s' _. Midway old (o.at s'))
          (λ s'. Midway old (o.at s'))
          (create_each z ephemeral before rest s)
  unfolding create_each
  each-Midway old before [] s h = ends h
  each-Midway old before (c ∷ rest) s h =
      Ends->>= (create_if_not_exists z (join slash (before ++ c ∷ [])) ephemeral) _ s
        (one-Midway old (join slash (before ++ c ∷ [])) s h)
        λ s' _ m. each-Midway old (before ++ c ∷ []) rest s' m

  each-Ends :
      (old : Option Text) (before rest : List Text) (s : z.State)
      → Reaches p before rest
      → Midway old (o.at s)
      → Ends
          (λ s' _. o.at s' ≡ ensured old)
          (λ s'. Midway old (o.at s'))
          (create_each z ephemeral before rest s)
  unfolding create_each
  each-Ends old before [] s r h = absurd r
  each-Ends old before (c ∷ rest) s (inl e) h =
      Ends->>= (create_if_not_exists z (join slash (before ++ c ∷ [])) ephemeral) _ s
        (rw e (create_if_not_exists-Ends z o ephemeral old s h))
        λ s' _ m.
          Ends-weaken (λ s'' _ k. ensured_again old (o.at s'') k)
            (λ s'' k. inr (ensured_again old (o.at s'') k))
            (each-Midway (ensured old) (before ++ c ∷ []) rest s' (inl m))
  each-Ends old before (c ∷ rest) s (inr r) h =
      Ends->>= (create_if_not_exists z (join slash (before ++ c ∷ [])) ephemeral) _ s
        (one-Midway old (join slash (before ++ c ∷ [])) s h)
        λ s' _ m. each-Ends old (before ++ c ∷ []) rest s' r m

-- A namespace below the base that is on the way to another, or that one itself.
pub data IsWithin : Namespace → Namespace → Type 0 where
  itself :
      {parent : Namespace} {component : Text}
      → IsWithin (sub_namespace parent component) (sub_namespace parent component)
  further :
      {a ns : Namespace} {component : Text}
      → IsWithin a ns
      → IsWithin a (sub_namespace ns component)

Reaches-append :
    (p : Text) (before rest more : List Text)
    → Reaches p before rest
    → Reaches p before (rest ++ more)
Reaches-append p before [] more r = absurd r
Reaches-append p before (c ∷ rest) more (inl e) = inl e
Reaches-append p before (c ∷ rest) more (inr r) =
    inr (Reaches-append p (before ++ c ∷ []) rest more r)

Reaches-last :
    (before rest : List Text) (c : Text)
    → Reaches (join slash (before ++ rest ++ c ∷ [])) before (rest ++ c ∷ [])
Reaches-last before [] c = inl (ap (λ l. join slash (l ++ c ∷ [])) (sym (append-nil before)))
Reaches-last before (d ∷ rest) c = inr (
    subst (λ l. Reaches (join slash (l ++ c ∷ [])) (before ++ d ∷ []) (rest ++ c ∷ []))
      (append_assoc before (d ∷ []) rest) (Reaches-last (before ++ d ∷ []) rest c))

IsWithin-Reaches :
    {a ns : Namespace} → IsWithin a ns → Reaches (get_zk_path a) ([] ∷ []) (after_root ns)
unfolding get_zk_path
IsWithin-Reaches {ns = base_namespace} w = elim w [ ]
IsWithin-Reaches {ns = sub_namespace n c} itself =
    rw (components-after_root n) (Reaches-last ([] ∷ []) (after_root n) c)
IsWithin-Reaches {a} {ns = sub_namespace n c} (further w) =
    Reaches-append (get_zk_path a) ([] ∷ []) (after_root n) (c ∷ []) (IsWithin-Reaches w)

-- Once CreateNSIfNotExists returns, the namespace and each on the way to it exist, where nothing
-- else writes their nodes, and one that existed holds what it held; where it panics, such a node is as it was, or made.
pub create_ns_if_not_exists-Ends :
    (z : Zk) (ns a : Namespace) (o : Owned z (get_zk_path a)) (ephemeral : Bool) (s : z.State)
    → IsWithin a ns
    → Ends
        (λ s' _. o.at s' ≡ ensured (o.at s))
        (λ s'. Midway (o.at s) (o.at s'))
        (create_ns_if_not_exists z ns ephemeral s)
unfolding create_ns_if_not_exists create_below_first
create_ns_if_not_exists-Ends z ns a o ephemeral s w =
    rw (components-after_root ns)
      (each-Ends z o ephemeral (o.at s) ([] ∷ []) (after_root ns) s (IsWithin-Reaches w) (inl refl))

-- The path of a namespace below the base, whose components have no slash, is made as the namespace is.
pub create_path-get_zk_path :
    (z : Zk) (ns : Namespace) (ephemeral : Bool)
    → IsSub ns
    → IsPlain ns
    → create_path_if_not_exists z (get_zk_path ns) ephemeral
      ≡ create_ns_if_not_exists z ns ephemeral
unfolding create_path_if_not_exists create_ns_if_not_exists
create_path-get_zk_path z ns ephemeral s p = rw (split-get_zk_path ns s p) refl
