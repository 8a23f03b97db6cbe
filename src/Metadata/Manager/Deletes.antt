-- ===== src/Metadata/Manager/Deletes.antt =====
-- How deep the calls of DeleteChildren (metadata_manager/manager.go) go.
use riak_mesos_legacy.Base.{
  List-cases, ℕ, zero, suc, ◌+◌, ◌<◌, ◌≡◌, refl, Bool, true, List, [], ◌∷◌, ◌++◌, arith, All,
  All-map, inl, inr, Option-cases,
}
use riak_mesos_legacy.Base.Text.{Text}
use riak_mesos_legacy.Metadata.Namespace.{slash}
use riak_mesos_legacy.Metadata.Zookeeper.{ZkError, Zk}
use riak_mesos_legacy.Metadata.Retry.{Ran, Action}
use riak_mesos_legacy.Metadata.Retry.Laws.{Ends, ends, breaks, Ends->>=}
use riak_mesos_legacy.Metadata.Manager.{log_panic}
use riak_mesos_legacy.Metadata.Tree.{delete_each, delete_children_with_retry}

module _ (z : Zk) where
  -- Whatever the state, there are no more than so many levels of nodes below the path.
  abbrev pub IsBelow : ℕ → Text → Type 0
  IsBelow zero path = (s : z.State) → (z.children path s).1.0 ≡ []
  IsBelow (suc h) path =
      (s : z.State) → All (λ name. IsBelow h (path ++ slash ∷ name)) (z.children path s).1.0

  abbrev pub Finishes : Ran z.State Bool → Type 0
  Finishes = Ends (λ s finished. finished ≡ true) (λ s. Unit {0})

  delete_each-Finishes :
      (f : Text → Action z.State Bool) (path : Text) (names : List Text) (s : z.State)
      → All (λ name. (s : z.State) → Finishes (f (path ++ slash ∷ name) s)) names
      → Finishes (delete_each z f path names s)
  unfolding delete_each
  delete_each-Finishes f path [] s h = ends refl
  delete_each-Finishes f path (name ∷ names) s (h, hs) =
      Ends->>= (f (path ++ slash ∷ name)) _ s (h s)
        λ s' b e. rw e (delete_each-Finishes f path names s' hs)

  -- What holds of the nodes a level down holds of the children.
  below :
      (P : Text → Type 0) (h : ℕ) (path : Text) (s : z.State)
      → IsBelow h path
      → ((h' : ℕ) (n : Text) → IsBelow h' (path ++ slash ∷ n) → h ≡ suc h' → P n)
      → All P (z.children path s).1.0
  below P zero path s b f = rw (b s) tt
  below P (suc h) path s b f = All-map (λ n k. f h n k refl) (z.children path s).1.0 (b s)

  again :
      (left : ℕ) (f : ℕ → Action z.State Bool) (e : ZkError) (s : z.State)
      → ((l : ℕ) → l < left → (s : z.State) → Finishes (f l s))
      → Finishes ((elim left as (λ _. Action z.State Bool) [ zero ↦ log_panic e | suc l ↦ f l ]) s)
  again zero f e s h = breaks tt
  again (suc l) f e s h = h l (omega arith) s

  -- DeleteChildren comes to its end on fuel for more calls than the levels of nodes below the path,
  -- and the tries that are left: where it does not panic, it has not run out of fuel.
  pub delete_children-Finishes :
      (fuel left h : ℕ) (path : Text) (s : z.State)
      → h + left < fuel
      → IsBelow h path
      → Finishes (delete_children_with_retry z fuel left path s)
  unfolding delete_children_with_retry
  delete_children-Finishes zero left h path s lt b = elim lt [ ]
  delete_children-Finishes (suc fuel) left h path s lt b =
      let (s', r) = z.children path s in
      elim (List-cases r.0) [
        | inl leaf ↦ elim (Option-cases (z.delete path s').1) [
          | inl fine ↦ rw (leaf, fine) (ends refl)
          | inr (e, bad) ↦
              rw (leaf, bad)
                (again left (λ l. delete_children_with_retry z fuel l path) e (z.delete path s').0
                  (λ l le s''. delete_children-Finishes fuel l h path s'' (omega arith) b))
        ]
        | inr (name, more, branch) ↦ rw branch (
            delete_each-Finishes (delete_children_with_retry z fuel left) path (name ∷ more) s' (
              rw branch at (
                below
                  (λ n.
                    (s'' : z.State)
                    → Finishes (delete_children_with_retry z fuel left (path ++ slash ∷ n) s''))
                  h path s b
                  (λ h' n k e s''.
                    delete_children-Finishes fuel left h' (path ++ slash ∷ n) s'' (omega arith)
                      k))))
      ]
