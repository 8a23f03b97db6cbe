-- ===== src/Scheduler/Cluster/Numbering/Rewrites.antt =====
-- The operations of scheduler/cluster.go that change nodes in place keep their ids.
use mathlib.Core.Option.{some_inj}
use riak_mesos_legacy.Base.{
  ℕ, ◌≡◌, refl, ap, subst, Bool, false, [], ◌∷◌, some, arith, length, All-map,
}
use riak_mesos_legacy.Base.Opt.{>>=-eq-some}
use riak_mesos_legacy.Base.Text.{Text}
use riak_mesos_legacy.Base.Map.{
  Map, Fresh, lookup, insert, has, has-Fresh, lookup-insert_self, All-lookup,
}
use riak_mesos_legacy.Base.Along.{Along, Along-length, Along-Fresh, Along-UniqueKeys, Along-All}
use riak_mesos_legacy.Mesos.{TaskStatus, TaskState}
use riak_mesos_legacy.Common.Offer.{OfferHelper}
use riak_mesos_legacy.Scheduler.Config.{Config, Outside}
use riak_mesos_legacy.Scheduler.Explorer.{Explorer}
use riak_mesos_legacy.Scheduler.Node.{
  Node, apply_reserved_offer, apply_unreserved_offer, start, run, finish, kill, error, unreserve,
}
use riak_mesos_legacy.Scheduler.Cluster.{
  Cluster, Visit, visit, visits, apply_offer, join, updated, reported, handle_node_status_update,
}
use riak_mesos_legacy.Scheduler.Cluster.Numbering.{
  IsNumbered, SameId, SameId-Holds, Holds, Holds-mono, count, update-IsNumbered,
}

pub SameId-refl : (n : Node) → SameId n n
SameId-refl n = record { framework_name = refl; cluster_name = refl; simple_id = refl }

apply_reserved_offer-SameId :
    (sc : Config) (out : Outside) (n : Node) (h : OfferHelper) {n' : Node} {h' : OfferHelper}
    {b : Bool}
    → apply_reserved_offer sc out n h ≡ some (n', h', b)
    → SameId n n'
unfolding apply_reserved_offer
apply_reserved_offer-SameId sc out n h e = ground arith

apply_unreserved_offer-SameId :
    (out : Outside) (n : Node) (h : OfferHelper) {n' : Node} {h' : OfferHelper} {b : Bool}
    → apply_unreserved_offer out n h ≡ some (n', h', b)
    → SameId n n'
unfolding apply_unreserved_offer
apply_unreserved_offer-SameId out n h e = ground arith

visit-SameId :
    (sc : Config) (out : Outside) (n : Node) (h : OfferHelper) {v : Visit}
    → visit sc out n h ≡ some v
    → SameId n v.node
unfolding visit apply_reserved_offer apply_unreserved_offer unreserve
visit-SameId sc out n h e = ground arith

-- The same keys in the same order, and under each key a node with the same id.
abbrev pub Rewrites : Map Node → Map Node → Type 0
Rewrites = Along SameId

visits-Rewrites :
    (sc : Config) (out : Outside) (m : Map Node) (h : OfferHelper) {m' : Map Node}
    {h' : OfferHelper} {a b : Bool}
    → visits sc out m h ≡ some (m', h', a, b)
    → Rewrites m m'
unfolding visits
visits-Rewrites sc out [] h {m' = []} e = tt
visits-Rewrites sc out [] h {m' = x ∷ m'} e = cc
visits-Rewrites sc out ((k, n) ∷ m) h {m' = m''} e =
    let (v, seen, e') = >>=-eq-some _ _ e in
    let ((m', h', a, b), rest, e'') = >>=-eq-some _ _ e' in
    let whole : Rewrites ((k, n) ∷ m) ((k, v.node) ∷ m') =
      (refl, visit-SameId sc out n h seen, visits-Rewrites sc out m v.helper rest) in
    subst (Rewrites ((k, n) ∷ m)) (ap (λ r. r.0) (some_inj.0 e'')) whole

module _ (framework : Text) where
  -- Nodes that change in place keep the ids apart.
  pub Rewrites-IsNumbered :
      (c : Cluster) (m : Map Node)
      → Rewrites c.nodes m
      → IsNumbered framework c
      → IsNumbered framework (record c { nodes = m })
  Rewrites-IsNumbered c m r v =
      let same : length m ≡ length c.nodes = Along-length SameId c.nodes m r in
      record {
        live = Holds-mono framework c.name _ _ m (omega (arith, same)) (
            Along-All SameId (Holds framework c.name (count c)) (λ k n n' same. SameId-Holds k same)
              c.nodes m r v.live);
        dead = Holds-mono framework c.name _ _ c.graveyard (omega (arith, same)) v.dead;
        live_keys = Along-UniqueKeys SameId c.nodes m r v.live_keys;
        dead_keys = v.dead_keys;
        apart =
            Along-All SameId (λ entry. Fresh entry.0 c.graveyard) (λ k n n' same fresh. fresh)
              c.nodes m r v.apart;
      }

  -- Dead nodes that change in place keep the ids apart.
  pub graveyard-IsNumbered :
      (c : Cluster) (g : Map Node)
      → Rewrites c.graveyard g
      → IsNumbered framework c
      → IsNumbered framework (record c { graveyard = g })
  graveyard-IsNumbered c g r v =
      let same : length g ≡ length c.graveyard = Along-length SameId c.graveyard g r in
      record {
        live = Holds-mono framework c.name _ _ c.nodes (omega (arith, same)) v.live;
        dead = Holds-mono framework c.name _ _ g (omega (arith, same)) (
            Along-All SameId (Holds framework c.name (count c)) (λ k n n' same. SameId-Holds k same)
              c.graveyard g r v.dead);
        live_keys = v.live_keys;
        dead_keys = Along-UniqueKeys SameId c.graveyard g r v.dead_keys;
        apart = All-map (λ entry. Along-Fresh SameId entry.0 c.graveyard g r) c.nodes v.apart;
      }

  -- If the ids of a cluster are apart, an offer that does not panic keeps them apart, changes no
  -- node's id, and moves no node.
  pub apply_offer-IsNumbered :
      (sc : Config) (out : Outside) (c c' : Cluster) (h h' : OfferHelper) (dirty needs : Bool)
      → IsNumbered framework c
      → apply_offer sc out c h ≡ some (c', h', dirty, needs)
      → IsNumbered framework c' × Rewrites c.nodes c'.nodes × (c'.graveyard ≡ c.graveyard)
  unfolding apply_offer
  apply_offer-IsNumbered sc out c c' h h' dirty needs v e =
      let ((m, h'', a, b), went, e') = >>=-eq-some _ _ e in
      let r : Rewrites c.nodes m = visits-Rewrites sc out c.nodes h went in
      subst
        (λ (x : Cluster).
          IsNumbered framework x × Rewrites c.nodes x.nodes × (x.graveyard ≡ c.graveyard))
        (ap (λ t. t.0) (some_inj.0 e')) (Rewrites-IsNumbered c m r v, r, refl)

updated-SameId :
    (ex : Explorer) (g : ℕ) (m : Map Node) (id : Text) (s : TaskState) (n : Node)
    → SameId n (updated ex g m id s n).0
unfolding updated join start run finish kill error
updated-SameId ex g m id s n = ground arith

reported-SameId : (status : TaskStatus) (n : Node) → SameId n (reported status n)
reported-SameId status n = record { framework_name = refl; cluster_name = refl; simple_id = refl }

module _ (framework : Text) where
  -- If the ids of a cluster are apart, a status update for a live node does not panic, keeps them
  -- apart and leaves the graveyard.
  pub handle_node_status_update-IsNumbered :
      (ex : Explorer) (status : TaskStatus) (c : Cluster) (n : Node)
      → IsNumbered framework c
      → lookup status.task_id c.nodes ≡ some n
      → (c' : Cluster) × (handle_node_status_update ex status c ≡ some c')
        × IsNumbered framework c'
        × (c'.graveyard ≡ c.graveyard)
  unfolding handle_node_status_update
  handle_node_status_update-IsNumbered ex status c n v e =
      let id = status.task_id in
      let n' = reported status n in
      let m = insert id n' c.nodes in
      let u = (updated ex c.generation m id status.state n').0 in
      let alive : has id c.graveyard ≡ false =
        has-Fresh id c.graveyard
          (All-lookup (λ entry. Fresh entry.0 c.graveyard) id c.nodes n e v.apart) in
      (
        record c { nodes = insert id u m },
        rw alive (rw e refl),
        update-IsNumbered framework (record c { nodes = m }) id n' u
            (update-IsNumbered framework c id n n' v e (reported-SameId status n))
            (lookup-insert_self id n' c.nodes)
            (updated-SameId ex c.generation m id status.state n'),
        refl,
      )
