-- ===== src/Metadata/Zookeeper/Laws.antt =====
-- What metadata_manager/manager.go relies on of a node of Zookeeper that no other client writes:
-- its contents, as each call of this client finds and leaves them. An error of Set or Create leaves
-- open whether the write was made, since the connection may have been lost after it.
use riak_mesos_legacy.Base.{is_some, ℕ, ◌≡◌, ◌≢◌, ◌⊎◌, Bool, true, Option, none, some}
use riak_mesos_legacy.Base.Text.{Text}
use riak_mesos_legacy.Metadata.Zookeeper.{Zk}

pub record Owned (z : Zk) (p : Text) : Type 0 where
  -- what the node holds, where it exists
  pub at : z.State → Option Text
  pub get_keeps : (q : Text) (s : z.State) → at (z.get q s).0 ≡ at s
  pub get_reads :
      (s : z.State)
      → (z.get p s).1.error ≡ none
      → (at s ≡ some (z.get p s).1.data_read) × (is_some (z.get p s).1.stat ≡ true)
  pub set_writes :
      (c : Text) (v : ℕ) (s : z.State) → (z.set p c v s).1.1 ≡ none → at (z.set p c v s).0 ≡ some c
  pub set_leaves :
      (c : Text) (v : ℕ) (s : z.State)
      → (at (z.set p c v s).0 ≡ at s) ⊎ (at (z.set p c v s).0 ≡ some c)
  pub create_writes :
      (c : Text) (e : Bool) (s : z.State)
      → (z.create p c e s).1 ≡ none
      → at (z.create p c e s).0 ≡ some c
  pub create_leaves :
      (c : Text) (e : Bool) (s : z.State)
      → (at (z.create p c e s).0 ≡ at s) ⊎ (at (z.create p c e s).0 ≡ some c)
  pub create_elsewhere :
      (q c : Text) (e : Bool) (s : z.State) → q ≢ p → at (z.create q c e s).0 ≡ at s
  pub exists_keeps : (q : Text) (s : z.State) → at (z.exists q s).0 ≡ at s
  pub exists_answers :
      (s : z.State) → (z.exists p s).1.1 ≡ none → (z.exists p s).1.0 ≡ is_some (at s)
  pub close_keeps : (s : z.State) → at (z.close s) ≡ at s
  pub connect_keeps : (s : z.State) → at (z.connect s).0 ≡ at s

-- A node is as it was, or gone with the session that made it.
abbrev pub Left : Option Text → Option Text → Type 0
Left old now = (now ≡ old) ⊎ (now ≡ none)

-- The same of an ephemeral node that only this client writes. Its session may end at any call, the
-- closing of the connection among them, and the node is deleted then; a call that succeeds on the
-- node finds it there.
pub record Ephemeral (z : Zk) (p : Text) : Type 0 where
  pub at : z.State → Option Text
  pub get_leaves : (s : z.State) → Left (at s) (at (z.get p s).0)
  pub get_reads :
      (s : z.State) → (z.get p s).1.error ≡ none → at (z.get p s).0 ≡ some (z.get p s).1.data_read
  pub set_writes :
      (c : Text) (v : ℕ) (s : z.State) → (z.set p c v s).1.1 ≡ none → at (z.set p c v s).0 ≡ some c
  pub set_leaves :
      (c : Text) (v : ℕ) (s : z.State)
      → Left (at s) (at (z.set p c v s).0) ⊎ (at (z.set p c v s).0 ≡ some c)
  pub create_writes :
      (c : Text) (e : Bool) (s : z.State)
      → (z.create p c e s).1 ≡ none
      → at (z.create p c e s).0 ≡ some c
  pub create_leaves :
      (c : Text) (e : Bool) (s : z.State)
      → Left (at s) (at (z.create p c e s).0) ⊎ (at (z.create p c e s).0 ≡ some c)
  pub exists_leaves : (s : z.State) → Left (at s) (at (z.exists p s).0)
  pub close_leaves : (s : z.State) → Left (at s) (at (z.close s))
  pub connect_leaves : (s : z.State) → Left (at s) (at (z.connect s).0)
