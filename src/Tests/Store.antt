-- ===== src/Tests/Store.antt =====
-- Zookeeper with one node, whose first calls lose the connection after they are made; every other
-- path exists.
use riak_mesos_legacy.Base.{
  is_some, ℕ, zero, suc, ◌≡◌, ◌≢◌, ◌∙◌, refl, ◌⊎◌, inl, inr, Bool, true, false, Bool-cases, [],
  Option, none, some,
}
use riak_mesos_legacy.Base.Text.{Text, text_eq, text_eq_iff, text_eq_refl}
use riak_mesos_legacy.Metadata.Zookeeper.{
  ZkError, no_node, node_exists, bad_version, connection_lost, Got, has_session, other_state, Zk,
}
use riak_mesos_legacy.Metadata.Zookeeper.Laws.{Owned, Ephemeral}

-- The calls that lose the connection yet, and the contents of the node.
pub data Single : Type 0 where
  store : ℕ → Option Text → Single

abbrev pub held : Single → Option Text
held (store k h) = h

abbrev lost : Got
lost = record { data_read = []; stat = none; error = some connection_lost }

abbrev found : Option Text → Got
found none = record { data_read = []; stat = none; error = some no_node }
found (some t) = record { data_read = t; stat = some 0; error = none }

-- Each takes whether the path is the node's.
abbrev get_at : Bool → Single → Single × Got
get_at b (store (suc k) h) = (store k h, lost)
get_at false (store zero h) = (store zero h, found (some []))
get_at true (store zero h) = (store zero h, found h)

abbrev set_at : Bool → Text → Single → Single × (Option ℕ × Option ZkError)
set_at false c s = (s, (none, some bad_version))
set_at true c (store (suc k) h) = (store k (some c), (none, some connection_lost))
set_at true c (store zero h) = (store zero (some c), (some 0, none))

abbrev create_at : Bool → Text → Single → Single × Option ZkError
create_at false c s = (s, some node_exists)
create_at true c (store l (some t)) = (store l (some t), some node_exists)
create_at true c (store (suc k) none) = (store k (some c), some connection_lost)
create_at true c (store zero none) = (store zero (some c), none)

abbrev exists_at : Bool → Single → Single × (Bool × Option ZkError)
exists_at b (store (suc k) h) = (store k h, (false, some connection_lost))
exists_at false (store zero h) = (store zero h, (true, none))
exists_at true (store zero h) = (store zero h, (is_some h, none))

abbrev pub single : Text → Zk
single p = record {
  State = Single;
  get = λ q. get_at (text_eq q p);
  set = λ q c v. set_at (text_eq q p) c;
  create = λ q c e. create_at (text_eq q p) c;
  exists = λ q. exists_at (text_eq q p);
  children = λ q s. (s, ([], none));
  delete = λ q s. (s, some no_node);
  lock = λ q s. (s, none);
  conn_state = λ s. has_session;
  close = λ s. s;
  connect = λ s. (s, none);
}

get_at-held : (b : Bool) (s : Single) → held (get_at b s).0 ≡ held s
get_at-held b (store (suc k) h) = refl
get_at-held false (store zero h) = refl
get_at-held true (store zero h) = refl

get_at-reads :
    (s : Single)
    → (get_at true s).1.error ≡ none
    → (held s ≡ some (get_at true s).1.data_read) × (is_some (get_at true s).1.stat ≡ true)
get_at-reads (store (suc k) h) e = absurd (cc)
get_at-reads (store zero none) e = absurd (cc)
get_at-reads (store zero (some t)) e = (refl, refl)

set_at-writes : (c : Text) (s : Single) → held (set_at true c s).0 ≡ some c
set_at-writes c (store (suc k) h) = refl
set_at-writes c (store zero h) = refl

create_at-writes :
    (c : Text) (s : Single) → (create_at true c s).1 ≡ none → held (create_at true c s).0 ≡ some c
create_at-writes c (store l (some t)) e = absurd (cc)
create_at-writes c (store (suc k) none) e = absurd (cc)
create_at-writes c (store zero none) e = refl

create_at-leaves :
    (c : Text) (s : Single)
    → (held (create_at true c s).0 ≡ held s) ⊎ (held (create_at true c s).0 ≡ some c)
create_at-leaves c (store l (some t)) = inl refl
create_at-leaves c (store (suc k) none) = inr refl
create_at-leaves c (store zero none) = inr refl

exists_at-held : (b : Bool) (s : Single) → held (exists_at b s).0 ≡ held s
exists_at-held b (store (suc k) h) = refl
exists_at-held false (store zero h) = refl
exists_at-held true (store zero h) = refl

exists_at-answers :
    (s : Single) → (exists_at true s).1.1 ≡ none → (exists_at true s).1.0 ≡ is_some (held s)
exists_at-answers (store (suc k) h) e = absurd (cc)
exists_at-answers (store zero h) e = refl

apart : (q p : Text) → q ≢ p → text_eq q p ≡ false
apart q p h = elim (Bool-cases (text_eq q p)) [
  | inl same ↦ absurd (h ((text_eq_iff q p).0 same))
  | inr other ↦ other
]

unfoldable pub single-Owned : (p : Text) → Owned (single p) p
unfolding get_at-held get_at-reads set_at-writes create_at-writes create_at-leaves apart
    exists_at-held exists_at-answers
single-Owned p = record {
  at = held;
  get_keeps = λ q s. get_at-held (text_eq q p) s;
  get_reads = λ s. rw (text_eq_refl p) (λ e. get_at-reads s e);
  set_writes = λ c v s e. rw (text_eq_refl p) (set_at-writes c s);
  set_leaves = λ c v s. rw (text_eq_refl p) (inr (set_at-writes c s));
  create_writes = λ c e s. rw (text_eq_refl p) (λ h. create_at-writes c s h);
  create_leaves = λ c e s. rw (text_eq_refl p) (create_at-leaves c s);
  create_elsewhere = λ q c e s h. rw (apart q p h) refl;
  exists_keeps = λ q s. exists_at-held (text_eq q p) s;
  exists_answers = λ s. rw (text_eq_refl p) (λ e. exists_at-answers s e);
  close_keeps = λ s. refl;
  connect_keeps = λ s. refl;
}

-- The same store where the node is ephemeral: it goes when the connection is closed, which every new
-- connection does first.
unfoldable pub close_single : Single → Single
close_single (store k h) = store k none

abbrev pub temporary : Text → Zk
temporary p = record (single p) { close = close_single; conn_state = λ s. other_state }

closed : (s : Single) → held (close_single s) ≡ none
unfolding close_single
closed (store k h) = refl

unfoldable pub temporary-Ephemeral : (p : Text) → Ephemeral (temporary p) p
unfolding get_at-held get_at-reads set_at-writes create_at-writes create_at-leaves exists_at-held
    closed
temporary-Ephemeral p = record {
  at = held;
  get_leaves = λ s. inl (get_at-held (text_eq p p) s);
  get_reads = λ s. rw (text_eq_refl p) (λ e. get_at-held true s ∙ (get_at-reads s e).0);
  set_writes = λ c v s e. rw (text_eq_refl p) (set_at-writes c s);
  set_leaves = λ c v s. rw (text_eq_refl p) (inr (set_at-writes c s));
  create_writes = λ c e s. rw (text_eq_refl p) (λ h. create_at-writes c s h);
  create_leaves = λ c e s.
      rw (text_eq_refl p)
        (elim (create_at-leaves c s) [ inl same ↦ inl (inl same) | inr new ↦ inr new ]);
  exists_leaves = λ s. inl (exists_at-held (text_eq p p) s);
  close_leaves = λ s. inr (closed s);
  connect_leaves = λ s. inl refl;
}
