-- ===== src/Scheduler/ProcessState.antt =====
-- scheduler/process_state/constants.go.
use riak_mesos_legacy.Base.{ℕ, ◌≡◌, ◌↔◌, Bool, true, arith, leb, ◌==◌}

pub data ProcessState : Type 0 where
  unknown reserved starting started shutting_down shutdown failed restarting : ProcessState

-- `iota`.
abbrev pub to_int : ProcessState → ℕ
to_int unknown = 0
to_int reserved = 1
to_int starting = 2
to_int started = 3
to_int shutting_down = 4
to_int shutdown = 5
to_int failed = 6
to_int restarting = 7

abbrev pub is : ProcessState → ProcessState → Bool
is a b = to_int a == to_int b

abbrev pub at_most : ProcessState → ProcessState → Bool
at_most a b = leb (to_int a) (to_int b)

pub is_iff : (a b : ProcessState) → (is a b ≡ true) ↔ (a ≡ b)
is_iff a b = ground arith
