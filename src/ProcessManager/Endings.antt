-- ===== src/ProcessManager/Endings.antt =====
-- The ends of a process manager (process_manager/manager.go).
use riak_mesos_legacy.Base.{
  List-cases, ℕ, ◌≡◌, refl, true, false, Bool-cases, inl, inr, List, [], ◌∷◌, none, some,
  Option-cases, All, subst,
}
use mathlib.Core.Option.{some_inj}
use riak_mesos_legacy.Base.Int.{ℤ, negsuc}
use riak_mesos_legacy.ProcessManager.{
  called_back, sent_term, replied, Arrival, in_time, late, never, await_status, Listener, Manager,
  Kernel, tell, tell_all, notify, log_call, kill_process, finish, end_exited, end_teardown,
  end_signal_starting, end_signal, end_first_teardown,
}
use riak_mesos_legacy.ProcessManager.Steps.{Holds, HasEnded, IsOver, has_ended, is_stuck}

All-tell_all :
    (w : ℤ) (ls : List Listener) → All (Holds none) ls → All (Holds (some w)) (tell_all w ls)
unfolding tell_all tell
All-tell_all w [] h = tt
All-tell_all w (l ∷ ls) (h, hs) = (rw h refl, All-tell_all w ls hs)

-- What may come after killProcess: the listeners stay as they are.
abbrev pub Ends : ℤ → (Manager → Manager) → Type 0
Ends w next = (pm : Manager) → All (Holds (some w)) pm.subscriptions → HasEnded (next pm)

pub finish-Ends : (w : ℤ) → Ends w finish
unfolding finish
finish-Ends w pm h = elim (Option-cases pm.answered) [
  | inl e ↦ record {
    over = refl;
    answer = false;
    is_answered = rw e refl;
    status = w;
    all_told = h;
  }
  | inr (a, e) ↦ record {
    over = refl;
    answer = a;
    is_answered = rw e refl;
    status = w;
    all_told = h;
  }
]

await-IsOver :
    (w : ℤ) (a : Arrival) (next : Manager → Manager) (pm : Manager)
    → Ends w next
    → All (Holds (some w)) pm.subscriptions
    → IsOver (await_status a next pm)
unfolding await_status log_call
await-IsOver w in_time next pm f h = has_ended (f _ h)
await-IsOver w late next pm f h = has_ended (f _ h)
await-IsOver w never next pm f h = is_stuck (record { waits = refl; status = w; all_told = h })

pub kill-IsOver :
    (w : ℤ) (k : Kernel) (next : Manager → Manager) (pm : Manager)
    → Ends w next
    → All (Holds (some w)) pm.subscriptions
    → IsOver (kill_process k next pm)
unfolding kill_process log_call
kill-IsOver w k next pm f h = elim (Bool-cases k.alive) [
  | inl up ↦ rw up (await-IsOver w _ next (log_call sent_term pm) f h)
  | inr down ↦ rw down (has_ended (f _ h))
]

-- A process that is gone by the kernel's account is not waited for.
pub kill-gone :
    (w : ℤ) (k : Kernel) (next : Manager → Manager) (pm : Manager)
    → k.alive ≡ false
    → Ends w next
    → All (Holds (some w)) pm.subscriptions
    → HasEnded (kill_process k next pm)
unfolding kill_process
kill-gone w k next pm down f h = rw down (f _ h)

module _ (k : Kernel) (pm : Manager) (untold : All (Holds none) pm.subscriptions) where
  pub end_exited-HasEnded : (w : ℤ) → k.alive ≡ false → HasEnded (end_exited k w pm)
  unfolding end_exited notify log_call
  end_exited-HasEnded w down =
      kill-gone w k finish (log_call called_back (notify w (record pm { reaped = true }))) down
        (finish-Ends w) (All-tell_all w pm.subscriptions untold)

  pub end_signal-IsOver : IsOver (end_signal k pm)
  unfolding end_signal notify log_call
  end_signal-IsOver =
      kill-IsOver (negsuc 0) k finish (log_call called_back (notify (negsuc 0) pm))
        (finish-Ends (negsuc 0)) (All-tell_all (negsuc 0) pm.subscriptions untold)

  pub end_signal_starting-IsOver : IsOver (end_signal_starting k pm)
  unfolding end_signal_starting notify log_call
  end_signal_starting-IsOver =
      kill-IsOver (negsuc 0) k (λ pm'. finish (log_call called_back pm')) (notify (negsuc 0) pm)
        (λ pm' h. finish-Ends (negsuc 0) (log_call called_back pm') h)
        (All-tell_all (negsuc 0) pm.subscriptions untold)

  end_teardown-IsOver : (t : ℕ) → IsOver (end_teardown k t pm)
  unfolding end_teardown notify log_call
  end_teardown-IsOver t =
      kill-IsOver (negsuc 0) k (λ pm'. finish (log_call (replied t) (log_call called_back pm')))
        (notify (negsuc 0) pm)
        (λ pm' h. finish-Ends (negsuc 0) (log_call (replied t) (log_call called_back pm')) h)
        (All-tell_all (negsuc 0) pm.subscriptions untold)

pub end_first_teardown-IsOver :
    (k : Kernel) (pm pm' : Manager)
    → All (Holds none) pm.subscriptions
    → end_first_teardown k pm ≡ some pm'
    → IsOver pm'
unfolding end_first_teardown
end_first_teardown-IsOver k pm pm' h e = elim (List-cases pm.tearing) [
  | inl nothing ↦ absurd (cc (rw nothing at e))
  | inr (t, ts, queue) ↦
      subst IsOver (some_inj.0 (rw queue at e))
        (end_teardown-IsOver k (record pm { tearing = ts }) h t)
]
