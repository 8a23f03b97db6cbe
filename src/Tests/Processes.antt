-- ===== src/Tests/Processes.antt =====
-- The process manager and the reaper, from a start to the exit of the process.
use riak_mesos_legacy.Base.{
  ◌≡◌, refl, true, false, List, [], ◌∷◌, none, some, is_some, ◌≤◌, if◌then◌else◌, ◌==◌, ==_iff,
  Bool-cases, inl, inr, arith,
}
use riak_mesos_legacy.Base.Int.{pos}
use riak_mesos_legacy.ProcessManager.{
  Manager, starting, in_background, ended, new_manager, Kernel, called_back, subscribe, exited,
  second, round, start_round, next_round, background_round, take_up, end_exited, notify, tell_all,
  tell, log_call, kill_process, in_time, finish, listen,
}
use riak_mesos_legacy.ProcessManager.Steps.{Reach, begins, turns, listens, IsValid}
use riak_mesos_legacy.ProcessManager.Life.{Reach-IsValid, answered_in_time}
use riak_mesos_legacy.ProcessManager.Reaper.{
  Reaper, open_channel, Request, unsubscribes, child_ended, reaped, wait_failed, goes_on, update,
  send, handle_request, process_manager_loop,
}
use riak_mesos_legacy.ProcessManager.Reaper.Delivery.{IsWaiting, reaped-delivered}

abbrev alive : Kernel
alive = record { alive = true; arrival = in_time }

abbrev gone : Kernel
gone = record { alive = false; arrival = in_time }

-- Unhealthy for a second, then healthy; a listener; the exit with status 1.
abbrev one_second : Manager
one_second = record new_manager { phase = starting 59 }

abbrev healthy : Manager
healthy = record one_second { phase = in_background; answered = some true }

abbrev asked : Manager
asked = record healthy { listening = 7 ∷ [] }

abbrev heard : Manager
heard = record asked { listening = []; subscriptions = record { id = 7; held = none } ∷ [] }

abbrev over : Manager
over = record heard {
  phase = ended;
  reaped = true;
  subscriptions = record { id = 7; held = some (pos 1) } ∷ [];
  calls = called_back ∷ [];
}

life : Reach 4 over
unfolding round start_round next_round background_round take_up end_exited notify tell_all tell
    log_call kill_process finish listen
life =
    turns {pm = heard} gone (exited (pos 1))
      (turns {pm = asked} gone subscribe
        (listens {pm = healthy} 7
          (turns {pm = one_second} alive (second true)
            (turns {pm = new_manager} alive (second false) begins tt refl) tt refl)
          refl refl)
        tt refl)
      refl refl

Reach-IsValid_example : IsValid 4 over
Reach-IsValid_example = Reach-IsValid life

answered_in_time_example :
    (60 ≤ 4 → is_some over.answered ≡ true)
    × (over.answered ≡ none → is_some (round alive (second true) over) ≡ true)
answered_in_time_example = answered_in_time alive true life (λ e. absurd (cc e))

-- Process 5 has channel 9, process 6 has channel 8.
abbrev reaper : Reaper
reaper = record {
  subscriptions = λ p. if p == 5 then some 9 else if p == 6 then some 8 else none;
  channels = λ c. open_channel none;
}

abbrev others : List Request
others = child_ended (reaped 6 (pos 0)) ∷ unsubscribes 6 ∷ child_ended wait_failed ∷ []

reaper-IsWaiting : IsWaiting 5 9 reaper
reaper-IsWaiting = record {
  has_channel = refl;
  empty = refl;
  alone = λ q h. elim (Bool-cases (q == 5)) [
    | inl same ↦ (==_iff q 5).0 same
    | inr other ↦ absurd (ground arith)
  ];
}

abbrev served : Reaper
served = record {
  subscriptions = update reaper.subscriptions 6 none;
  channels = update reaper.channels 8 (open_channel (some (pos 0)));
}

others-served : process_manager_loop others reaper ≡ goes_on served
unfolding process_manager_loop handle_request send
others-served = refl

reaped-delivered_example :
    handle_request (child_ended (reaped 5 (pos 137))) served
    ≡ goes_on
        (record served { channels = update served.channels 9 (open_channel (some (pos 137))) })
reaped-delivered_example =
    reaped-delivered 5 9 others reaper served (pos 137) reaper-IsWaiting
      ((λ e. absurd (omega (arith, e))), ((λ e. absurd (omega (arith, e))), (tt, tt))) others-served
