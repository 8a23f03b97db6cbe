-- ===== src/ProcessManager/Rounds.antt =====
-- One round of a process manager (process_manager/manager.go).
use riak_mesos_legacy.Base.{
  List-cases, ℕ, zero, suc, ◌≡◌, refl, true, false, inl, inr, [], ◌∷◌, none, some, All-append,
  arith, subst, sym, ap, ◌∙◌,
}
use mathlib.Core.Option.{some_inj}
use riak_mesos_legacy.Base.Int.{negsuc}
use riak_mesos_legacy.ProcessManager.{
  Manager, Kernel, finish, Event, subscribe, signal, teardown, exited, second, next_round, take_up,
  end_first_teardown, start_round, background_round, round_in, round,
}
use riak_mesos_legacy.ProcessManager.Steps.{
  IsKernel, Holds, HasEnded, IsStarting, IsBackground, IsValid, in_start, in_between, at_end,
  in_kill, IsOver, IsOver-IsValid,
}
use riak_mesos_legacy.ProcessManager.Endings.{
  finish-Ends, kill-IsOver, end_first_teardown-IsOver, end_exited-HasEnded, end_signal-IsOver,
  end_signal_starting-IsOver,
}

background_round-IsValid :
    {n : ℕ} {pm pm' : Manager} (k : Kernel) (e : Event)
    → IsBackground pm
    → IsKernel k e
    → background_round k e pm ≡ some pm'
    → IsValid (suc n) pm'
unfolding background_round take_up
background_round-IsValid {pm} k subscribe b law h = elim (List-cases pm.listening) [
  | inl nothing ↦ absurd (cc (rw nothing at h))
  | inr (l, ls, queue) ↦ in_between (
      subst IsBackground (some_inj.0 (rw queue at h)) (record {
        is_background = b.is_background;
        is_given = b.is_given;
        none_told =
            All-append (Holds none) pm.subscriptions (record { id = l; held = none } ∷ [])
              b.none_told (refl, tt);
        still_running = b.still_running;
      }))
]
background_round-IsValid {pm} k signal b law h =
    IsOver-IsValid (subst IsOver (some_inj.0 h) (end_signal-IsOver k pm b.none_told))
background_round-IsValid {pm} k (exited w) b law h =
    at_end (subst HasEnded (some_inj.0 h) (end_exited-HasEnded k pm b.none_told w law))
background_round-IsValid {pm} k teardown b law h =
    IsOver-IsValid (end_first_teardown-IsOver k pm _ b.none_told h)
background_round-IsValid k (second healthy) b law h = absurd (cc)

next_round-IsValid :
    {n : ℕ} (left : ℕ) {pm : Manager} (k : Kernel)
    → IsStarting n left pm
    → IsValid (suc n) (next_round k left pm)
unfolding next_round
next_round-IsValid zero {pm} k s =
    IsOver-IsValid
      (kill-IsOver (negsuc 0) k finish pm (finish-Ends (negsuc 0)) (rw s.no_listeners tt))
next_round-IsValid (suc left) {pm} k s = in_start left (record {
  is_start = refl;
  rounds_left = omega (arith, s.rounds_left);
  unanswered = s.unanswered;
  nobody = s.nobody;
  no_teardown = s.no_teardown;
  no_listeners = s.no_listeners;
  running = s.running;
})

start_round-IsValid :
    {n : ℕ} {pm pm' : Manager} (k : Kernel) (e : Event) (left : ℕ)
    → IsStarting n left pm
    → IsKernel k e
    → start_round k left e pm ≡ some pm'
    → IsValid (suc n) pm'
unfolding start_round take_up end_first_teardown
start_round-IsValid k subscribe left s law h = absurd (cc (rw s.nobody at h))
start_round-IsValid {pm} k signal left s law h =
    IsOver-IsValid
      (subst IsOver (some_inj.0 h) (end_signal_starting-IsOver k pm (rw s.no_listeners tt)))
start_round-IsValid {pm} k (exited w) left s law h =
    at_end (subst HasEnded (some_inj.0 h) (end_exited-HasEnded k pm (rw s.no_listeners tt) w law))
start_round-IsValid k teardown left s law h = absurd (cc (rw s.no_teardown at h))
start_round-IsValid k (second true) left s law h = in_between (
    subst IsBackground (some_inj.0 h) (record {
      is_background = refl;
      is_given = refl;
      none_told = rw s.no_listeners tt;
      still_running = s.running;
    }))
start_round-IsValid {n} k (second false) left s law h =
    subst (IsValid (suc n)) (some_inj.0 h) (next_round-IsValid left k s)

pub round-IsValid :
    {n : ℕ} {pm pm' : Manager} (k : Kernel) (e : Event)
    → IsValid n pm
    → IsKernel k e
    → round k e pm ≡ some pm'
    → IsValid (suc n) pm'
unfolding round round_in
round-IsValid {pm} {pm'} k e (in_start left s) law h =
    start_round-IsValid k e left s law (ap (λ phase. round_in phase k e pm) (sym s.is_start) ∙ h)
round-IsValid {pm} k e (in_between b) law h =
    background_round-IsValid k e b law
      (ap (λ phase. round_in phase k e pm) (sym b.is_background) ∙ h)
round-IsValid {pm} k e (at_end o) law h =
    absurd (cc (ap (λ phase. round_in phase k e pm) (sym o.over) ∙ h))
round-IsValid {pm} k e (in_kill s) law h =
    absurd (cc (ap (λ phase. round_in phase k e pm) (sym s.waits) ∙ h))
