-- ===== src/ProcessManager/Life.antt =====
-- The life of a process manager, over any order of events (process_manager/manager.go).
use riak_mesos_legacy.Base.{
  is_some, ℕ, ◌≤◌, ◌≡◌, ◌≢◌, refl, Bool, true, false, Bool-cases, inl, inr, none, some, arith, ltb,
  length, subst, ap, ◌∙◌,
}
use riak_mesos_legacy.ProcessManager.{
  Manager, Kernel, second, start_round, round_in, round, queued, listen, tear_down, is_ended, stuck,
}
use riak_mesos_legacy.ProcessManager.Steps.{
  Reach, begins, turns, listens, tears_down, IsValid, in_start, in_between, at_end, in_kill,
}
use riak_mesos_legacy.ProcessManager.Rounds.{round-IsValid}

-- A send changes neither the phase nor what was answered or told.
record Sends (pm pm' : Manager) : Type 0 where
  going_on : is_ended pm.phase ≡ false
  same_phase : pm'.phase ≡ pm.phase
  same_answer : pm'.answered ≡ pm.answered
  same_subscriptions : pm'.subscriptions ≡ pm.subscriptions
  same_reaped : pm'.reaped ≡ pm.reaped

queued_inj : {pm pm' : Manager} → queued pm ≡ queued pm' → pm ≡ pm'
queued_inj e = cc

listen-Sends : (id : ℕ) (pm pm' : Manager) → listen id pm ≡ queued pm' → Sends pm pm'
unfolding listen
listen-Sends id pm pm' h = elim (Bool-cases (is_ended pm.phase)) [
  | inl over ↦ absurd (cc (rw over at h))
  | inr on ↦ elim (Bool-cases (ltb (length pm.listening) 10)) [
    | inr full ↦ absurd (cc (rw (on, full) at h))
    | inl room ↦ subst (Sends pm) (queued_inj (rw (on, room) at h)) (record {
      going_on = on;
      same_phase = refl;
      same_answer = refl;
      same_subscriptions = refl;
      same_reaped = refl;
    })
  ]
]

tear_down-Sends : (t : ℕ) (pm pm' : Manager) → tear_down t pm ≡ queued pm' → Sends pm pm'
unfolding tear_down
tear_down-Sends t pm pm' h = elim (Bool-cases (is_ended pm.phase)) [
  | inl over ↦ absurd (cc (rw over at h))
  | inr on ↦ elim (Bool-cases (ltb (length pm.tearing) 10)) [
    | inr full ↦ absurd (cc (rw (on, full) at h))
    | inl room ↦ subst (Sends pm) (queued_inj (rw (on, room) at h)) (record {
      going_on = on;
      same_phase = refl;
      same_answer = refl;
      same_subscriptions = refl;
      same_reaped = refl;
    })
  ]
]

Sends-IsValid :
    {n : ℕ} {pm pm' : Manager}
    → Sends pm pm'
    → pm.answered ≡ some true
    → IsValid n pm
    → IsValid n pm'
Sends-IsValid s a (in_start left i) = absurd (cc (a, i.unanswered))
Sends-IsValid s a (in_between b) = in_between (record {
  is_background = s.same_phase ∙ b.is_background;
  is_given = s.same_answer ∙ b.is_given;
  none_told = rw s.same_subscriptions b.none_told;
  still_running = s.same_reaped ∙ b.still_running;
})
Sends-IsValid s a (at_end o) = absurd (cc (ap is_ended o.over, s.going_on))
Sends-IsValid s a (in_kill w) = in_kill (record {
  waits = s.same_phase ∙ w.waits;
  status = w.status;
  all_told = rw s.same_subscriptions w.all_told;
})

-- Whatever the order of events, while the kernel answers for no process that was reaped, the manager
-- is in its start, with sixty rounds less those made, or in the background, given to its caller and
-- with no listener told, or it has ended, its caller answered, or it waits for ever for the status of
-- the process that it kills; in these last two every listener that it had taken up was told one
-- status. A listener that is still queued then is told nothing.
pub Reach-IsValid : {n : ℕ} {pm : Manager} → Reach n pm → IsValid n pm
Reach-IsValid begins = in_start 59 (record {
  is_start = refl;
  rounds_left = refl;
  unanswered = refl;
  nobody = refl;
  no_teardown = refl;
  no_listeners = refl;
  running = refl;
})
Reach-IsValid (turns k e r law h) = round-IsValid k e (Reach-IsValid r) law h
Reach-IsValid (listens {pm = pm} {pm' = pm'} id r a h) =
    Sends-IsValid (listen-Sends id pm pm' h) a (Reach-IsValid r)
Reach-IsValid (tears_down {pm = pm} {pm' = pm'} t r a h) =
    Sends-IsValid (tear_down-Sends t pm pm' h) a (Reach-IsValid r)

answered-IsValid :
    {n : ℕ} {pm : Manager} → IsValid n pm → pm.phase ≢ stuck → 60 ≤ n → is_some pm.answered ≡ true
answered-IsValid (in_start left i) free le = absurd (omega (arith, i.rounds_left, le))
answered-IsValid (in_between b) free le = rw b.is_given refl
answered-IsValid (at_end o) free le = rw o.is_answered refl
answered-IsValid (in_kill w) free le = absurd (free w.waits)

start_round-second :
    (k : Kernel) (left : ℕ) (healthy : Bool) (pm : Manager)
    → is_some (start_round k left (second healthy) pm) ≡ true
unfolding start_round
start_round-second k left true pm = refl
start_round-second k left false pm = refl

round-second :
    {n : ℕ} {pm : Manager} (k : Kernel) (healthy : Bool)
    → IsValid n pm
    → pm.phase ≢ stuck
    → pm.answered ≡ none
    → is_some (round k (second healthy) pm) ≡ true
unfolding round round_in
round-second {pm} k healthy (in_start left i) free a =
    ap (λ phase. is_some (round_in phase k (second healthy) pm)) i.is_start
    ∙ start_round-second k left healthy pm
round-second k healthy (in_between b) free a = absurd (cc (a, b.is_given))
round-second k healthy (at_end o) free a = absurd (cc (a, o.is_answered))
round-second k healthy (in_kill w) free a = absurd (free w.waits)

-- Unless the manager waits for ever in killProcess for the status of the process, NewProcessManager is
-- answered after sixty rounds at most; and until it is, each second that passes makes a round.
pub answered_in_time :
    {n : ℕ} {pm : Manager} (k : Kernel) (healthy : Bool)
    → Reach n pm
    → pm.phase ≢ stuck
    → (60 ≤ n → is_some pm.answered ≡ true)
      × (pm.answered ≡ none → is_some (round k (second healthy) pm) ≡ true)
answered_in_time k healthy r free =
    (answered-IsValid (Reach-IsValid r) free, round-second k healthy (Reach-IsValid r) free)
