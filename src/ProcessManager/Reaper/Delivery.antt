-- ===== src/ProcessManager/Reaper/Delivery.antt =====
-- Which status reaches a subscription (process_manager/manager_reaper.go).
use riak_mesos_legacy.Base.{
  ℕ, ◌≡◌, ◌≢◌, refl, sym, subst, ap, ◌∙◌, Bool-cases, inl, inr, List, [], ◌∷◌, Option, none, some,
  Option-cases, ◌==◌, ==_iff, All, ◌⊎◌,
}
use riak_mesos_legacy.Base.Int.{ℤ}
use riak_mesos_legacy.ProcessManager.Reaper.{
  Channel, open_channel, closed_channel, Reaper, reaped, wait_failed, Request, subscribes,
  unsubscribes, child_ended, Outcome, goes_on, dies, update, send, handle_request,
  process_manager_loop,
}

update_same : {A : Type 0} (f : ℕ → A) (k : ℕ) (a : A) → update f k a k ≡ a
unfolding update
update_same f k a = rw ((==_iff k k).1 refl) refl

update_other : {A : Type 0} (f : ℕ → A) (k : ℕ) (a : A) (n : ℕ) → n ≢ k → update f k a n ≡ f n
unfolding update
update_other f k a n h = elim (Bool-cases (n == k)) [
  | inl same ↦ absurd (h ((==_iff n k).0 same))
  | inr other ↦ rw other refl
]

-- The process has the channel to itself, and nothing was sent to it yet.
pub record IsWaiting (pid c : ℕ) (r : Reaper) : Type 0 where
  pub has_channel : r.subscriptions pid ≡ some c
  pub empty : r.channels c ≡ open_channel none
  pub alone : (q : ℕ) → r.subscriptions q ≡ some c → q ≡ pid

-- A request about another process and another channel.
abbrev pub IsElsewhere : ℕ → ℕ → Request → Type 0
IsElsewhere pid c (subscribes q d) = (q ≢ pid) × (d ≢ c)
IsElsewhere pid c (unsubscribes q) = q ≢ pid
IsElsewhere pid c (child_ended (reaped q status)) = q ≢ pid
IsElsewhere pid c (child_ended wait_failed) = Unit {0}

-- A subscription of another process is set to another channel, or erased.
set-IsWaiting :
    (pid c q : ℕ) (d : Option ℕ) (r : Reaper)
    → q ≢ pid
    → d ≢ some c
    → IsWaiting pid c r
    → IsWaiting pid c (record r { subscriptions = update r.subscriptions q d })
set-IsWaiting pid c q d r other away w = record {
  has_channel = update_other r.subscriptions q d pid (λ e. other (sym e)) ∙ w.has_channel;
  empty = w.empty;
  alone = λ n h. elim (Bool-cases (n == q)) [
    | inl same ↦
        let at_q : n ≡ q = (==_iff n q).0 same in
        absurd (
          away (
            sym (update_same r.subscriptions q d)
            ∙ subst (λ m. update r.subscriptions q d m ≡ some c) at_q h))
    | inr apart ↦
        w.alone n (
          sym (update_other r.subscriptions q d n (λ e. absurd (cc (apart, (==_iff n q).1 e)))) ∙ h)
  ];
}

module _ (pid c : ℕ) where
  goes_on_inj : {r r' : Reaper} → goes_on r ≡ goes_on r' → r ≡ r'
  goes_on_inj e = cc

  Channel-cases :
      (ch : Channel)
      → (ch ≡ closed_channel)
        ⊎ ((ch ≡ open_channel none) ⊎ ((w : ℤ) × (ch ≡ open_channel (some w))))
  Channel-cases closed_channel = inl refl
  Channel-cases (open_channel none) = inr (inl refl)
  Channel-cases (open_channel (some w)) = inr (inr (w, refl))

  send-IsWaiting :
      (q d : ℕ) (status : ℤ) (r r' : Reaper)
      → q ≢ pid
      → d ≢ c
      → IsWaiting pid c r
      → send r q d status ≡ goes_on r'
      → IsWaiting pid c r'
  unfolding send
  send-IsWaiting q d status r r' other away w h = elim (Channel-cases (r.channels d)) [
    | inl gone ↦ absurd (cc (rw (send, gone) at h))
    | inr (inl free) ↦ subst (IsWaiting pid c) (goes_on_inj (rw (send, free) at h)) (record {
      has_channel = w.has_channel;
      empty =
          update_other r.channels d (open_channel (some status)) c (λ e. away (sym e)) ∙ w.empty;
      alone = w.alone;
    })
    | inr (inr (old, full)) ↦
        subst (IsWaiting pid c) (goes_on_inj (rw (send, full) at h))
          (set-IsWaiting pid c q none r other (λ e. absurd (cc e)) w)
  ]

  handle_request-IsWaiting :
      (q : Request) (r r' : Reaper)
      → IsElsewhere pid c q
      → IsWaiting pid c r
      → handle_request q r ≡ goes_on r'
      → IsWaiting pid c r'
  unfolding handle_request
  handle_request-IsWaiting (subscribes q d) r r' (other, away) w h =
      elim (Option-cases (r.subscriptions q)) [
        | inl new ↦
            subst (IsWaiting pid c) (goes_on_inj (rw (handle_request, new) at h))
              (set-IsWaiting pid c q (some d) r other (λ e. away (cc e)) w)
        | inr (a, old) ↦ absurd (cc (rw (handle_request, old) at h))
      ]
  handle_request-IsWaiting (unsubscribes q) r r' other w h =
      subst (IsWaiting pid c) (goes_on_inj h)
        (set-IsWaiting pid c q none r other (λ e. absurd (cc e)) w)
  handle_request-IsWaiting (child_ended wait_failed) r r' other w h =
      subst (IsWaiting pid c) (goes_on_inj h) w
  handle_request-IsWaiting (child_ended (reaped q status)) r r' other w h =
      elim (Option-cases (r.subscriptions q)) [
        | inl nobody ↦ subst (IsWaiting pid c) (goes_on_inj (rw (handle_request, nobody) at h)) w
        | inr (d, there) ↦
            send-IsWaiting q d status r r' other
              (λ e. other (w.alone q (there ∙ ap (λ x. some x) e))) w
              (rw (handle_request, there) at h)
      ]

  Outcome-cases : (o : Outcome) → (o ≡ dies) ⊎ ((r : Reaper) × (o ≡ goes_on r))
  Outcome-cases dies = inl refl
  Outcome-cases (goes_on r) = inr (r, refl)

  loop-IsWaiting :
      (qs : List Request) (r r' : Reaper)
      → All (IsElsewhere pid c) qs
      → IsWaiting pid c r
      → process_manager_loop qs r ≡ goes_on r'
      → IsWaiting pid c r'
  unfolding process_manager_loop
  loop-IsWaiting [] r r' hs w e = subst (IsWaiting pid c) (goes_on_inj e) w
  loop-IsWaiting (q ∷ qs) r r' (h, hs) w e = elim (Outcome-cases (handle_request q r)) [
    | inl dead ↦ absurd (cc (rw (process_manager_loop, dead) at e))
    | inr (r1, s) ↦
        loop-IsWaiting qs r1 r' hs (handle_request-IsWaiting q r r1 h w s)
          (rw (process_manager_loop, s) at e)
  ]

  -- The status of a process that has a channel of its own reaches it: after any requests about other
  -- processes and channels that do not end the program, the status is sent, nothing panics, and no
  -- other channel and no subscription changes.
  pub reaped-delivered :
      (qs : List Request) (r r' : Reaper) (status : ℤ)
      → IsWaiting pid c r
      → All (IsElsewhere pid c) qs
      → process_manager_loop qs r ≡ goes_on r'
      → handle_request (child_ended (reaped pid status)) r'
        ≡ goes_on (record r' { channels = update r'.channels c (open_channel (some status)) })
  unfolding handle_request send
  reaped-delivered qs r r' status w hs e =
      let w' = loop-IsWaiting qs r r' hs w e in
      rw (handle_request, w'.has_channel, send, w'.empty) refl
