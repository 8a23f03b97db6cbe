-- ===== src/Scheduler/Explorer/Retries.antt =====
-- How often doJoin and doLeave (scheduler/cluster.go) ask, and what of an answer they go by
-- (riak_explorer/client.go).
use riak_mesos_legacy.Base.{
  ℕ, zero, suc, ◌+◌, ◌<◌, ◌≡◌, refl, ap, ◌∙◌, ◌↔◌, ◌⊎◌, inl, inr, [], Bool, true, false, arith,
  Bool-cases,
}
use riak_mesos_legacy.Base.Text.{Text, codes, text_eq, text_eq_iff}
use riak_mesos_legacy.RiakExplorer.{
  Response, refused, unreadable, responds, value, is_success, response_body, do_get, decoded,
  change, new_riak_explorer_client, join, force_remove,
}
use riak_mesos_legacy.RiakExplorer.Address.{Command, command_uri, command_url}
use riak_mesos_legacy.RiakExplorer.Reply.{Changed, no_change}
use riak_mesos_legacy.Scheduler.Node.{Node}
use riak_mesos_legacy.Scheduler.Explorer.{
  Explorer, settles, full_name, rex_hostname, attempts, do_join, do_leave,
}

attempts-some :
    (settled : ℕ → Bool) (retry left : ℕ)
    → attempts settled retry left ≡ true
    → (k : ℕ) × (k < left) × (settled (retry + k) ≡ true)
unfolding attempts
attempts-some settled retry zero h = absurd (ground arith)
attempts-some settled retry (suc left) h = elim (Bool-cases (settled retry)) [
  | inl now ↦ (0, omega arith, ap settled (omega arith) ∙ now)
  | inr later ↦
      let (k, lt, e) = attempts-some settled (retry + 1) left (rw later at h) in
      (suc k, omega arith, ap settled (omega arith) ∙ e)
]

some-attempts :
    (settled : ℕ → Bool) (retry left k : ℕ)
    → k < left
    → settled (retry + k) ≡ true
    → attempts settled retry left ≡ true
unfolding attempts
some-attempts settled retry zero k lt e = absurd (omega arith)
some-attempts settled retry (suc left) zero lt e =
    let now : settled retry ≡ true = ap settled (omega arith) ∙ e in rw now refl
some-attempts settled retry (suc left) (suc k) lt e = elim (Bool-cases (settled retry)) [
  | inl now ↦ rw now refl
  | inr later ↦
      rw later
        (some-attempts settled (retry + 1) left k (omega arith) (ap settled (omega arith) ∙ e))
]

attempts_iff :
    (settled : ℕ → Bool) → (attempts settled 0 6 ≡ true) ↔ ((k : ℕ) × (k < 6) × (settled k ≡ true))
attempts_iff settled = (
  (λ h. let (k, lt, e) = attempts-some settled 0 6 h in (k, lt, ap settled (omega arith) ∙ e)),
  (λ (k, lt, e). some-attempts settled 0 6 k lt (ap settled (omega arith) ∙ e)),
)

-- A response with a status from 200 to 299 whose body reports success, or an error that is harmless.
abbrev pub IsAccepted : {key : Text} → (Text → Changed key) → Text → Response → Type 0
IsAccepted unmarshal harmless (refused e) = ⊥
IsAccepted unmarshal harmless (unreadable code e) = ⊥
IsAccepted unmarshal harmless (responds code body) =
    (is_success code ≡ true)
    × (((unmarshal body).success ≡ codes "ok") ⊎ ((unmarshal body).error ≡ harmless))

module _ {key : Text} (unmarshal : Text → Changed key) (harmless : Text) where
  settles_iff :
      (r : Changed key)
      → (settles harmless r ≡ true) ↔ ((r.success ≡ codes "ok") ⊎ (r.error ≡ harmless))
  settles_iff r = ground (arith, text_eq_iff r.success (codes "ok"), text_eq_iff r.error harmless)

  module _ (e : text_eq [] harmless ≡ false) where
    -- What is asked of a reply is asked of the response, as an empty reply settles nothing.
    settles-response_body :
        (r : Response)
        → (settles harmless (value (decoded no_change unmarshal (response_body r))) ≡ true)
          ↔ IsAccepted unmarshal harmless r
    unfolding decoded response_body text_eq
    settles-response_body (refused x) = ground arith
    settles-response_body (unreadable code x) = ground arith
    settles-response_body (responds code body) = elim (Bool-cases (is_success code)) [
      | inl good ↦ rw good (
        (λ h. (refl, (settles_iff (unmarshal body)).0 h)),
        (λ h. (settles_iff (unmarshal body)).1 h.1),
      )
      | inr bad ↦ rw bad ((λ h. ground arith), (λ h. absurd (cc h.0)))
    ]

    attempts-IsAccepted :
        (response : ℕ → Response)
        → (attempts
              (λ k.
                settles harmless (value (decoded no_change unmarshal (response_body (response k)))))
              0
              6
            ≡ true)
          ↔ ((k : ℕ) × (k < 6) × IsAccepted unmarshal harmless (response k))
    attempts-IsAccepted response =
        let (there, back) = attempts_iff (λ k.
          settles harmless (value (decoded no_change unmarshal (response_body (response k))))) in
        (
          (λ h. let (k, lt, d) = there h in (k, lt, (settles-response_body (response k)).0 d)),
          (λ (k, lt, d). back (k, lt, (settles-response_body (response k)).1 d)),
        )

-- A join succeeds exactly when one of the first six responses, retries 0 to 5, of the old node's
-- Riak Explorer to a GET of `admin/control/nodes/<new node>/join/<old node>` has a status from 200 to
-- 299 and a body that reports success, or that the node is no longer single.
pub do_join_iff :
    (ex : Explorer) (old_node new_node : Node)
    → (do_join ex old_node new_node ≡ true) ↔ (
        (k : ℕ) × (k < 6)
        × IsAccepted (ex.json.changed (codes "join")) (codes "not_single_node") (
            (ex.web k).get (
              command_url
                (rex_hostname old_node)
                (command_uri (Command.join (full_name new_node) (full_name old_node))))))
unfolding do_join join change do_get new_riak_explorer_client text_eq
do_join_iff ex o n =
    attempts-IsAccepted (ex.json.changed (codes "join")) (codes "not_single_node") refl (λ k.
      (ex.web k).get
        (command_url (rex_hostname o) (command_uri (Command.join (full_name n) (full_name o)))))

-- A removal succeeds exactly when one of the first six responses of the staying node's Riak Explorer
-- to a GET of `admin/control/nodes/<staying node>/force-remove/<leaving node>` has a status from 200
-- to 299 and a body that reports success, or that the node is no member.
pub do_leave_iff :
    (ex : Explorer) (staying_node leaving_node : Node)
    → (do_leave ex staying_node leaving_node ≡ true) ↔ (
        (k : ℕ) × (k < 6)
        × IsAccepted (ex.json.changed (codes "force-remove")) (codes "not_member") (
            (ex.web k).get (
              command_url (rex_hostname staying_node) (
                command_uri
                  (Command.force_remove (full_name staying_node) (full_name leaving_node))))))
unfolding do_leave force_remove change do_get new_riak_explorer_client text_eq
do_leave_iff ex o n =
    attempts-IsAccepted (ex.json.changed (codes "force-remove")) (codes "not_member") refl (λ k.
      (ex.web k).get (
        command_url (rex_hostname o)
          (command_uri (Command.force_remove (full_name o) (full_name n)))))
