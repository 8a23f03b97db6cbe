-- ===== src/Executor/Inversion.antt =====
-- What a step of the executor has done where it returns.
use riak_mesos_legacy.Base.{
  ◌≡◌, refl, sym, ap, ◌∙◌, Bool, true, false, Bool-cases, inl, inr, [], ◌∷◌, ◌++◌, length,
  if◌then◌else◌,
}
use riak_mesos_legacy.Metadata.Retry.{Action, Ran as ZkRan, returned, panicked}
use riak_mesos_legacy.Executor.{
  Update, Core, Ran, done, panics, exits, blocks, Step, ◌>>=◌, metadata, Master, send_status,
  send_by_driver,
}

pub done_inj :
    {S A : Type 0} {c c' : Core S} {a a' : A} → done c a ≡ done c' a' → (c ≡ c') × (a ≡ a')
done_inj e = (cc, cc)

then-done :
    {S A B : Type 0} (r : Ran S A) (f : A → Step S B) (c' : Core S) (b : B)
    → (elim r as (λ _. Ran S B) [
      | done c1 a ↦ f a c1
      | panics c1 ↦ panics c1
      | exits c1 ↦ exits c1
      | blocks c1 ↦ blocks c1
    ])
      ≡ done c' b
    → (c1 : Core S) × (a : A) × (r ≡ done c1 a) × (f a c1 ≡ done c' b)
then-done (done c1 a) f c' b h = (c1, a, refl, h)
then-done (panics c1) f c' b h = absurd (cc)
then-done (exits c1) f c' b h = absurd (cc)
then-done (blocks c1) f c' b h = absurd (cc)

pub >>=-done :
    {S A B : Type 0} (m : Step S A) (f : A → Step S B) (c c' : Core S) (b : B)
    → (m >>= f) c ≡ done c' b
    → (c1 : Core S) × (a : A) × (m c ≡ done c1 a) × (f a c1 ≡ done c' b)
>>=-done m f c c' b h = then-done (m c) f c' b h

-- Behind a test whose failure is a panic.
pub guard-done :
    {S A : Type 0} (b : Bool) (r : Ran S A) (c : Core S) {c' : Core S} {a : A}
    → (if b then r else panics c) ≡ done c' a
    → r ≡ done c' a
guard-done true r c h = h
guard-done false r c h = absurd (cc)

pub send_status-done :
    {S : Type 0} (master : Master) (u : Update) (c c' : Core S) (a : Unit {0})
    → send_status master u c ≡ done c' a
    → record c { sent = c.sent ++ u ∷ [] } ≡ c'
unfolding send_status
send_status-done master u c c' a h = elim (Bool-cases (master (length c.sent))) [
  | inl taken ↦ (done_inj (rw taken at h)).0
  | inr lost ↦ absurd (cc (rw lost at h))
]

pub send_by_driver-done :
    {S : Type 0} (master : Master) (u : Update) (c c' : Core S) (a : Unit {0})
    → send_by_driver master u c ≡ done c' a
    → record c { sent = c.sent ++ u ∷ [] } ≡ c'
unfolding send_by_driver
send_by_driver-done master u c c' a h =
    send_status-done master u c c' a (guard-done c.driver (send_status master u c) c h)

metadata-cases :
    {S A : Type 0} (r : ZkRan S A) (c c' : Core S) (a : A)
    → (elim r as (λ _. Ran S A) [
      | returned s b ↦ done (record c { zk = s }) b
      | panicked s ↦ panics (record c { zk = s })
    ])
      ≡ done c' a
    → (r ≡ returned c'.zk a) × (record c { zk = c'.zk } ≡ c')
metadata-cases (returned s b) c c' a h =
    let (e, f) = done_inj h in
    let at : s ≡ c'.zk = ap (λ x. x.zk) e in
    (cc (at, f), ap (λ x. record c { zk = x.zk }) (sym e) ∙ e)
metadata-cases (panicked s) c c' a h = absurd (cc)

pub metadata-done :
    {S A : Type 0} (m : Action S A) (c c' : Core S) (a : A)
    → metadata m c ≡ done c' a
    → (m c.zk ≡ returned c'.zk a) × (record c { zk = c'.zk } ≡ c')
metadata-done m c c' a h = metadata-cases (m c.zk) c c' a h
