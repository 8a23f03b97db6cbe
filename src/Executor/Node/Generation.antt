-- ===== src/Executor/Node/Generation.antt =====
-- next() of executor/node.go: the number that it tells the master in four bytes.
use riak_mesos_legacy.Base.{
  ℕ, zero, suc, ◌+◌, ◌-◌, ◌*◌, ◌/◌, ◌%◌, ◌^◌, ◌≤◌, ◌<◌, ◌≡◌, ◌↔◌, refl, ap, ◌∙◌, inl, inr, true,
  false, List, [], ◌∷◌, ◌++◌, Option, none, some, arith, length, length-append, leb, ltb, replicate,
  if◌then◌else◌, Bool-cases,
}
use riak_mesos_legacy.Mesos.{task_running}
use riak_mesos_legacy.Metadata.Zookeeper.{Zk}
use riak_mesos_legacy.Executor.{
  RiakNode, Core, done, panics, Master, Ran, Update, ◌>>=◌, ◌>>◌, send_status, send_by_driver,
}
use riak_mesos_legacy.Executor.Node.{uvarint, set_node, send_generation, next}
use riak_mesos_legacy.Executor.Coordination.{CoordinatedData}
use riak_mesos_legacy.Base.Text.{Text}

-- Groups of seven bits, low ones first, up to a byte below 128.
unfoldable pub decode : List ℕ → ℕ
decode [] = 0
decode (b ∷ s) = let rest = decode s in if ltb b 128 then b else b - 128 + 128 * rest

decode-uvarint :
    (fuel x : ℕ) (pad : List ℕ) → x < 128 ^ suc fuel → decode (uvarint (suc fuel) x ++ pad) ≡ x
unfolding decode uvarint
decode-uvarint zero x pad h =
    let small : ltb x 128 ≡ true = ground arith in rw (uvarint, small) (rw small refl)
decode-uvarint (suc fuel) x pad h = elim (Bool-cases (ltb x 128)) [
  | inl small ↦ rw (uvarint, small) (rw small refl)
  | inr large ↦
      let rest = decode-uvarint fuel (x / 128) pad (ground arith) in
      let high : ltb (x % 128 + 128) 128 ≡ false = ground arith in
      rw (uvarint, large) (rw (high, rest) (omega arith))
]

-- How many bytes a number takes.
one_byte : (f x : ℕ) → x < 128 → length (uvarint (suc f) x) ≤ 1
unfolding uvarint
one_byte f x h = ground arith

two_bytes : (f x : ℕ) → x < 16384 → length (uvarint (suc (suc f)) x) ≤ 2
unfolding uvarint
two_bytes f x h = ground (arith, one_byte f (x / 128))

three_bytes : (f x : ℕ) → x < 2097152 → length (uvarint (suc (suc (suc f))) x) ≤ 3
unfolding uvarint
three_bytes f x h = ground (arith, two_bytes f (x / 128))

four_bytes : (f x : ℕ) → x < 268435456 → length (uvarint (suc (suc (suc (suc f)))) x) ≤ 4
unfolding uvarint
four_bytes f x h = ground (arith, three_bytes f (x / 128))

at_least_one : (f x : ℕ) → 1 ≤ length (uvarint (suc f) x)
unfolding uvarint
at_least_one f x = ground arith

at_least_two : (f x : ℕ) → 128 ≤ x → 2 ≤ length (uvarint (suc (suc f)) x)
unfolding uvarint
at_least_two f x h = ground (arith, at_least_one f (x / 128))

at_least_three : (f x : ℕ) → 16384 ≤ x → 3 ≤ length (uvarint (suc (suc (suc f))) x)
unfolding uvarint
at_least_three f x h = ground (arith, at_least_two f (x / 128))

at_least_four : (f x : ℕ) → 2097152 ≤ x → 4 ≤ length (uvarint (suc (suc (suc (suc f)))) x)
unfolding uvarint
at_least_four f x h = ground (arith, at_least_three f (x / 128))

at_least_five : (f x : ℕ) → 268435456 ≤ x → 5 ≤ length (uvarint (suc (suc (suc (suc (suc f))))) x)
unfolding uvarint
at_least_five f x h = ground (arith, at_least_four f (x / 128))

fits_iff : (x : ℕ) → (leb (length (uvarint 10 x)) 4 ≡ true) ↔ (x < 268435456)
fits_iff x = (
  (λ h. elim (Bool-cases (ltb x 268435456)) [
    | inl small ↦ ground arith
    | inr large ↦ absurd (ground (arith, at_least_five 5 x))
  ]),
  (λ h. ground (arith, four_bytes 6 x)),
)

length-replicate : (k : ℕ) → length {A = ℕ} (replicate k 0) ≡ k
length-replicate zero = refl
length-replicate (suc k) = ap suc (length-replicate k)

padded :
    (bin : List ℕ) → leb (length bin) 4 ≡ true → length (bin ++ replicate (4 - length bin) 0) ≡ 4
padded bin h =
    length-append bin (replicate (4 - length bin) 0)
    ∙ ap (λ k. length bin + k) (length-replicate (4 - length bin))
    ∙ ground arith

-- The master is told, and the node is kept.
told :
    {S : Type 0} (master : Master) (c : Core S) (n : RiakNode) (u : Update)
    → c.driver ≡ true
    → master (length c.sent) ≡ true
    → (send_by_driver master u >> set_node n) c
      ≡ done (record c { sent = c.sent ++ u ∷ []; riak_node = some n }) tt
unfolding send_by_driver send_status set_node
told master c n u d m = rw (◌>>=◌, send_by_driver, d, send_status, m) refl

module _ (z : Zk) (master : Master) (serialize : CoordinatedData → Text)
    (status_data : ℕ → List ℕ) where
  open z use {State}

  next-send_generation :
      (c : Core State) (n : RiakNode)
      → c.riak_node ≡ some n
      → next z master serialize status_data c ≡ send_generation z master serialize status_data n c
  unfolding next
  next-send_generation c n e =
      ap
        (λ (o : Option RiakNode). elim o as (λ _. Ran State (Unit {0})) [
          | none ↦ panics c
          | some x ↦ send_generation z master serialize status_data x c
        ])
        e

  -- Where the executor has its node and its driver, and the master takes the status: next() returns
  -- exactly when the generation is below 2^28. It has then told the master that the task runs, with
  -- four bytes that are the generation when they are read back, and has counted it up.
  pub next_iff :
      (c : Core State) (n : RiakNode)
      → c.riak_node ≡ some n
      → c.driver ≡ true
      → master (length c.sent) ≡ true
      → ((data_ : List ℕ) × (length data_ ≡ 4)
          × (decode data_ ≡ n.generation)
          × (next z master serialize status_data c
              ≡ done
                  (record c {
                    sent = c.sent ++ (record { state = task_running; data_sent = data_ }) ∷ [];
                    riak_node = some (record n { generation = n.generation + 1 });
                  })
                  tt))
        ↔ (n.generation < 2 ^ 28)
  unfolding next send_generation send_by_driver send_status set_node
  next_iff c n e d m = (
    (λ (data_, _, _, went). elim (Bool-cases (leb (length (uvarint 10 n.generation)) 4)) [
      | inl fits ↦ (fits_iff n.generation).0 fits
      | inr not_fits ↦ absurd (cc (rw (next, e, not_fits) at went))
    ]),
    (λ h.
        let bin = uvarint 10 n.generation in
        let fits = (fits_iff n.generation).1 h in
        let counted : (n.generation + 1) % 2 ^ 64 ≡ n.generation + 1 = omega arith in
        (
          bin ++ replicate (4 - length bin) 0,
          padded bin fits,
          decode-uvarint 9 n.generation _ (omega arith),
          next-send_generation c n e
              ∙ rw (send_generation, fits)
                  (told master c _ _ d m
                    ∙ ap
                        (λ g.
                          done
                            (record c {
                              sent =
                                  c.sent
                                  ++ (record {
                                    state = task_running;
                                    data_sent = bin ++ replicate (4 - length bin) 0;
                                  })
                                    ∷ [];
                              riak_node = some (record n { generation = g });
                            })
                            tt)
                        counted),
        )),
  )
