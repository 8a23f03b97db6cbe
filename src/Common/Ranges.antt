-- ===== src/Common/Ranges.antt =====
-- common/utils.go: ArrayToRanges, RangesToArray and PortIterator.
-- An int64 is its bit pattern, a number below 2 ^ 64, so the conversions between int64 and uint64
-- keep it; `none` is a run-time panic. Memory is not bounded.
pub mod Sorted
pub mod RoundTrip
use riak_mesos_legacy.Base.{
  ℕ, zero, suc, ◌+◌, ◌-◌, ◌%◌, ◌^◌, Bool, true, false, List, [], ◌∷◌, ◌++◌, map, Option, none, some,
  ltb, leb, if◌then◌else◌, replicate,
}
use riak_mesos_legacy.Base.Opt.{◌>>=◌}
use riak_mesos_legacy.Base.Text.{codes, text_eq}
use riak_mesos_legacy.Mesos.{ValueRange, Resource, MesosUtil, get_ranges}

abbrev pub u64 : ℕ → ℕ
u64 n = n % 2 ^ 64

-- `a < b` on int64.
unfoldable pub less : ℕ → ℕ → Bool
less a b = ltb (u64 (a + 2 ^ 63)) (u64 (b + 2 ^ 63))

insert_sorted : ℕ → List ℕ → List ℕ
insert_sorted a [] = a ∷ []
insert_sorted a (b ∷ l) = if less b a then b ∷ insert_sorted a l else a ∷ b ∷ l

-- `sort.Sort(intarray(ports))`: the result of a sort by `Less` does not depend on its method.
unfoldable pub sort : List ℕ → List ℕ
unfolding insert_sorted
sort [] = []
sort (a ∷ l) = insert_sorted a (sort l)

-- The loop that builds `fakeret`; its last pair is held apart.
unfoldable pub extend_ranges : ℕ → ℕ → List ℕ → List (ℕ × ℕ)
extend_ranges lo hi [] = (lo, hi) ∷ []
extend_ranges lo hi (val ∷ l) = elim (less (u64 (hi + 1)) val) [
  | true ↦ (lo, hi) ∷ extend_ranges val val l
  | false ↦ extend_ranges lo val l
]

fakeret : List ℕ → List (ℕ × ℕ)
fakeret [] = []
fakeret (port ∷ l) = extend_ranges port port (port ∷ l)

abbrev pub to_value_range : ℕ × ℕ → ValueRange
to_value_range (lo, hi) = record { begin = lo; end = hi }

unfoldable pub array_to_ranges : List ℕ → List ValueRange
unfolding fakeret
array_to_ranges ports = map to_value_range (fakeret (sort ports))

-- The loop of `RangesToArray` from `i` to `end` with `n` places of `temp` left. A place that the
-- loop does not reach keeps its 0; a write past the last place panics.
unfoldable pub fill : ℕ → ℕ → ℕ → Option (List ℕ)
fill zero i end = if leb i end then none else some []
fill (suc n) i end = elim (leb i end) [
  | true ↦ fill n (u64 (i + 1)) end >>= λ l. some (i ∷ l)
  | false ↦ some (0 ∷ replicate n 0)
]

-- `make` panics if the size does not fit an int.
unfoldable pub range_to_array : ValueRange → Option (List ℕ)
unfolding fill
range_to_array r =
    let size = u64 (r.end + 2 ^ 64 - r.begin + 1) in
    if leb (2 ^ 63) size then none else fill size r.begin r.end

unfoldable pub ranges_to_array : List ValueRange → Option (List ℕ)
unfolding range_to_array
ranges_to_array [] = some []
ranges_to_array (r ∷ rs) = do
  temp ← range_to_array r
  rest ← ranges_to_array rs
  some (temp ++ rest)

unfoldable pub ports_of : List Resource → Option (List ℕ)
unfolding ranges_to_array
ports_of [] = some []
ports_of (r ∷ rs) = do
  temp ← ranges_to_array (get_ranges r)
  rest ← ports_of rs
  some (temp ++ rest)

-- The ports that the channel of `PortIterator` yields before it is closed.
unfoldable pub port_iterator : MesosUtil → List Resource → Option (List ℕ)
unfolding ports_of
port_iterator u resources =
    ports_of (u.filter_resources resources (λ res. text_eq res.name (codes "ports")))
