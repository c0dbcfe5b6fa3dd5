-- ===== src/Workload/Streams.antt =====
-- sim/workload_trace.cpp: `replay_events`: the ready cycles of the streams, at a barrier.
use programmable_retention_t.Prelude.{
  suc, zero, List, get_elem?, IsUnique, Bool-cases, inl, inr, ◌==◌, refl, ap, RetentionClass,
  ephemeral, epoch, durable, at, ℕ, ◌≤◌, max, [], ◌∷◌, some, ◌≡◌, arith, Entries, lookup,
}
use programmable_retention_t.EvidenceModel.Queries.{bank_ready_cycle, latest}
use programmable_retention_t.EvidenceModel.Types.{EvidenceMemory}
use programmable_retention_t.Workload.Events.{Event}
use programmable_retention_t.Workload.Ranges.{all_streams_ready, set_all}
use programmable_retention_t.Workload.Lifecycle.{ReplayState}
use programmable_retention_t.Workload.Replay.{replay_barrier}

-- The cycle that a stream has is at most the latest of all.
pub lookup-all_streams_ready :
    (e : Entries ℕ) (stream r : ℕ) → lookup stream e ≡ some r → r ≤ all_streams_ready e
unfolding lookup all_streams_ready
lookup-all_streams_ready [] stream r h = ground arith
lookup-all_streams_ready ((key, ready) ∷ rest) stream r h =
    ground (arith, lookup-all_streams_ready rest stream r)

pub lookup-set_all :
    (e : Entries ℕ) (ready stream r : ℕ)
    → lookup stream e ≡ some r
    → lookup stream (set_all ready e) ≡ some ready
unfolding lookup set_all
lookup-set_all [] ready stream r h = ground arith
lookup-set_all ((key, old) ∷ rest) ready stream r h =
    ground (arith, lookup-set_all rest ready stream r)

-- The latest of all is a cycle that some stream has, or the first one.
all_streams_ready_least :
    (e : Entries ℕ) (bound : ℕ)
    → IsUnique e
    → ((stream r : ℕ) → lookup stream e ≡ some r → r ≤ bound)
    → all_streams_ready e ≤ bound
unfolding all_streams_ready lookup
all_streams_ready_least [] bound u h = omega arith
all_streams_ready_least ((key, ready) ∷ rest) bound u h =
    let own : ready ≤ bound = h key ready (ground arith) in
    let others = all_streams_ready_least rest bound u.1 (λ stream r e.
      h stream r (elim (Bool-cases (key == stream)) [
        | inl same ↦ absurd (ground (arith, u.0, e, ap (λ (k : ℕ). lookup k rest)))
        | inr other ↦ rw other e
      ])) in
    omega (arith, own, others)

latest_start : (result : ℕ) (xs : List ℕ) → result ≤ latest result xs
unfolding latest
latest_start result [] = omega arith
latest_start result (x ∷ xs) = omega (arith, latest_start (max result x) xs)

latest_upper : (result : ℕ) (xs : List ℕ) (j x : ℕ) → get_elem? xs j ≡ some x → x ≤ latest result xs
unfolding latest
latest_upper result [] j x h = ground arith
latest_upper result (y ∷ ys) zero x h = ground (arith, latest_start (max result y) ys)
latest_upper result (y ∷ ys) (suc j) x h = latest_upper (max result y) ys j x h

latest_least :
    (result : ℕ) (xs : List ℕ) (bound : ℕ)
    → result ≤ bound
    → ((j x : ℕ) → get_elem? xs j ≡ some x → x ≤ bound)
    → latest result xs ≤ bound
unfolding latest
latest_least result [] bound low h = low
latest_least result (y ∷ ys) bound low h =
    latest_least (max result y) ys bound (omega (arith, low, h 0 y refl)) (λ j. h (suc j))

module _ {D G : Type 0} where
  -- No channel of the three banks is busy behind `bound`.
  abbrev pub ChannelsFreeBy : EvidenceMemory D G → ℕ → Type 0
  ChannelsFreeBy m bound =
      (c : RetentionClass) (j x : ℕ) → get_elem? (at c m.banks).channel_ready j ≡ some x → x ≤ bound

  bank_ready_cycle-ChannelsFreeBy : (m : EvidenceMemory D G) → ChannelsFreeBy m (bank_ready_cycle m)
  unfolding bank_ready_cycle
  bank_ready_cycle-ChannelsFreeBy m ephemeral j x h =
      let first = latest 0 m.banks.of_ephemeral.channel_ready in
      let second = latest first m.banks.of_epoch.channel_ready in
      omega (
        arith,
        latest_upper 0 m.banks.of_ephemeral.channel_ready j x h,
        latest_start first m.banks.of_epoch.channel_ready,
        latest_start second m.banks.of_durable.channel_ready,
      )
  bank_ready_cycle-ChannelsFreeBy m epoch j x h =
      let first = latest 0 m.banks.of_ephemeral.channel_ready in
      let second = latest first m.banks.of_epoch.channel_ready in
      omega (
        arith,
        latest_upper first m.banks.of_epoch.channel_ready j x h,
        latest_start second m.banks.of_durable.channel_ready,
      )
  bank_ready_cycle-ChannelsFreeBy m durable j x h =
      latest_upper
        (latest (latest 0 m.banks.of_ephemeral.channel_ready) m.banks.of_epoch.channel_ready)
        m.banks.of_durable.channel_ready j x h

  bank_ready_cycle_least :
      (m : EvidenceMemory D G) (bound : ℕ) → ChannelsFreeBy m bound → bank_ready_cycle m ≤ bound
  unfolding bank_ready_cycle
  bank_ready_cycle_least m bound free =
      latest_least _ _ bound
        (latest_least _ _ bound (latest_least 0 _ bound (omega arith) (free ephemeral))
          (free epoch))
        (free durable)

  -- Everything that a barrier waits for has happened by `bound`.
  pub record IsPast (s : ReplayState D G) (event : Event) (ready bound : ℕ) : Type 0 where
    pub streams : (stream r : ℕ) → lookup stream s.stream_ready ≡ some r → r ≤ bound
    pub channels : ChannelsFreeBy s.memory bound
    pub tick : event.tick ≤ bound
    pub own : ready ≤ bound

  -- Where no stream stands twice, a barrier leaves every known stream ready at one cycle, which is
  -- the least that is not before any stream's ready cycle, any ready cycle of a channel of the three
  -- banks, the barrier's own tick and the ready cycle `ready` of its stream.
  pub replay_barrier-IsPast :
      (s : ReplayState D G) (event : Event) (ready : ℕ)
      → IsUnique s.stream_ready
      → (fence : ℕ) × IsPast s event ready fence
        × ((bound : ℕ) → IsPast s event ready bound → fence ≤ bound)
        × ((stream r : ℕ)
            → lookup stream s.stream_ready ≡ some r
            → lookup stream (replay_barrier s event ready).stream_ready ≡ some fence)
  unfolding replay_barrier
  replay_barrier-IsPast s event ready u =
      let streams = all_streams_ready s.stream_ready in
      let banks = bank_ready_cycle s.memory in
      let fence = max (max (max ready streams) banks) event.tick in
      (
        fence,
        record {
          streams = λ stream r h. omega (arith, lookup-all_streams_ready s.stream_ready stream r h);
          channels = λ c j x h. omega (arith, bank_ready_cycle-ChannelsFreeBy s.memory c j x h);
          tick = omega arith;
          own = omega arith;
        },
        (λ bound past. omega (
          arith,
          past.tick,
          past.own,
          all_streams_ready_least s.stream_ready bound u past.streams,
          bank_ready_cycle_least s.memory bound past.channels,
        )),
        lookup-set_all s.stream_ready fence,
      )
