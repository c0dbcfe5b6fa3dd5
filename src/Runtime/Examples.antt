-- ===== src/Runtime/Examples.antt =====
-- A backend and a trace writer that count their calls, tests of the runtime's operations, and the
-- theorems on it at inputs that meet their hypotheses.
use programmable_retention_t.Prelude.{
  [], ℕ, insert, add64, ◌+◌, ◌≤◌, ◌<◌, ◌≢◌, true, false, Option, none, some, ◌≡◌, ◌↔◌, ◌⊎◌, refl,
  arith, infinite, epoch, durable, lookup,
}
use programmable_retention_t.Prelude.Exceptions.{Attempt, returned, thrown, undefined}
use programmable_retention_t.Runtime.Types.{
  Status, success, Buffer, Runtime, RuntimeOptions, active, manual, required, expiry_refresh,
  Backend, TraceSink, reply, deadline_locked,
}
use programmable_retention_t.Runtime.Maintenance.{succeeded}
use programmable_retention_t.Runtime.Maintenance.{touched, maintain_locked}
use programmable_retention_t.Runtime.Upkeep.{maintain_locked-refreshes}
use programmable_retention_t.Runtime.Buffers.{rt_buffer_mark_written}
use programmable_retention_t.Runtime.Deadlines.{
  retention_of, WritesAgain, FindsExpired, mark_written-advance-mark_written,
}
use programmable_retention_t.Runtime.Polling.{rt_runtime_advance}
use programmable_retention_t.Runtime.Creation.{make_runtime}
use programmable_retention_t.Runtime.Moves.{IsWithin}
use programmable_retention_t.Runtime.Calls.{
  Call, advances, polls, creates, allocates, points, perform, Reaches, nothing, then_call,
}
use programmable_retention_t.Runtime.Histories.{Reaches-make_runtime-IsWithin}
use programmable_retention_t.Runtime.Expiry.{rt_runtime_advance-exact}

instance abbrev numbered : Backend ℕ ℕ
numbered = record {
  allocate = λ n c size alignment. (n + 1, reply n);
  map_allocation = λ n a flags size. (n, reply (some (a + 4096)));
  unmap_allocation = λ n a flags size. (n, reply tt);
  device_address = λ n a. reply a;
  host_coherent = λ n. true;
  load = λ n pointer offset size. [];
  store = λ n pointer offset bytes. n;
  migrate = λ n a source destination size alignment. (n + 1, reply (some n));
  flush = λ n a size. (n, reply tt);
  destroy = λ n a. n;
}

instance abbrev silent : TraceSink ℕ
silent = record {
  trace_allocation = λ w tick id size alignment c name. (w + 1, true);
  trace_free = λ w tick id. (w + 1, true);
  trace_hint = λ w tick id c. (w + 1, true);
  trace_access = λ w tick stream is_read id offset size. (w + 1, true);
  trace_phase = λ w tick name. (w + 1, true);
  trace_compute = λ w tick stream cycles. (w + 1, true);
  trace_barrier = λ w tick stream barrier. (w + 1, true);
  flush_writer = λ w. (w, true);
  writer_error = λ w. "";
}

abbrev options : RuntimeOptions
options = record {
  clock_mode = manual;
  tick_ns = 1;
  poll_guard_ticks = 8;
  class_retention_ticks = record { of_ephemeral = 128; of_epoch = 4096; of_durable = infinite };
  class_capacity_bytes = record { of_ephemeral = 64; of_epoch = 256; of_durable = 0 };
}

abbrev start : Runtime ℕ ℕ ℕ
start = make_runtime options 1

-- The state after a call that returned.
unfoldable after : Runtime ℕ ℕ ℕ → Call ℕ → Runtime ℕ ℕ ℕ
unfolding perform
after rt call = elim (perform rt call) [ returned rt' ↦ rt' | thrown message ↦ rt | undefined ↦ rt ]

abbrev with_region : Runtime ℕ ℕ ℕ
with_region = after start (creates none "r")

abbrev with_buffer : Runtime ℕ ℕ ℕ
with_buffer = after with_region (allocates 1 200 8)

abbrev late : Runtime ℕ ℕ ℕ
late = after with_buffer (advances 4096)

-- A second buffer does not fit into the class's capacity.
second_allocation_fails : (after with_buffer (allocates 1 100 8)).stats.allocation_failures ≡ 1
unfolding after points lookup make_runtime insert add64
second_allocation_fails = refl

poll_expires : (after late polls).stats.expiry_events ≡ 1
unfolding after points lookup make_runtime insert add64
poll_expires = refl

region_reached : Reaches start with_region
unfolding after points lookup make_runtime insert add64
region_reached = then_call start with_region (creates none "r") nothing refl refl

buffer_reached : Reaches start with_buffer
unfolding after points lookup make_runtime insert add64
buffer_reached = then_call with_region with_buffer (allocates 1 200 8) region_reached refl refl

late_reached : Reaches start late
unfolding after points lookup make_runtime insert add64
late_reached = then_call with_buffer late (advances 4096) buffer_reached refl refl

Reaches-make_runtime-IsWithin_example : IsWithin epoch late
Reaches-make_runtime-IsWithin_example =
    Reaches-make_runtime-IsWithin epoch options 1 late (omega arith) (omega arith) late_reached

abbrev the_buffer : Option (Buffer ℕ) → Buffer ℕ
the_buffer none = record {
  region = 1;
  allocation = none;
  exposed_pointer = none;
  size_bytes = 0;
  alignment = 8;
  retention_class = epoch;
  guarantee = required;
  on_expiry = expiry_refresh;
  promotion_target = durable;
  state = active;
  map_count = 0;
  map_flags = 0;
  created_tick = 0;
  last_write_tick = 0;
  generation = 0;
  trace_id = 0;
  trace_live = false;
}
the_buffer (some b) = b

abbrev first_buffer : Buffer ℕ
first_buffer = the_buffer (lookup 2 with_buffer.heap)

rt_runtime_advance-exact_example :
    ((succeeded (rt_runtime_advance late 5).1 ≡ true) ↔ (late.manual_tick + 5 ≤ infinite))
    × (succeeded (rt_runtime_advance late 5).1 ≡ true
        → (rt_runtime_advance late 5).0.manual_tick ≡ late.manual_tick + 5)
    × (succeeded (rt_runtime_advance late 5).1 ≡ false
        → (rt_runtime_advance late 5).0.manual_tick ≡ late.manual_tick)
unfolding after points lookup make_runtime insert add64
rt_runtime_advance-exact_example = rt_runtime_advance-exact late 5 refl (omega arith)

abbrev near : Runtime ℕ ℕ ℕ
near = after with_buffer (advances 4090)

ahead : 4090 < deadline_locked near first_buffer
unfolding after points lookup make_runtime insert add64
ahead = omega arith

near_finite : deadline_locked near first_buffer ≢ infinite
unfolding after points lookup make_runtime insert add64
near_finite = omega arith

within_guard : deadline_locked near first_buffer ≤ 4090 + near.options.poll_guard_ticks
unfolding after points lookup make_runtime insert add64
within_guard = omega arith

maintain_locked-refreshes_example :
    ((maintain_locked near 2 first_buffer 4090).1 ≡ success)
    × (lookup 2 (maintain_locked near 2 first_buffer 4090).0.heap
        ≡ some (touched first_buffer 4090))
    × (4090
        < deadline_locked (maintain_locked near 2 first_buffer 4090).0 (touched first_buffer 4090))
unfolding after points lookup make_runtime insert add64
maintain_locked-refreshes_example =
    maintain_locked-refreshes near 2 first_buffer 4090 refl refl refl ahead near_finite within_guard
      (omega arith) (omega arith)

abbrev state_of : Attempt (Runtime ℕ ℕ ℕ × Status) → Runtime ℕ ℕ ℕ
state_of (returned (rt, status)) = rt
state_of (thrown message) = start
state_of undefined = start

abbrev written : Runtime ℕ ℕ ℕ
written = state_of (rt_buffer_mark_written with_buffer (some 2))

written_returned : rt_buffer_mark_written with_buffer (some 2) ≡ returned (written, success)
unfolding after points lookup make_runtime insert add64 rt_buffer_mark_written
written_returned = refl

mark_written-advance-mark_written_example :
    ((4096 < retention_of with_buffer first_buffer)
      × WritesAgain (rt_runtime_advance written 4096).0 2)
    ⊎ ((retention_of with_buffer first_buffer ≤ 4096)
        × FindsExpired
            (rt_runtime_advance written 4096).0
            2
            (touched first_buffer with_buffer.manual_tick))
unfolding after points lookup make_runtime insert add64
mark_written-advance-mark_written_example =
    mark_written-advance-mark_written with_buffer written 2 first_buffer 4096 refl refl
      written_returned (omega arith)
