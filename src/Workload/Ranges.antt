-- ===== src/Workload/Ranges.antt =====
-- sim/workload_trace.cpp: the lines of an access and of an allocation, and the ready cycles of streams.
use Prim.Native.Nat.{bit_and, bit_or}
use programmable_retention_t.Prelude.{
  ℕ, ◌+◌, ◌-◌, ◌*◌, ◌/◌, ◌^◌, max, not, [], ◌∷◌, ltb, if◌then◌else◌, infinite, Entries, add64,
  sub64,
}
use programmable_retention_t.Prelude.Exceptions.{Attempt, returned, thrown}
use programmable_retention_t.RetentionModel.{line_bytes}
use programmable_retention_t.Workload.Events.{Event, is_power_of_two}

-- The first and the last line of an access; a size of 0 wraps around.
unfoldable pub line_range : Event → Attempt (ℕ × ℕ)
line_range event =
    if ltb (infinite - sub64 event.size 1) event.offset
    then thrown "access range overflow"
    else returned (event.offset / line_bytes, sub64 (add64 event.offset event.size) 1 / line_bytes)

unfoldable pub aligned_lines : ℕ → Attempt ℕ
aligned_lines size =
    if ltb (infinite - (line_bytes - 1)) size
    then thrown "allocation size overflow"
    else returned ((size + line_bytes - 1) / line_bytes)

unfoldable pub align_up : ℕ → ℕ → Attempt ℕ
align_up value alignment =
    if not (is_power_of_two alignment)
    then thrown "invalid alignment"
    else (let mask = alignment - 1 in
        if ltb (infinite - mask) value
        then thrown "logical address alignment overflow"
        else returned (bit_and (value + mask) (infinite - mask)))

-- `(thread << 32) | stream` on two 32-bit numbers
unfoldable pub stream_key : ℕ → ℕ → ℕ
stream_key thread stream = bit_or (thread * 2 ^ 32) stream

unfoldable pub all_streams_ready : Entries ℕ → ℕ
all_streams_ready [] = 0
all_streams_ready ((key, ready) ∷ rest) = max ready (all_streams_ready rest)

-- `for (auto& entry : stream_ready) entry.second = ready`
unfoldable pub set_all : ℕ → Entries ℕ → Entries ℕ
set_all ready [] = []
set_all ready ((key, old) ∷ rest) = (key, ready) ∷ set_all ready rest
