-- ===== src/Console/Memory/Marker.antt =====
-- Where the markers of the program counters stand beside the memory.
use risc_v_rv32i_multi_cycle.Prelude.{ℕ, ◌+◌, ◌≤◌, ◌<◌, ◌≡◌, ◌↔◌, some, arith, pos}
use risc_v_rv32i_multi_cycle.Console.Memory.{marker_row}

-- For an address `n` and a first shown address `from`, the marker is drawn exactly if `n` is one of
-- the 32 addresses from `from` on and lies in the memory, and then in row `n - from + 3`.
marker_row_lem :
    (n from r : ℕ)
    → (marker_row (pos n) (pos from) ≡ some r)
      ↔ ((from ≤ n) × (n < from + 32) × (n < 1024) × (r + from ≡ n + 3))
marker_row_lem n from r = ground arith
