-- ===== src/Examples/Awaiting.antt =====
-- connect at its awaits, before a TWS that accepts and one that has every client id taken.
use bifrost_platform_plugin.Prelude.{ℕ, arith}
use bifrost_platform_plugin.Connection.{Slot, new_slot, sync_connection_state}
use bifrost_platform_plugin.Connection.Awaits.{Phase, begin, resume}
use bifrost_platform_plugin.Connection.Interleaved.{
  IsCoherent, here, next, begun, resumed, synced, elsewhere, Pieces-IsCoherent,
}
use bifrost_platform_plugin.Examples.Slots.{accepting, host_cfg}

abbrev fresh : Slot ℕ
fresh = record { conn = new_slot; world = 0 }

-- connect waits for connectAsync, TWS acts, the answer comes, and another task looks at the session.
abbrev asked : Phase × Slot ℕ
asked = begin accepting host_cfg fresh

abbrev later : Slot ℕ
later = record asked.1 { world = 7 }

abbrev answered_at : Phase × Slot ℕ
answered_at = resume accepting host_cfg asked.0 later

Pieces-IsCoherent_example :
    IsCoherent host_cfg answered_at.0
      (sync_connection_state accepting host_cfg answered_at.1).1.conn
Pieces-IsCoherent_example =
    Pieces-IsCoherent accepting host_cfg 0 answered_at.0
      (sync_connection_state accepting host_cfg answered_at.1).1 (omega arith)
      (next
        (next (next (next here (begun fresh)) (elsewhere asked.0 asked.1 7))
          (resumed asked.0 later))
        (synced answered_at.0 answered_at.1))
