-- ===== src/Live/GatherSound.antt =====
-- The loop over the slots in a round of _market_loop keeps them sound.
use bifrost_platform_plugin.Prelude.{
  ℕ, true, false, List, [], ◌∷◌, Option, none, some, Bool-cases, inl, inr,
}
use bifrost_platform_plugin.Json.{Python}
use bifrost_platform_plugin.Connection.{
  Tws, TwsSlotConfig, SlotConnection, Slot, is_connected_state, note_message, sync_connection_state,
}
use bifrost_platform_plugin.Connection.Reach.{IsSound, sync-IsSound, disconnect-IsSound}
use bifrost_platform_plugin.Ib.{Ib}
use bifrost_platform_plugin.Live.Slots.{AllSound}
use bifrost_platform_plugin.Live.Accounts.{
  WithinRows, Gathered, Verdict, passed_over, ghost, answered, broken, gathered_after, Marked,
  unmarked, Tour, onwards, note_if, read_rows, visit_session, visit_with, visit, gather,
  drop_ghosts,
}
use bifrost_platform_plugin.Live.Market.{unmark}

module _ {W : Type 0} (tws : Tws W) (py : Python) (api : Ib W) (within_rows : WithinRows W) where
  note_if-IsSound :
      (cfg : TwsSlotConfig) (v : Verdict) (s : Slot W)
      → IsSound cfg s.conn
      → IsSound cfg (note_if tws py api within_rows cfg v s).conn
  unfolding note_if note_message
  note_if-IsSound cfg passed_over s h = h
  note_if-IsSound cfg ghost s h = h
  note_if-IsSound cfg (answered rows) s h = record {
    has_session = h.has_session;
    not_maintained = h.not_maintained;
    settled = h.settled;
    in_range = h.in_range;
  }
  note_if-IsSound cfg (broken e) s h = h

  visit_session-IsSound :
      (cfg : TwsSlotConfig) (ib : ℕ) (s : Slot W)
      → IsSound cfg s.conn
      → IsSound cfg (visit_session tws py api within_rows cfg ib s).1.conn
  unfolding visit_session read_rows
  visit_session-IsSound cfg ib s h =
      let synced = sync_connection_state tws cfg s in
      elim (Bool-cases synced.0) [
        | inl up ↦ rw up (note_if-IsSound cfg _ _ (sync-IsSound tws cfg s h))
        | inr down ↦ rw down (sync-IsSound tws cfg s h)
      ]

  visit_with-IsSound :
      (cfg : TwsSlotConfig) (ib : Option ℕ) (s : Slot W)
      → IsSound cfg s.conn
      → IsSound cfg (visit_with tws py api within_rows cfg ib s).1.conn
  unfolding visit_with
  visit_with-IsSound cfg none s h = h
  visit_with-IsSound cfg (some ib) s h = elim (Bool-cases (is_connected_state s.conn.state)) [
    | inl up ↦ rw up (visit_session-IsSound cfg ib s h)
    | inr down ↦ rw down h
  ]

  visit-IsSound :
      (cfg : TwsSlotConfig) (s : Slot W)
      → IsSound cfg s.conn
      → IsSound cfg (visit tws py api within_rows cfg s).1.conn
  unfolding visit
  visit-IsSound cfg s h = visit_with-IsSound cfg s.conn.ib s h

  unmarked-AllSound :
      (slots : List (TwsSlotConfig × SlotConnection))
      → AllSound slots
      → AllSound (unmark (unmarked slots))
  unmarked-AllSound [] h = tt
  unmarked-AllSound ((cfg, sc) ∷ slots) h = (h.0, unmarked-AllSound slots h.1)

  onwards-AllSound :
      (v : Verdict) (cfg : TwsSlotConfig) (sc : SlotConnection)
      (slots : List (TwsSlotConfig × SlotConnection)) (g : Gathered) (w : W) (more : Tour × W)
      → IsSound cfg sc
      → AllSound slots
      → AllSound (unmark more.0.slots)
      → AllSound (unmark (onwards v cfg sc slots g w more).0.slots)
  unfolding onwards
  onwards-AllSound passed_over cfg sc slots g w more h k l = (h, l)
  onwards-AllSound ghost cfg sc slots g w more h k l = (h, l)
  onwards-AllSound (answered rows) cfg sc slots g w more h k l = (h, l)
  onwards-AllSound (broken e) cfg sc slots g w more h k l = (h, unmarked-AllSound slots k)

  pub gather-AllSound :
      (slots : List (TwsSlotConfig × SlotConnection)) (g : Gathered) (w : W)
      → AllSound slots
      → AllSound (unmark (gather tws py api within_rows slots g w).0.slots)
  unfolding gather
  gather-AllSound [] g w h = tt
  gather-AllSound ((cfg, sc) ∷ slots) g w h =
      let v = visit tws py api within_rows cfg (record { conn = sc; world = w }) in
      onwards-AllSound v.0 cfg v.1.conn slots _ v.1.world _
        (visit-IsSound cfg (record { conn = sc; world = w }) h.0) h.1
        (gather-AllSound slots (gathered_after py cfg.slot v.0 g) v.1.world h.1)

  pub drop_ghosts-AllSound :
      (slots : List Marked) (w : W)
      → AllSound (unmark slots)
      → AllSound (drop_ghosts tws py api within_rows slots w).0
  unfolding drop_ghosts
  drop_ghosts-AllSound [] w h = tt
  drop_ghosts-AllSound ((true, cfg, sc) ∷ slots) w h = (
    disconnect-IsSound tws cfg (record { conn = sc; world = w }) h.0,
    drop_ghosts-AllSound slots _ h.1,
  )
  drop_ghosts-AllSound ((false, cfg, sc) ∷ slots) w h = (h.0, drop_ghosts-AllSound slots w h.1)
