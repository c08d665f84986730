-- ===== src/Live/Accounts.antt =====
-- The account rows of a round of _market_loop: the sessions that answer, and the ghosts, which are
-- disconnected.
use bifrost_platform_plugin.Prelude.{
  ℕ, Bool, true, false, not, ◌||◌, List, [], ◌∷◌, ◌++◌, Option, none, some, if◌then◌else◌, pos,
}
use bifrost_platform_plugin.Text.{Text, txt, strip, text_eq, mem_text}
use bifrost_platform_plugin.Float.{Float, fin}
use bifrost_platform_plugin.Effects.{Exn, timeout_error, Outcome, returned, raised, Io}
use bifrost_platform_plugin.Json.{null, string, Dict, put, get_json, or_json, Python}
use bifrost_platform_plugin.Connection.{
  Tws, TwsSlotConfig, SlotConnection, Slot, is_connected_state, sync_connection_state, note_message,
  disconnect,
}
use bifrost_platform_plugin.Ib.{Ib}
use bifrost_platform_plugin.IbOps.Accounts.{fetch_accounts_snapshot_rows}

-- wait_for on the rows, which gives their own outcome or raises a timeout.
abbrev pub WithinRows : Type 0 → Type 0
WithinRows W = Float → Io W (List Dict) → Io W (List Dict)

-- The account ids that were seen, and the rows of the snapshot.
abbrev pub Gathered : Type 0
Gathered = List Text × List Dict

-- str(row.get("account_id") or "").strip()
unfoldable pub account_of : Python → Dict → Text
account_of py row = strip (py.str_of (or_json (get_json (txt "account_id") null row) (string [])))

-- {**row, "slot": slot}
unfoldable pub with_slot : Text → Dict → Dict
with_slot slot row = put (txt "slot") (string slot) row

unfoldable pub add_row : Python → Text → Dict → Gathered → Gathered
add_row py slot row (seen, rows) =
    if text_eq (account_of py row) [] || mem_text (account_of py row) seen
    then (seen, rows)
    else (seen ++ account_of py row ∷ [], rows ++ with_slot slot row ∷ [])

-- The loop over the rows of one slot.
unfoldable pub add_rows : Python → Text → List Dict → Gathered → Gathered
add_rows py slot [] g = g
add_rows py slot (row ∷ rows) g = add_rows py slot rows (add_row py slot row g)

-- What the visit to a slot came to.
pub data Verdict : Type 0 where
  passed_over ghost : Verdict
  answered : List Dict → Verdict
  broken : Exn → Verdict

unfoldable pub verdict_of : Outcome (List Dict) → Verdict
verdict_of (returned []) = ghost
verdict_of (returned (row ∷ rows)) = answered (row ∷ rows)
verdict_of (raised e) = elim e.kind [ timeout_error ↦ ghost | _ ↦ broken e ]

unfoldable pub gathered_after : Python → Text → Verdict → Gathered → Gathered
gathered_after py slot (answered rows) g = add_rows py slot rows g
gathered_after py slot _ g = g

-- A slot, and whether it is in ghost_slots.
abbrev pub Marked : Type 0
Marked = Bool × TwsSlotConfig × SlotConnection

unfoldable pub is_ghost : Verdict → Bool
is_ghost ghost = true
is_ghost _ = false

abbrev pub unmarked : List (TwsSlotConfig × SlotConnection) → List Marked
unmarked [] = []
unmarked ((cfg, sc) ∷ slots) = (false, cfg, sc) ∷ unmarked slots

-- The slots after the loop, what was gathered, and the exception that left it.
pub record Tour : Type 0 where
  pub slots : List Marked
  pub gathered : Gathered
  pub failure : Option Exn

-- An exception leaves the slots that follow as they are.
unfoldable pub onwards :
    {W : Type 0}
    → Verdict
    → TwsSlotConfig
    → SlotConnection
    → List (TwsSlotConfig × SlotConnection)
    → Gathered
    → W
    → Tour × W
    → Tour × W
onwards (broken e) cfg sc slots g w more =
    (record { slots = (false, cfg, sc) ∷ unmarked slots; gathered = g; failure = some e }, w)
onwards verdict cfg sc slots g w more =
    (record more.0 { slots = (is_ghost verdict, cfg, sc) ∷ more.0.slots }, more.1)

module _ {W : Type 0} (tws : Tws W) (py : Python) (api : Ib W) (within_rows : WithinRows W) where
  -- sc.note_message() for a session that answered
  unfoldable pub note_if : TwsSlotConfig → Verdict → Slot W → Slot W
  note_if cfg (answered rows) s = note_message tws cfg s
  note_if cfg _ s = s

  -- The read within 30 seconds.
  unfoldable pub read_rows : TwsSlotConfig → ℕ → Slot W → Verdict × Slot W
  read_rows cfg ib s =
      let r = within_rows (fin (pos 30000000)) (fetch_accounts_snapshot_rows api ib) s.world in
      (verdict_of r.0, note_if cfg (verdict_of r.0) (record s { world = r.1 }))

  unfoldable pub visit_session : TwsSlotConfig → ℕ → Slot W → Verdict × Slot W
  visit_session cfg ib s =
      let synced = sync_connection_state tws cfg s in
      if not synced.0 then (ghost, synced.1) else read_rows cfg ib synced.1

  unfoldable pub visit_with : TwsSlotConfig → Option ℕ → Slot W → Verdict × Slot W
  visit_with cfg none s = (passed_over, s)
  visit_with cfg (some ib) s =
      if is_connected_state s.conn.state then visit_session cfg ib s else (passed_over, s)

  unfoldable pub visit : TwsSlotConfig → Slot W → Verdict × Slot W
  visit cfg s = visit_with cfg s.conn.ib s

  -- The loop over the slots.
  unfoldable pub gather : List (TwsSlotConfig × SlotConnection) → Gathered → W → Tour × W
  gather [] g w = (record { slots = []; gathered = g; failure = none }, w)
  gather ((cfg, sc) ∷ slots) g w =
      let v = visit cfg (record { conn = sc; world = w }) in
      let g' = gathered_after py cfg.slot v.0 g in
      onwards v.0 cfg v.1.conn slots g' v.1.world (gather slots g' v.1.world)

  -- `for sc in ghost_slots: await sc.disconnect()`
  unfoldable pub drop_ghosts : List Marked → W → List (TwsSlotConfig × SlotConnection) × W
  drop_ghosts [] w = ([], w)
  drop_ghosts ((true, cfg, sc) ∷ slots) w =
      let s = disconnect tws cfg (record { conn = sc; world = w }) in
      let rest = drop_ghosts slots s.world in ((cfg, s.conn) ∷ rest.0, rest.1)
  drop_ghosts ((false, cfg, sc) ∷ slots) w =
      let rest = drop_ghosts slots w in ((cfg, sc) ∷ rest.0, rest.1)
