-- ===== src/Connection/Phases.antt =====
-- The methods of a slot implement the automaton.
use mathlib.Core.Path.{subst}
use bifrost_platform_plugin.Prelude.{
  ℕ, ◌+◌, ◌*◌, min, if◌then◌else◌, ◌<◌, ◌≡◌, ◌≢◌, ◌⊎◌, refl, sym, ◌∙◌, Bool, true, false, List, [],
  ◌∷◌, Option, none, some, Bool-cases, inl, inr, length,
}
use bifrost_platform_plugin.Connection.Automaton.{
  Phase, down, held, up, paused, Act, watch, dial, pause, resume, IsActive, session_kept, resting,
  Move, unchanged, lost, kept, failed, joined, pausing, resumed, idle, Run, start, later,
}
use bifrost_platform_plugin.Connection.Defs.{
  ConnectionState, connected, disconnected, reconnecting, maintenance, Tws, TwsSlotConfig,
  SlotConnection, Slot, new_slot, is_connected_state, session_up, enter_maintenance,
  exit_maintenance, note_message, sync_connection_state, disconnect, probe, verify_api_alive,
  connect, rest, reconnect_step,
}
use bifrost_platform_plugin.Connection.Connect.{Settled, connect-Settled, connect_in_maintenance}
use bifrost_platform_plugin.Connection.Reach.{
  IsSound, Step, elsewhere, noted, synced, verified, hung_up, dialled, looped, entered, exited,
  Reach, here, next, Reach-IsSound,
}

abbrev pub phase_with : Bool → ConnectionState → Option ℕ → Phase
phase_with true state ib = paused ib
phase_with false connected none = down
phase_with false connected (some ib) = up ib
phase_with false disconnected ib = resting ib
phase_with false reconnecting ib = resting ib
phase_with false maintenance ib = resting ib

abbrev pub phase_of : SlotConnection → Phase
phase_of sc = phase_with sc.in_maintenance sc.state sc.ib

resting-IsActive : (ib : Option ℕ) → IsActive (resting ib)
resting-IsActive none = tt
resting-IsActive (some n) = tt

active : (state : ConnectionState) (ib : Option ℕ) → IsActive (phase_with false state ib)
active connected none = tt
active connected (some ib) = tt
active disconnected ib = resting-IsActive ib
active reconnecting ib = resting-IsActive ib
active maintenance ib = resting-IsActive ib

clears : (p : Phase) → IsActive p → Move watch p down
clears down h = lost
clears (held n) h = lost
clears (up n) h = lost
clears (paused ib) h = elim h [ ]

loses :
    (flag : Bool) (state : ConnectionState) (ib : Option ℕ)
    → Move watch (phase_with flag state ib) (phase_with flag disconnected none)
loses true state ib = lost
loses false state ib = clears (phase_with false state ib) (active state ib)

keeps_session :
    (flag : Bool) (state : ConnectionState) (ib : Option ℕ)
    → session_kept (phase_with flag state ib) ≡ ib
keeps_session true state ib = refl
keeps_session false connected none = refl
keeps_session false connected (some n) = refl
keeps_session false disconnected none = refl
keeps_session false disconnected (some n) = refl
keeps_session false reconnecting none = refl
keeps_session false reconnecting (some n) = refl
keeps_session false maintenance none = refl
keeps_session false maintenance (some n) = refl

-- No session is new in `t`: what a method that only watches the slot leaves.
record IsWatched (s t : SlotConnection) : Type 0 where
  flag : t.in_maintenance ≡ s.in_maintenance
  rest : ((t.state ≡ s.state) × (t.ib ≡ s.ib)) ⊎ ((t.state ≡ disconnected) × (t.ib ≡ none))

Move-watch : (s t : SlotConnection) → IsWatched s t → Move watch (phase_of s) (phase_of t)
Move-watch s t h = elim h.rest [
  | inl e ↦ rw (h.flag, e.0, e.1) unchanged
  | inr e ↦ rw (h.flag, e.0, e.1) (loses s.in_maintenance s.state s.ib)
]

after_both :
    (r s t : SlotConnection)
    → ((s.state ≡ r.state) × (s.ib ≡ r.ib)) ⊎ ((s.state ≡ disconnected) × (s.ib ≡ none))
    → ((t.state ≡ s.state) × (t.ib ≡ s.ib)) ⊎ ((t.state ≡ disconnected) × (t.ib ≡ none))
    → ((t.state ≡ r.state) × (t.ib ≡ r.ib)) ⊎ ((t.state ≡ disconnected) × (t.ib ≡ none))
after_both r s t h (inr e) = inr e
after_both r s t (inl d) (inl e) = inl (e.0 ∙ d.0, e.1 ∙ d.1)
after_both r s t (inr d) (inl e) = inr (e.0 ∙ d.0, e.1 ∙ d.1)

IsWatched-trans : {r s t : SlotConnection} → IsWatched r s → IsWatched s t → IsWatched r t
IsWatched-trans {r} {s} {t} h k = record {
  flag = k.flag ∙ h.flag;
  rest = after_both r s t h.rest k.rest;
}

absurd_flag : {A : Type 0} {b : Bool} → b ≡ true → b ≡ false → A
absurd_flag on off = let both : true ≡ false = sym on ∙ off in cc

ends :
    (state : ConnectionState) (ib : Option ℕ)
    → state ≢ connected
    → phase_with false state ib ≡ resting ib
ends connected ib h = absurd (h refl)
ends disconnected ib h = refl
ends reconnecting ib h = refl
ends maintenance ib h = refl

phase-up : (ib : Option ℕ) → ib ≢ none → (n : ℕ) × (phase_with false connected ib ≡ up n)
phase-up none h = absurd (h refl)
phase-up (some ib) h = (ib, refl)

module _ {W : Type 0} (tws : Tws W) (cfg : TwsSlotConfig) where
  sync-IsWatched : (s : Slot W) → IsWatched s.conn (sync_connection_state tws cfg s).1.conn
  unfolding sync_connection_state
  sync-IsWatched s = elim (Bool-cases (is_connected_state s.conn.state)) [
    | inl on ↦ elim (Bool-cases (session_up tws cfg s.conn.ib s.world)) [
      | inl alive ↦ rw (on, alive) (record { flag = refl; rest = inl (refl, refl) })
      | inr gone ↦ rw (on, gone) (record { flag = refl; rest = inr (refl, refl) })
    ]
    | inr off ↦ rw off (record { flag = refl; rest = inl (refl, refl) })
  ]

  IsWatched-disconnect : (s : Slot W) → IsWatched s.conn (disconnect tws cfg s).conn
  unfolding disconnect
  IsWatched-disconnect s = record { flag = refl; rest = inr (refl, refl) }

  probe-IsWatched : (ib : Option ℕ) (s : Slot W) → IsWatched s.conn (probe tws cfg ib s).1.conn
  unfolding probe note_message disconnect
  probe-IsWatched none s = record { flag = refl; rest = inl (refl, refl) }
  probe-IsWatched (some ib) s = elim (Bool-cases (tws.current_time ib s.world).0) [
    | inl answered ↦ rw answered (record { flag = refl; rest = inl (refl, refl) })
    | inr silent ↦ rw silent (record { flag = refl; rest = inr (refl, refl) })
  ]

  verify-IsWatched : (s : Slot W) → IsWatched s.conn (verify_api_alive tws cfg s).1.conn
  unfolding verify_api_alive
  verify-IsWatched s =
      let r = sync_connection_state tws cfg s in
      elim (Bool-cases r.0) [
        | inl alive ↦
            rw alive (IsWatched-trans (sync-IsWatched s) (probe-IsWatched r.1.conn.ib r.1))
        | inr gone ↦ rw gone (sync-IsWatched s)
      ]

  Move-dialled :
      (ok : Bool) (s t : SlotConnection)
      → s.in_maintenance ≡ false
      → Settled cfg s.in_maintenance ok t
      → Move dial (phase_of s) (phase_of t)
  Move-dialled true s t off k =
      let (n, e) = phase-up t.ib (k.up refl).1 in
      rw (k.flag_kept, off, (k.up refl).0, e) (joined n (active s.state s.ib))
  Move-dialled false s t off k =
      rw (k.flag_kept, off, (k.down refl).0, (k.down refl).1) (failed (active s.state s.ib))

  Move-connect :
      (s : Slot W)
      → IsSound cfg s.conn
      → Move dial (phase_of s.conn) (phase_of (connect tws cfg s).1.conn)
  Move-connect s h = elim (Bool-cases s.conn.in_maintenance) [
    | inl on ↦ rw (connect_in_maintenance tws cfg s on) kept
    | inr off ↦
        Move-dialled (connect tws cfg s).0 s.conn (connect tws cfg s).1.conn off
          (connect-Settled tws cfg s off h.in_range)
  ]

  -- The four ways a round of the loop ends, with `t` the slot after connecting.
  after_round :
      (p : Phase) (b1 b2 ok : Bool) (base max delay : ℕ) (s t : Slot W)
      → Move dial p (phase_of s.conn)
      → Move dial p (phase_of t.conn)
      → let r : ℕ × Slot W =
          if b1
          then (delay, rest tws cfg 2000 s)
          else if b2
          then (base, rest tws cfg 1000 s)
          else if ok
          then (base, record t { conn = record t.conn { reconnects = t.conn.reconnects + 1 } })
          else (min (delay * 2) max, rest tws cfg delay t) in
        Move dial p (phase_of r.1.conn)
  unfolding rest
  after_round p true b2 ok base max delay s t h k = h
  after_round p false true ok base max delay s t h k = h
  after_round p false false true base max delay s t h k = k
  after_round p false false false base max delay s t h k = k

  Move-reconnect :
      (base max delay : ℕ) (s : Slot W)
      → IsSound cfg s.conn
      → Move dial (phase_of s.conn) (phase_of (reconnect_step tws cfg base max delay s).1.conn)
  unfolding reconnect_step
  Move-reconnect base max delay s h =
      after_round (phase_of s.conn) s.conn.in_maintenance (is_connected_state s.conn.state)
        (connect tws cfg s).0 base max delay s (connect tws cfg s).1 kept (Move-connect s h)

  -- What a call does to the automaton.
  abbrev pub act_of : {s t : Slot W} → Step tws cfg s t → Act
  act_of (elsewhere w) = watch
  act_of noted = watch
  act_of synced = watch
  act_of verified = watch
  act_of hung_up = watch
  act_of dialled = dial
  act_of (looped base max delay) = dial
  act_of entered = pause
  act_of exited = resume

  abbrev pub acts_of : {s t : Slot W} → Reach tws cfg s t → List Act
  acts_of here = []
  acts_of (next r st) = act_of st ∷ acts_of r

  Step-Move :
      {s t : Slot W} (st : Step tws cfg s t)
      → IsSound cfg s.conn
      → Move (act_of st) (phase_of s.conn) (phase_of t.conn)
  unfolding note_message enter_maintenance exit_maintenance
  Step-Move (elsewhere w) h = unchanged
  Step-Move noted h = unchanged
  Step-Move {s} synced h = Move-watch s.conn _ (sync-IsWatched s)
  Step-Move {s} verified h = Move-watch s.conn _ (verify-IsWatched s)
  Step-Move {s} hung_up h = Move-watch s.conn _ (IsWatched-disconnect s)
  Step-Move {s} dialled h = Move-connect s h
  Step-Move {s} (looped base max delay) h = Move-reconnect base max delay s h
  Step-Move {s} entered h =
      let all = keeps_session s.conn.in_maintenance s.conn.state s.conn.ib in
      subst (λ ib. Move pause (phase_of s.conn) (paused ib)) all pausing
  Step-Move {s} exited h = elim (Bool-cases s.conn.in_maintenance) [
    | inl on ↦
        rw (on, ends s.conn.state s.conn.ib (λ e. absurd_flag on (h.not_maintained e))) resumed
    | inr off ↦ rw off (idle (active s.conn.state s.conn.ib))
  ]

  -- The slot implements the automaton: every history of calls, in whatever order and with whatever
  -- TWS and the other tasks do in between, is a run of it from the phase without a session, for a
  -- slot with at least one client id. So only dialling connects the slot or gives it a session, and
  -- never in maintenance; maintenance keeps the session that the slot has, unless it is given up
  -- meanwhile, and the slot counts as connected again only after dialling.
  pub Reach-Run :
      {w : W} {t : Slot W}
      → 0 < length cfg.client_ids
      → (r : Reach tws cfg (record { conn = new_slot; world = w }) t)
      → Run (acts_of r) down (phase_of t.conn)
  unfolding new_slot
  Reach-Run some_id here = start
  Reach-Run some_id (next r st) =
      later (Reach-Run some_id r) (Step-Move st (Reach-IsSound tws cfg some_id r))
