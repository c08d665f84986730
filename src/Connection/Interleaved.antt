-- ===== src/Connection/Interleaved.antt =====
-- connect among the other tasks: whatever runs at its awaits, the slot stays coherent.
use bifrost_platform_plugin.Prelude.{
  ℕ, zero, suc, ◌<◌, ◌≡◌, ◌≢◌, refl, ◌∙◌, Bool, true, false, not, ◌||◌, Option, none, some, length,
  Bool-cases, inl, inr, arith,
}
use bifrost_platform_plugin.Text.{Text}
use bifrost_platform_plugin.Connection.Defs.{
  ConnectionState, is_connected_state, connected, reconnecting, Tws, TwsSlotConfig, SlotConnection,
  Slot, new_slot, note_errors, note_message, session_up, managed_accounts, is_empty, rejection,
  mark_disconnected, sync_connection_state, disconnect,
}
use bifrost_platform_plugin.Connection.Invariant.{SameCore, note_errors-SameCore}
use bifrost_platform_plugin.Connection.Connect.{client_id_in_range, next_in_range}
use bifrost_platform_plugin.Connection.Awaits.{
  Phase, idle, dialling, settling, backing_off, dial, next_client, hang_up_next, back_off_if,
  fail_attempt, settle, accept_session, answered, resume, begin,
}

-- What the phase says of the state: while a client id is tried the slot is RECONNECTING without a
-- session, and otherwise it is not RECONNECTING.
abbrev pub Stage : Phase → SlotConnection → Type 0
Stage idle sc = sc.state ≢ reconnecting
Stage (dialling rounds ib cid) sc = (sc.state ≡ reconnecting) × (sc.ib ≡ none)
Stage (settling rounds ib c) sc = sc.state ≢ reconnecting
Stage (backing_off rounds ib) sc = (sc.state ≡ reconnecting) × (sc.ib ≡ none)

pub record IsCoherent (cfg : TwsSlotConfig) (p : Phase) (sc : SlotConnection) : Type 0 where
  pub stage : Stage p sc
  pub has_session : sc.state ≡ connected → sc.ib ≢ none
  pub in_range : sc.current_cid_index < length cfg.client_ids

-- Between two attempts.
record IsTrying (cfg : TwsSlotConfig) (sc : SlotConnection) : Type 0 where
  tries : sc.state ≡ reconnecting
  no_session : sc.ib ≡ none
  in_range : sc.current_cid_index < length cfg.client_ids

IsTrying-same :
    {cfg : TwsSlotConfig} {a b : SlotConnection} → SameCore a b → IsTrying cfg a → IsTrying cfg b
IsTrying-same h k = record {
  tries = h.state ∙ k.tries;
  no_session = h.ib ∙ k.no_session;
  in_range = rw (h.index) (k.in_range);
}

idle-same :
    {cfg : TwsSlotConfig} {a b : SlotConnection}
    → SameCore a b
    → IsCoherent cfg idle a
    → IsCoherent cfg idle b
idle-same h k = record {
  stage = λ e. k.stage (cc (e, h.state));
  has_session = λ e f. k.has_session (cc (e, h.state)) (cc (f, h.ib));
  in_range = rw (h.index) (k.in_range);
}

module _ {W : Type 0} (tws : Tws W) (cfg : TwsSlotConfig) where
  -- One piece of a task between two awaits. `elsewhere` is what TWS does to the world.
  pub data Piece : Phase × Slot W → Phase × Slot W → Type 0 where
    elsewhere : (p : Phase) (s : Slot W) (w : W) → Piece (p, s) (p, record s { world = w })
    begun : (s : Slot W) → Piece (idle, s) (begin tws cfg s)
    resumed : (p : Phase) (s : Slot W) → Piece (p, s) (resume tws cfg p s)
    hung_up : (s : Slot W) → Piece (idle, s) (idle, disconnect tws cfg s)
    synced : (p : Phase) (s : Slot W) → Piece (p, s) (p, (sync_connection_state tws cfg s).1)
    noted : (p : Phase) (s : Slot W) → Piece (p, s) (p, note_message tws cfg s)

  pub data Pieces (g : Phase × Slot W) : Phase × Slot W → Type 0 where
    here : Pieces g g
    next : {h k : Phase × Slot W} → Pieces g h → Piece h k → Pieces g k

  abbrev pub Coherent : Phase × Slot W → Type 0
  Coherent (p, s) = IsCoherent cfg p s.conn

  next_client-Coherent :
      (rounds : ℕ) (s : Slot W) → IsTrying cfg s.conn → Coherent (next_client tws cfg rounds s)
  unfolding next_client dial mark_disconnected
  next_client-Coherent zero s t = record {
    stage = λ e. cc;
    has_session = λ e. cc;
    in_range = t.in_range;
  }
  next_client-Coherent (suc rounds) s t =
      let (cid, e) = client_id_in_range cfg s.conn t.in_range in
      rw e (record {
        stage = (t.tries, t.no_session);
        has_session = λ up. cc (t.tries);
        in_range = t.in_range;
      })

  back_off-Coherent :
      (rounds ib : ℕ) (b : Bool) (s : Slot W)
      → IsTrying cfg s.conn
      → Coherent (back_off_if tws cfg b rounds ib s)
  unfolding back_off_if hang_up_next
  back_off-Coherent rounds ib false s t =
      next_client-Coherent rounds _
        (record { tries = t.tries; no_session = t.no_session; in_range = t.in_range })
  back_off-Coherent rounds ib true s t = record {
    stage = (t.tries, t.no_session);
    has_session = λ up. cc (t.tries);
    in_range = next_in_range true s.conn.current_cid_index (length cfg.client_ids) t.in_range;
  }

  fail-Coherent :
      (rounds ib : ℕ) (message : Text) (c : Bool) (s : Slot W)
      → IsTrying cfg s.conn
      → Coherent (fail_attempt tws cfg rounds ib message c s)
  unfolding fail_attempt
  fail-Coherent rounds ib message c s t =
      back_off-Coherent rounds ib _ _
        (record { tries = t.tries; no_session = t.no_session; in_range = t.in_range })

  settle-Coherent :
      (rounds ib : ℕ) (c : Bool) (s : Slot W)
      → IsCoherent cfg idle s.conn
      → Coherent (settle tws cfg rounds ib c s)
  unfolding settle
  settle-Coherent zero ib c s h = h
  settle-Coherent (suc rounds) ib c s h =
      elim (Bool-cases (is_empty (managed_accounts (tws.managed ib s.world)))) [
        | inl on ↦
            rw on (record { stage = h.stage; has_session = h.has_session; in_range = h.in_range })
        | inr off ↦ rw off h
      ]

  answered-Coherent :
      (rounds ib : ℕ) (failure : Option Text) (c : Bool) (s : Slot W)
      → IsTrying cfg s.conn
      → Coherent (answered tws cfg rounds ib failure c s)
  unfolding answered accept_session note_message
  answered-Coherent rounds ib (some message) c s t = fail-Coherent rounds ib message c s t
  answered-Coherent rounds ib none c s t =
      elim (Bool-cases (c || not (tws.is_connected ib s.world))) [
        | inl bad ↦ rw bad (fail-Coherent rounds ib (rejection tws cfg s.conn.last_error) c s t)
        | inr good ↦ rw good (
            settle-Coherent 20 ib false _
              (record { stage = λ e. cc; has_session = λ e. λ k. cc; in_range = t.in_range }))
      ]

  resume-Coherent :
      (p : Phase) (s : Slot W) → IsCoherent cfg p s.conn → Coherent (resume tws cfg p s)
  unfolding resume hang_up_next
  resume-Coherent idle s h = h
  resume-Coherent (dialling rounds ib cid) s h =
      let (errors, failure, w) = tws.connect_async ib cfg.ip cfg.port cid s.world in
      let t = note_errors errors (s.conn, false) in
      answered-Coherent rounds ib failure t.1 (record { conn = t.0; world = w })
        (IsTrying-same (note_errors-SameCore errors s.conn false)
          (record { tries = h.stage.0; no_session = h.stage.1; in_range = h.in_range }))
  resume-Coherent (settling rounds ib c) s h =
      let (errors, w) = tws.pause 250 s.world in
      let t = note_errors errors (s.conn, c) in
      settle-Coherent rounds ib t.1 (record { conn = t.0; world = w })
        (idle-same (note_errors-SameCore errors s.conn c)
          (record { stage = h.stage; has_session = h.has_session; in_range = h.in_range }))
  resume-Coherent (backing_off rounds ib) s h =
      let (errors, w) = tws.pause 1000 s.world in
      let t =
        IsTrying-same {cfg = cfg} (note_errors-SameCore errors s.conn true)
          (record { tries = h.stage.0; no_session = h.stage.1; in_range = h.in_range }) in
      next_client-Coherent rounds _
        (record { tries = t.tries; no_session = t.no_session; in_range = t.in_range })

  begin-Coherent : (s : Slot W) → IsCoherent cfg idle s.conn → Coherent (begin tws cfg s)
  unfolding begin
  begin-Coherent s h = elim (Bool-cases (session_up tws cfg s.conn.ib s.world)) [
    | inl up ↦ rw up (record {
      stage = λ e. cc;
      has_session = λ e. up_given s.conn.ib up;
      in_range = h.in_range;
    })
    | inr down ↦ rw down (
        next_client-Coherent (length cfg.client_ids) _
          (record { tries = refl; no_session = refl; in_range = h.in_range }))
  ]
    where
      up_given : (ib : Option ℕ) → session_up tws cfg ib s.world ≡ true → ib ≢ none
      up_given none e = unfold session_up in cc
      up_given (some ib) e = λ k. cc

  trying_down : (state : ConnectionState) → state ≡ reconnecting → is_connected_state state ≡ false
  unfolding is_connected_state
  trying_down state e = rw e refl

  sync-Coherent :
      (p : Phase) (s : Slot W)
      → IsCoherent cfg p s.conn
      → IsCoherent cfg p (sync_connection_state tws cfg s).1.conn
  unfolding sync_connection_state
  sync-Coherent idle s h = ground arith
  sync-Coherent (dialling rounds ib cid) s h =
      ground (arith, h.stage, trying_down s.conn.state h.stage.0)
  sync-Coherent (settling rounds ib c) s h = ground arith
  sync-Coherent (backing_off rounds ib) s h =
      ground (arith, h.stage, trying_down s.conn.state h.stage.0)

  noted-Coherent :
      (p : Phase) (s : Slot W)
      → IsCoherent cfg p s.conn
      → IsCoherent cfg p (note_message tws cfg s).conn
  unfolding note_message
  noted-Coherent p s h = record {
    stage = kept p h.stage;
    has_session = h.has_session;
    in_range = h.in_range;
  }
    where
      kept :
          (q : Phase)
          → Stage q s.conn
          → Stage q (record s.conn { last_message_at = tws.now s.world })
      kept idle k = k
      kept (dialling rounds ib cid) k = k
      kept (settling rounds ib c) k = k
      kept (backing_off rounds ib) k = k

  Piece-Coherent : {g h : Phase × Slot W} → Piece g h → Coherent g → Coherent h
  unfolding disconnect
  Piece-Coherent (elsewhere p s w) k = k
  Piece-Coherent (begun s) k = begin-Coherent s k
  Piece-Coherent (resumed p s) k = resume-Coherent p s k
  Piece-Coherent (hung_up s) k = record {
    stage = λ e. cc;
    has_session = λ e. cc;
    in_range = k.in_range;
  }
  Piece-Coherent (synced p s) k = sync-Coherent p s k
  Piece-Coherent (noted p s) k = noted-Coherent p s k

  Pieces-Coherent : {g h : Phase × Slot W} → Pieces g h → Coherent g → Coherent h
  Pieces-Coherent here k = k
  Pieces-Coherent (next r t) k = Piece-Coherent t (Pieces-Coherent r k)

  -- However the pieces of connect, disconnect, sync_connection_state and verify_api_alive between
  -- two awaits interleave, disconnect and the start of connect under the lock, and whatever TWS does
  -- at each await, a new slot with at least one client id stays coherent: while a client id is tried
  -- it is RECONNECTING without a session, otherwise it is not RECONNECTING; a slot that says it is
  -- connected has a session; and its client id is one of the configured ones.
  pub Pieces-IsCoherent :
      (w : W) (p : Phase) (s : Slot W)
      → 0 < length cfg.client_ids
      → Pieces (idle, record { conn = new_slot; world = w }) (p, s)
      → IsCoherent cfg p s.conn
  unfolding new_slot
  Pieces-IsCoherent w p s some_id r =
      Pieces-Coherent r (record { stage = λ e. cc; has_session = λ e. cc; in_range = some_id })
