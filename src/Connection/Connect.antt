-- ===== src/Connection/Connect.antt =====
-- Connecting: what the attempts do to a slot, and how they end.
use mathlib.Core.Path.{subst}
use bifrost_platform_plugin.Prelude.{
  ℤ, ℕ, zero, suc, ◌+◌, ◌%◌, ◌<◌, ◌≡◌, ◌≢◌, ◌⊎◌, refl, ap, sym, ◌∙◌, Bool, true, false, not, ◌||◌,
  Option, none, some, arith, Bool-cases, inl, inr, if◌then◌else◌, length, get_elem?, List, [], ◌∷◌,
}
use bifrost_platform_plugin.Text.{Text}
use bifrost_platform_plugin.Connection.Defs.{
  connected, disconnected, reconnecting, Tws, TwsSlotConfig, SlotConnection, Slot, client_id,
  note_errors, session_up, hang_up_if, accept, reject, rejection, conclude, attempt,
  mark_disconnected, try_client, connect_loop, connect_locked, connect,
}
use bifrost_platform_plugin.Connection.Invariant.{
  SameCore, note_errors-SameCore, accept_lem, rotates, reject_lem,
}

-- The slot `t` after an attempt on `s` that ended with `ok`.
pub record Attempted (cfg : TwsSlotConfig) (s : SlotConnection) (ok : Bool) (t : SlotConnection)
    : Type 0 where
  pub won : ok ≡ true → (t.state ≡ connected) × (t.ib ≢ none)
  pub lost : ok ≡ false → (t.state ≡ s.state) × (t.ib ≡ s.ib)
  pub in_range :
      s.current_cid_index < length cfg.client_ids → t.current_cid_index < length cfg.client_ids
  pub flag : t.in_maintenance ≡ s.in_maintenance

-- The slot after connecting, with the flag `flag` before it.
pub record Settled (cfg : TwsSlotConfig) (flag ok : Bool) (t : SlotConnection) : Type 0 where
  pub up : ok ≡ true → (t.state ≡ connected) × (t.ib ≢ none)
  pub down : ok ≡ false → (t.state ≡ disconnected) × (t.ib ≡ none)
  pub in_range : t.current_cid_index < length cfg.client_ids
  pub flag_kept : t.in_maintenance ≡ flag

some-ne-none : {o : Option ℕ} {x : ℕ} → o ≡ some x → o ≢ none
some-ne-none e h = cc

pub next_in_range : (b : Bool) (i n : ℕ) → i < n → (if b then (i + 1) % n else i) < n
next_in_range true i n h = ground arith
next_in_range false i n h = h

get_elem?_in_range : (xs : List ℤ) (i : ℕ) → i < length xs → (x : ℤ) × (get_elem? xs i ≡ some x)
get_elem?_in_range [] i h = absurd (omega arith)
get_elem?_in_range (x ∷ xs) zero h = (x, refl)
get_elem?_in_range (x ∷ xs) (suc i) h = get_elem?_in_range xs i (omega arith)

pub client_id_in_range :
    (cfg : TwsSlotConfig) (sc : SlotConnection)
    → sc.current_cid_index < length cfg.client_ids
    → (x : ℤ) × (client_id cfg sc ≡ some x)
unfolding client_id
client_id_in_range cfg sc h = get_elem?_in_range cfg.client_ids sc.current_cid_index h

module _ {W : Type 0} (tws : Tws W) (cfg : TwsSlotConfig) where
  reject-Attempted :
      (ib : ℕ) (message : Text) (b : Bool) (s : Slot W)
      → Attempted cfg s.conn false (reject tws cfg ib message b s).conn
  reject-Attempted ib message b s =
      let h = reject_lem tws cfg ib message b s in
      record {
        won = λ e. cc;
        lost = λ e. (h.state, h.ib);
        in_range = λ r. rw (h.index) (
            next_in_range (rotates tws cfg message b s.conn) s.conn.current_cid_index
              (length cfg.client_ids) r);
        flag = h.flag;
      }

  accept-Attempted : (ib : ℕ) (s : Slot W) → Attempted cfg s.conn true (accept tws cfg ib s).conn
  accept-Attempted ib s =
      let h = accept_lem tws cfg ib s in
      record {
        won = λ e. (h.state, some-ne-none h.ib);
        lost = λ e. cc;
        in_range = λ r. rw (h.index) r;
        flag = h.flag;
      }

  conclude-Attempted :
      (ib : ℕ) (failure : Option Text) (b : Bool) (s : Slot W)
      → let r = conclude tws cfg ib failure b s in Attempted cfg s.conn r.0 r.1.conn
  unfolding conclude
  conclude-Attempted ib (some message) b s = reject-Attempted ib message b s
  conclude-Attempted ib none b s = elim (Bool-cases (b || not (tws.is_connected ib s.world))) [
    | inl bad ↦ rw bad (reject-Attempted ib (rejection tws cfg s.conn.last_error) b s)
    | inr good ↦ rw good (accept-Attempted ib s)
  ]

  Attempted-after :
      {r s t : SlotConnection} {ok : Bool}
      → SameCore r s
      → Attempted cfg s ok t
      → Attempted cfg r ok t
  Attempted-after h k = record {
    won = k.won;
    lost = λ e. ((k.lost e).0 ∙ h.state, (k.lost e).1 ∙ h.ib);
    in_range = λ r. k.in_range (rw (h.index) r);
    flag = k.flag ∙ h.flag;
  }

  pub attempt-Attempted :
      (cid : ℤ) (s : Slot W) → let r = attempt tws cfg cid s in Attempted cfg s.conn r.0 r.1.conn
  unfolding attempt
  attempt-Attempted cid s =
      let (ib, w) = tws.open_session s.world in
      let (errors, failure, w') = tws.connect_async ib cfg.ip cfg.port cid w in
      let (sc, b) = note_errors errors (s.conn, false) in
      Attempted-after (note_errors-SameCore errors s.conn false)
        (conclude-Attempted ib failure b (record { conn = sc; world = w' }))

  session_up_given : (ib : Option ℕ) (w : W) → session_up tws cfg ib w ≡ true → ib ≢ none
  unfolding session_up
  session_up_given none w h k = cc
  session_up_given (some ib) w h k = cc

  connect_loop-Settled :
      (rounds : ℕ) (s : Slot W)
      → s.conn.ib ≡ none
      → s.conn.current_cid_index < length cfg.client_ids
      → let r = connect_loop tws cfg rounds s in Settled cfg s.conn.in_maintenance r.0 r.1.conn
  unfolding connect_loop try_client mark_disconnected
  connect_loop-Settled zero s no_ib range = record {
    up = λ e. cc;
    down = λ e. (refl, no_ib);
    in_range = range;
    flag_kept = refl;
  }
  connect_loop-Settled (suc rounds) s no_ib range =
      let (cid, e) = client_id_in_range cfg s.conn range in
      let r = attempt tws cfg cid s in
      let h = attempt-Attempted cid s in
      elim (Bool-cases r.0) [
        | inl won ↦
            rw (e, won)
              (record {
                up = λ o. h.won won;
                down = λ o. cc;
                in_range = h.in_range range;
                flag_kept = h.flag;
              })
        | inr lost ↦
            let ih = connect_loop-Settled rounds r.1 ((h.lost lost).1 ∙ no_ib) (h.in_range range) in
            rw (e, lost)
              (record {
                up = ih.up;
                down = ih.down;
                in_range = ih.in_range;
                flag_kept = ih.flag_kept ∙ h.flag;
              })
      ]

  connect_locked-Settled :
      (s : Slot W)
      → s.conn.current_cid_index < length cfg.client_ids
      → let r = connect_locked tws cfg s in Settled cfg s.conn.in_maintenance r.0 r.1.conn
  unfolding connect_locked
  connect_locked-Settled s range = elim (Bool-cases (session_up tws cfg s.conn.ib s.world)) [
    | inl alive ↦ rw alive (record {
      up = λ e. (refl, session_up_given s.conn.ib s.world alive);
      down = λ e. cc;
      in_range = range;
      flag_kept = refl;
    })
    | inr gone ↦ rw gone (
        connect_loop-Settled (length cfg.client_ids)
          (record {
            conn = record s.conn { ib = none; state = reconnecting };
            world = hang_up_if tws cfg s.conn.ib s.world;
          })
          refl range)
  ]

  pub connect_outside :
      (s : Slot W) → s.conn.in_maintenance ≡ false → connect tws cfg s ≡ connect_locked tws cfg s
  unfolding connect
  connect_outside s off = ap (λ b. if b then (false, s) else connect_locked tws cfg s) off

  pub connect-Settled :
      (s : Slot W)
      → s.conn.in_maintenance ≡ false
      → s.conn.current_cid_index < length cfg.client_ids
      → let r = connect tws cfg s in Settled cfg s.conn.in_maintenance r.0 r.1.conn
  connect-Settled s off range =
      subst (λ r. Settled cfg s.conn.in_maintenance r.0 r.1.conn) (sym (connect_outside s off))
        (connect_locked-Settled s range)

  -- Outside maintenance, from a client id of the configured ones, connecting ends with the slot
  -- connected and holding a session where it returns true, and disconnected with none where it
  -- returns false, for whatever TWS answers; the client id stays one of the configured ones, and
  -- the maintenance flag as it was.
  pub connect_settles :
      (s : Slot W)
      → s.conn.in_maintenance ≡ false
      → s.conn.current_cid_index < length cfg.client_ids
      → let r = connect tws cfg s in
        (((r.0 ≡ true) × (r.1.conn.state ≡ connected) × (r.1.conn.ib ≢ none))
          ⊎ ((r.0 ≡ false) × (r.1.conn.state ≡ disconnected) × (r.1.conn.ib ≡ none)))
        × (r.1.conn.current_cid_index < length cfg.client_ids)
        × (r.1.conn.in_maintenance ≡ false)
  connect_settles s off range =
      let k = connect-Settled s off range in
      (
        elim (Bool-cases (connect tws cfg s).0) [
          | inl won ↦ inl (won, (k.up won).0, (k.up won).1)
          | inr lost ↦ inr (lost, (k.down lost).0, (k.down lost).1)
        ],
        k.in_range,
        k.flag_kept ∙ off,
      )

  -- In maintenance connecting is refused and changes nothing.
  pub connect_in_maintenance :
      (s : Slot W) → s.conn.in_maintenance ≡ true → connect tws cfg s ≡ (false, s)
  unfolding connect
  connect_in_maintenance s on = ap (λ b. if b then (false, s) else connect_locked tws cfg s) on
