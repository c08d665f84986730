-- ===== src/Connection/Invariant.antt =====
-- What holds of a slot between the calls of its methods.
use bifrost_platform_plugin.Prelude.{
  ℕ, zero, suc, ◌+◌, ◌%◌, ◌≡◌, refl, ◌∙◌, Bool, true, false, ◌||◌, List, [], ◌∷◌, none, some,
  Bool-cases, inl, inr, if◌then◌else◌, length,
}
use bifrost_platform_plugin.Text.{Text}
use bifrost_platform_plugin.Connection.Defs.{
  connected, TwsError, Tws, TwsSlotConfig, SlotConnection, Slot, on_error, note_errors,
  note_message, await_accounts, accept, rotate_if, reject, managed_accounts, is_empty,
  is_client_id_conflict, or_else, or_blank, or_last,
}

-- The fields that error events and waiting leave alone.
pub record SameCore (sc tc : SlotConnection) : Type 0 where
  pub state : tc.state ≡ sc.state
  pub ib : tc.ib ≡ sc.ib
  pub index : tc.current_cid_index ≡ sc.current_cid_index
  pub flag : tc.in_maintenance ≡ sc.in_maintenance

SameCore-refl : (a : SlotConnection) → SameCore a a
SameCore-refl a = record { state = refl; ib = refl; index = refl; flag = refl }

SameCore-trans : {a b c : SlotConnection} → SameCore a b → SameCore b c → SameCore a c
SameCore-trans h k = record {
  state = k.state ∙ h.state;
  ib = k.ib ∙ h.ib;
  index = k.index ∙ h.index;
  flag = k.flag ∙ h.flag;
}

on_error-SameCore :
    (e : TwsError) (sc : SlotConnection) (b : Bool) → SameCore sc (on_error e (sc, b)).0
unfolding on_error
on_error-SameCore e sc b = record { state = refl; ib = refl; index = refl; flag = refl }

pub note_errors-SameCore :
    (es : List TwsError) (sc : SlotConnection) (b : Bool) → SameCore sc (note_errors es (sc, b)).0
unfolding note_errors
note_errors-SameCore [] sc b = SameCore-refl sc
note_errors-SameCore (e ∷ es) sc b =
    SameCore-trans (on_error-SameCore e sc b)
      (note_errors-SameCore es (on_error e (sc, b)).0 (on_error e (sc, b)).1)

module _ {W : Type 0} (tws : Tws W) (cfg : TwsSlotConfig) where
  await_accounts-SameCore :
      (rounds ib : ℕ) (s : Slot W) (b : Bool)
      → SameCore s.conn (await_accounts tws cfg rounds ib (s, b)).0.conn
  unfolding await_accounts
  await_accounts-SameCore zero ib s b = SameCore-refl s.conn
  await_accounts-SameCore (suc rounds) ib s b =
      elim (Bool-cases (is_empty (managed_accounts (tws.managed ib s.world)))) [
        | inl on ↦
            let (errors, w) = tws.pause 250 s.world in
            rw on (
              SameCore-trans (note_errors-SameCore errors s.conn b) (
                await_accounts-SameCore rounds ib
                  (record { conn = (note_errors errors (s.conn, b)).0; world = w })
                  (note_errors errors (s.conn, b)).1))
        | inr off ↦ rw off (SameCore-refl s.conn)
      ]

  -- A session that was accepted is the slot's, which is connected.
  pub accept_lem :
      (ib : ℕ) (s : Slot W)
      → SameCore (record s.conn { state = connected; ib = some ib }) (accept tws cfg ib s).conn
  unfolding accept note_message
  accept_lem ib s =
      let given = record s.conn {
        state = connected;
        ib = some ib;
        last_error = none;
        last_message_at = tws.now s.world;
      } in
      SameCore-trans (record { state = refl; ib = refl; index = refl; flag = refl })
        (await_accounts-SameCore 20 ib (record s { conn = given }) false)

  -- A refused attempt leaves all but the client id.
  pub rotate_if_lem :
      (b : Bool) (s : Slot W)
      → SameCore
          (record s.conn {
            current_cid_index =
                if b
                then (s.conn.current_cid_index + 1) % length cfg.client_ids
                else s.conn.current_cid_index;
          })
          (rotate_if tws cfg b s).conn
  unfolding rotate_if
  rotate_if_lem false s = SameCore-refl s.conn
  rotate_if_lem true s = note_errors-SameCore (tws.pause 1000 s.world).0 _ true

  -- Whether the refused attempt was a conflict of client ids.
  abbrev pub rotates : Text → Bool → SlotConnection → Bool
  rotates message cid_conflict sc =
      is_client_id_conflict (or_else message (or_blank sc.last_error))
        (or_last (or_else message (or_blank sc.last_error)) sc.last_error)
      || cid_conflict

  pub reject_lem :
      (ib : ℕ) (message : Text) (b : Bool) (s : Slot W)
      → SameCore
          (record s.conn {
            current_cid_index =
                if rotates message b s.conn
                then (s.conn.current_cid_index + 1) % length cfg.client_ids
                else s.conn.current_cid_index;
          })
          (reject tws cfg ib message b s).conn
  unfolding reject
  reject_lem ib message b s =
      let h = rotate_if_lem (rotates message b s.conn) _ in
      record { state = h.state; ib = h.ib; index = h.index; flag = h.flag }
