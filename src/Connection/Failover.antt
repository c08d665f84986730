-- ===== src/Connection/Failover.antt =====
-- The failover between client ids.
use bifrost_platform_plugin.Prelude.{
  ℤ, ℕ, zero, suc, ◌+◌, ◌%◌, ◌<◌, ◌≡◌, refl, ap, sym, ◌∙◌, ◌⊎◌, Bool, true, false, ◌||◌, List, [],
  ◌∷◌, ◌++◌, Option, none, some, arith, inl, inr, if◌then◌else◌, length, map,
}
use mathlib.Core.List.{map-append}
use native.Mathlib.Nat.{add-zero, mod-add-mod, mod-eq_of_lt, add-mod_right}
use bifrost_platform_plugin.Text.{Text, txt, lower, lower_char, contains, starts_with}
use bifrost_platform_plugin.Connection.Defs.{
  TwsError, Tws, TwsSlotConfig, SlotConnection, Slot, note_errors, is_client_id_conflict,
  join_given, or_blank, or_else, or_last, conclude, reject, rejection, on_error, attempt,
  try_client, mark_disconnected, connect_loop, connect_locked, connect, session_up, hang_up_if,
  reconnecting,
}
use bifrost_platform_plugin.Connection.Connect.{
  client_id_in_range, attempt-Attempted, connect_outside,
}
use bifrost_platform_plugin.Connection.Invariant.{note_errors-SameCore, rotates, reject_lem}

starts_with-append : (p s t : Text) → starts_with p s ≡ true → starts_with p (s ++ t) ≡ true
unfolding starts_with
starts_with-append [] s t h = refl
starts_with-append (c ∷ p) [] t h = cc
starts_with-append (c ∷ p) (d ∷ s) t h = ground (arith, starts_with-append p s t)

contains-append : (p s t : Text) → contains p s ≡ true → contains p (s ++ t) ≡ true
unfolding contains
contains-append [] [] [] h = refl
contains-append [] [] (c ∷ t) h = refl
contains-append (c ∷ p) [] t h = cc
contains-append p (c ∷ s) t h =
    ground (arith, starts_with-append p (c ∷ s) t, contains-append p s t)

or_true : (a : Bool) → (a || true) ≡ true
or_true true = refl
or_true false = refl

-- A last error that looks like a conflict makes an exception without a text one, too.
stale_conflict :
    (c : ℕ) (t : Text)
    → contains (txt "326") (lower (c ∷ t)) ≡ true
    → is_client_id_conflict (c ∷ t) (some (c ∷ t)) ≡ true
unfolding is_client_id_conflict join_given or_blank lower
stale_conflict c t h =
    rw (map-append lower_char (c ∷ t) (b' ' ∷ c ∷ t))
      (rw (contains-append (txt "326") (lower (c ∷ t)) (map lower_char (b' ' ∷ c ∷ t)) h) refl)

on_error_conflict :
    (e : TwsError) (sc : SlotConnection) (b : Bool)
    → (e.code ≡ 326) ⊎ (b ≡ true)
    → (on_error e (sc, b)).1 ≡ true
unfolding on_error
on_error_conflict e sc b h = ground arith

conflicted : (es : List TwsError) (sc : SlotConnection) → (note_errors es (sc, true)).1 ≡ true
unfolding note_errors
conflicted [] sc = refl
conflicted (e ∷ es) sc =
    ap (λ b. (note_errors es ((on_error e (sc, true)).0, b)).1)
      (on_error_conflict e sc true (inr refl))
    ∙ conflicted es (on_error e (sc, true)).0

first_conflict :
    (e : TwsError) (es : List TwsError) (sc : SlotConnection)
    → e.code ≡ 326
    → (note_errors (e ∷ es) (sc, false)).1 ≡ true
unfolding note_errors
first_conflict e es sc h =
    ap (λ b. (note_errors es ((on_error e (sc, false)).0, b)).1)
      (on_error_conflict e sc false (inl h))
    ∙ conflicted es (on_error e (sc, false)).0

module _ {W : Type 0} (tws : Tws W) (cfg : TwsSlotConfig) where
  abbrev pub next_index : ℕ → ℕ
  next_index i = (i + 1) % length cfg.client_ids

  reject_moves :
      (ib : ℕ) (message : Text) (b : Bool) (s : Slot W)
      → rotates tws cfg message b s.conn ≡ true
      → (reject tws cfg ib message b s).conn.current_cid_index ≡ next_index s.conn.current_cid_index
  reject_moves ib message b s h =
      (reject_lem tws cfg ib message b s).index
      ∙ ap (λ r. if r then next_index s.conn.current_cid_index else s.conn.current_cid_index) h

  stale_rotates :
      (c : ℕ) (t : Text) (sc : SlotConnection)
      → sc.last_error ≡ some (c ∷ t)
      → contains (txt "326") (lower (c ∷ t)) ≡ true
      → rotates tws cfg [] false sc ≡ true
  unfolding or_else or_blank or_last
  stale_rotates c t sc last like = rw last (rw (stale_conflict c t like) refl)

  -- An attempt that times out, with no text and no error event of its own, moves on to the next
  -- client id as if that id were taken, where the error that an earlier attempt left in
  -- `last_error` has "326" in it.
  pub stale_error_rotates :
      (cid : ℤ) (c : ℕ) (t : Text) (s : Slot W) (w' : W)
      → s.conn.last_error ≡ some (c ∷ t)
      → contains (txt "326") (lower (c ∷ t)) ≡ true
      → (let (ib, w) = tws.open_session s.world in
          tws.connect_async ib cfg.ip cfg.port cid w ≡ ([], some [], w'))
      → (attempt tws cfg cid s).1.conn.current_cid_index ≡ next_index s.conn.current_cid_index
  unfolding attempt conclude note_errors
  stale_error_rotates cid c t s w' last like silent = rw silent (
      reject_moves (tws.open_session s.world).0 [] false (record s { world = w' })
        (stale_rotates c t s.conn last like))

  -- Every connection is answered by an error event 326, first of all.
  abbrev pub Conflicts : Type 0
  Conflicts =
      (ib : ℕ) (ip : Text) (port cid : ℤ) (w : W)
      → (e : TwsError) × (es : List TwsError) × ((tws.connect_async ib ip port cid w).0 ≡ e ∷ es)
        × (e.code ≡ 326)

  conclude_conflict :
      (ib : ℕ) (failure : Option Text) (b : Bool) (s : Slot W)
      → b ≡ true
      → ((conclude tws cfg ib failure b s).0 ≡ false)
        × ((conclude tws cfg ib failure b s).1.conn.current_cid_index
            ≡ next_index s.conn.current_cid_index)
  unfolding conclude
  conclude_conflict ib (some m) false s h = cc
  conclude_conflict ib (some m) true s h = (refl, reject_moves ib m true s (or_true _))
  conclude_conflict ib none false s h = cc
  conclude_conflict ib none true s h =
      (refl, reject_moves ib (rejection tws cfg s.conn.last_error) true s (or_true _))

  attempt_conflict :
      (cid : ℤ) (s : Slot W)
      → Conflicts
      → ((attempt tws cfg cid s).0 ≡ false)
        × ((attempt tws cfg cid s).1.conn.current_cid_index ≡ next_index s.conn.current_cid_index)
  unfolding attempt
  attempt_conflict cid s taken =
      let (ib, w) = tws.open_session s.world in
      let (e, es, first, code) = taken ib cfg.ip cfg.port cid w in
      let r = tws.connect_async ib cfg.ip cfg.port cid w in
      let (sc, b) = note_errors r.0 (s.conn, false) in
      let (lost, moved) =
        conclude_conflict ib r.1 b (record { conn = sc; world = r.2 })
          (ap (λ l. (note_errors l (s.conn, false)).1) first ∙ first_conflict e es s.conn code) in
      (lost, moved ∙ ap next_index ((note_errors-SameCore r.0 s.conn false).index))

  loop_conflict :
      (rounds : ℕ) (s : Slot W)
      → Conflicts
      → s.conn.current_cid_index < length cfg.client_ids
      → ((connect_loop tws cfg rounds s).0 ≡ false)
        × ((connect_loop tws cfg rounds s).1.conn.current_cid_index
            ≡ (s.conn.current_cid_index + rounds) % length cfg.client_ids)
  unfolding connect_loop try_client mark_disconnected
  loop_conflict zero s taken range =
      (refl, sym (ap (λ t. t % length cfg.client_ids) (add-zero _) ∙ mod-eq_of_lt range))
  loop_conflict (suc rounds) s taken range =
      let (cid, known) = client_id_in_range cfg s.conn range in
      let r = attempt tws cfg cid s in
      let (lost, moved) = attempt_conflict cid s taken in
      let (out, at) =
        loop_conflict rounds r.1 taken ((attempt-Attempted tws cfg cid s).in_range range) in
      rw (known, lost)
        (
          out,
          at
              ∙ ap (λ i. (i + rounds) % length cfg.client_ids) moved
              ∙ shift s.conn.current_cid_index rounds (length cfg.client_ids),
        )
    where
      shift : (i k n : ℕ) → ((i + 1) % n + k) % n ≡ (i + suc k) % n
      shift i k n = mod-add-mod (i + 1) n k ∙ ap (λ t. t % n) (omega arith)

  -- Where TWS answers every client id with error 326, connecting a slot that is not in maintenance
  -- and has no live session fails, and comes back to the client id that it began with.
  pub all_conflicts_cycle :
      (s : Slot W)
      → Conflicts
      → s.conn.in_maintenance ≡ false
      → session_up tws cfg s.conn.ib s.world ≡ false
      → s.conn.current_cid_index < length cfg.client_ids
      → ((connect tws cfg s).0 ≡ false)
        × ((connect tws cfg s).1.conn.current_cid_index ≡ s.conn.current_cid_index)
  unfolding connect_locked
  all_conflicts_cycle s taken off gone range = rw (connect_outside tws cfg s off) (
      rw gone (
        let (out, at) =
          loop_conflict (length cfg.client_ids)
            (record {
              conn = record s.conn { ib = none; state = reconnecting };
              world = hang_up_if tws cfg s.conn.ib s.world;
            })
            taken range in
        (out, at ∙ round s.conn.current_cid_index (length cfg.client_ids) range)))
    where
      round : (i n : ℕ) → i < n → (i + n) % n ≡ i
      round i n h = add-mod_right i n ∙ mod-eq_of_lt h
