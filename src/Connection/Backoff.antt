-- ===== src/Connection/Backoff.antt =====
-- The delay between the rounds of the reconnect loop.
use Prim.Native.Nat.{◌^◌}
use native.Mathlib.Nat.{pow-suc, add-zero, add-suc, suc-add, zero-add}
use bifrost_platform_plugin.Prelude.{
  ℤ, ℕ, zero, suc, ◌+◌, ◌*◌, ◌≤◌, ◌<◌, ◌≡◌, refl, ap, ◌∙◌, Bool, false, Option, none, some, arith,
  Bool-cases, inl, inr, length, min,
}
use bifrost_platform_plugin.Text.{Text}
use bifrost_platform_plugin.Connection.Defs.{
  disconnected, Tws, TwsSlotConfig, SlotConnection, Slot, is_connected_state, session_up, conclude,
  attempt, client_id, try_client, connect_loop, connect_locked, connect, rest, reconnect_step,
  reconnect_loop,
}
use bifrost_platform_plugin.Connection.Connect.{connect-Settled, connect_outside}

-- TWS never accepts a connection.
abbrev pub RefusesAll : {W : Type 0} → Tws W → Type 0
RefusesAll tws =
    (ib : ℕ) (ip : Text) (port cid : ℤ) (w : _)
    → (m : Text) × ((tws.connect_async ib ip port cid w).1 ≡ some m)

-- The slot is down, with no session, and outside maintenance.
pub record IsDown (cfg : TwsSlotConfig) (sc : SlotConnection) : Type 0 where
  pub state : sc.state ≡ disconnected
  pub no_session : sc.ib ≡ none
  pub flag : sc.in_maintenance ≡ false
  pub in_range : sc.current_cid_index < length cfg.client_ids

module _ {W : Type 0} (tws : Tws W) (cfg : TwsSlotConfig) (base max : ℕ) where
  -- In every round the delay stays between the base and the limit.
  step_bounds :
      (delay : ℕ) (s : Slot W)
      → base ≤ max
      → base ≤ delay
      → delay ≤ max
      → (base ≤ (reconnect_step tws cfg base max delay s).0)
        × ((reconnect_step tws cfg base max delay s).0 ≤ max)
  unfolding reconnect_step
  step_bounds delay s le lo hi = ground arith

  -- From a delay between the base and the limit on, the reconnect loop never waits less than the
  -- base nor more than the limit, whatever TWS does.
  pub reconnect_loop_bounds :
      (stopped : W → Bool) (fuel delay : ℕ) (s : Slot W)
      → base ≤ max
      → base ≤ delay
      → delay ≤ max
      → (base ≤ (reconnect_loop tws cfg stopped fuel base max delay s).0)
        × ((reconnect_loop tws cfg stopped fuel base max delay s).0 ≤ max)
  unfolding reconnect_loop
  reconnect_loop_bounds stopped zero delay s le lo hi = (lo, hi)
  reconnect_loop_bounds stopped (suc fuel) delay s le lo hi = elim (Bool-cases (stopped s.world)) [
    | inl off ↦ rw off (lo, hi)
    | inr on ↦
        let r = reconnect_step tws cfg base max delay s in
        let (lo', hi') = step_bounds delay s le lo hi in
        rw on (reconnect_loop_bounds stopped fuel r.0 r.1 le lo' hi')
  ]

  conclude_fails :
      (ib : ℕ) (failure : Option Text) (b : Bool) (s : Slot W) {m : Text}
      → failure ≡ some m
      → (conclude tws cfg ib failure b s).0 ≡ false
  unfolding conclude
  conclude_fails ib none b s e = cc
  conclude_fails ib (some m) b s e = refl

  attempt_fails : (cid : ℤ) (s : Slot W) → RefusesAll tws → (attempt tws cfg cid s).0 ≡ false
  unfolding attempt
  attempt_fails cid s refused =
      let (ib, w) = tws.open_session s.world in
      conclude_fails ib _ _ _ ((refused ib cfg.ip cfg.port cid w).1)

  connect_loop_fails :
      (rounds : ℕ) (s : Slot W) → RefusesAll tws → (connect_loop tws cfg rounds s).0 ≡ false
  unfolding connect_loop
  connect_loop_fails zero s refused = refl
  connect_loop_fails (suc rounds) s refused =
      go (client_id cfg s.conn) (λ t. connect_loop_fails rounds t refused)
    where
      go :
          (o : Option ℤ)
          → ((t : Slot W) → (connect_loop tws cfg rounds t).0 ≡ false)
          → (try_client tws cfg o (connect_loop tws cfg rounds) s).0 ≡ false
      go none ih = unfold try_client in refl
      go (some cid) ih =
          unfold try_client in rw (attempt_fails cid s refused) (ih (attempt tws cfg cid s).1)

  connect_fails : (s : Slot W) → RefusesAll tws → IsDown cfg s.conn → (connect tws cfg s).0 ≡ false
  unfolding connect_locked session_up
  connect_fails s refused d =
      ap (λ r. r.0) (connect_outside tws cfg s d.flag)
      ∙ rw (d.no_session) (connect_loop_fails (length cfg.client_ids) _ refused)

  refused_step_eq :
      (delay : ℕ) (s : Slot W)
      → IsDown cfg s.conn
      → (connect tws cfg s).0 ≡ false
      → reconnect_step tws cfg base max delay s
        ≡ (min (delay * 2) max, rest tws cfg delay (connect tws cfg s).1)
  unfolding reconnect_step is_connected_state
  refused_step_eq delay s d e = ground arith

  step-IsDown :
      (delay : ℕ) (s : Slot W)
      → RefusesAll tws
      → IsDown cfg s.conn
      → ((reconnect_step tws cfg base max delay s).0 ≡ min (delay * 2) max)
        × IsDown cfg (reconnect_step tws cfg base max delay s).1.conn
  unfolding rest
  step-IsDown delay s refused d =
      let e = connect_fails s refused d in
      let k = connect-Settled tws cfg s d.flag d.in_range in
      rw (refused_step_eq delay s d e) (
        refl,
        record {
          state = (k.down e).0;
          no_session = (k.down e).1;
          flag = k.flag_kept ∙ d.flag;
          in_range = k.in_range;
        },
      )

  doubled : (x : ℕ) → min (min x max * 2) max ≡ min (x * 2) max
  doubled x = omega arith

  loop_down :
      (stopped : W → Bool) (j k delay : ℕ) (s : Slot W)
      → ((w : W) → stopped w ≡ false)
      → RefusesAll tws
      → IsDown cfg s.conn
      → delay ≡ min (base * 2 ^ j) max
      → (reconnect_loop tws cfg stopped k base max delay s).0 ≡ min (base * 2 ^ (j + k)) max
  unfolding reconnect_loop
  loop_down stopped j zero delay s on refused d e = rw e (rw add-zero refl)
  loop_down stopped j (suc k) delay s on refused d e =
      let (grown, d') = step-IsDown delay s refused d in
      rw (on s.world, add-suc, ← suc-add)
        (loop_down stopped (suc j) k _ _ on refused d' (
          grown
          ∙ ap (λ t. min (t * 2) max) e
          ∙ doubled (base * 2 ^ j)
          ∙ ap (λ t. min t max) (power j)))
    where
      power : (n : ℕ) → base * 2 ^ n * 2 ≡ base * 2 ^ suc n
      power n = rw pow-suc (omega arith)

  -- Where the base is at most the limit, and while TWS refuses every connection and the stop event
  -- is not set, a slot that is down and outside maintenance waits twice as long after each round, up
  -- to the limit: after `k` rounds the delay is the base times 2 ^ k, or the limit where that is
  -- less.
  pub backoff_doubles :
      (stopped : W → Bool) (k : ℕ) (s : Slot W)
      → base ≤ max
      → ((w : W) → stopped w ≡ false)
      → RefusesAll tws
      → IsDown cfg s.conn
      → (reconnect_loop tws cfg stopped k base max base s).0 ≡ min (base * 2 ^ k) max
  backoff_doubles stopped k s le on refused d =
      loop_down stopped 0 k base s on refused d (omega arith) ∙ rw zero-add refl
