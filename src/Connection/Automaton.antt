-- ===== src/Connection/Automaton.antt =====
-- What the rest of the gateway may know of a slot: an automaton, which knows the session that the
-- slot keeps and whether the slot counts as connected.
use bifrost_platform_plugin.Prelude.{ℕ, List, [], ◌∷◌, Option, none, some}

-- No session; the session of this number, which the slot keeps without counting as connected, or
-- with which it is connected; maintenance, with the session that the slot keeps meanwhile.
pub data Phase : Type 0 where
  down : Phase
  held up : ℕ → Phase
  paused : Option ℕ → Phase

pub data Act : Type 0 where
  watch dial pause resume : Act

-- Outside maintenance.
abbrev pub IsActive : Phase → Type 0
IsActive (paused ib) = ⊥
IsActive _ = Unit

abbrev pub session_kept : Phase → Option ℕ
session_kept down = none
session_kept (held n) = some n
session_kept (up n) = some n
session_kept (paused ib) = ib

-- The phase after its session is given up.
abbrev pub cleared : Phase → Phase
cleared (paused ib) = paused none
cleared _ = down

-- A slot that is not connected, with what it keeps.
abbrev pub resting : Option ℕ → Phase
resting none = down
resting (some n) = held n

-- The automaton: watching can only give up a session; dialling connects or gives the session up,
-- and does nothing in maintenance; maintenance keeps the session, and its end does not connect it.
pub data Move : Act → Phase → Phase → Type 0 where
  unchanged : {p : Phase} → Move watch p p
  lost : {p : Phase} → Move watch p (cleared p)
  kept : {p : Phase} → Move dial p p
  failed : {p : Phase} → IsActive p → Move dial p down
  joined : {p : Phase} (n : ℕ) → IsActive p → Move dial p (up n)
  pausing : {p : Phase} → Move pause p (paused (session_kept p))
  resumed : {ib : Option ℕ} → Move resume (paused ib) (resting ib)
  idle : {p : Phase} → IsActive p → Move resume p p

pub data Run : List Act → Phase → Phase → Type 0 where
  start : {p : Phase} → Run [] p p
  later :
      {acts : List Act} {a : Act} {p q r : Phase} → Run acts p q → Move a q r → Run (a ∷ acts) p r
