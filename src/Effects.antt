-- ===== src/Effects.antt =====
-- Code that acts on a world `W` (Redis, TWS, the clock) and may raise: a state monad with
-- exceptions. A write made before an exception stays made.
pub mod Keep
pub mod Returns
use bifrost_platform_plugin.Prelude.{ℕ, Bool, true, false, List, [], ◌∷◌, if◌then◌else◌}
use bifrost_platform_plugin.Text.{Text}
use bifrost_platform_plugin.Float.{Float}

-- The classes of exceptions that a handler of the gateway tells apart. `value_error` is
-- TypeError or ValueError. `cancelled` is asyncio's CancelledError, which `except Exception` lets
-- through.
pub data ExnKind : Type 0 where
  response_error value_error timeout_error cancelled other : ExnKind

pub record Exn : Type 0 where
  pub kind : ExnKind
  -- str(e)
  pub message : Text

unfoldable pub is_cancelled : Exn → Bool
is_cancelled e = elim e.kind [ cancelled ↦ true | _ ↦ false ]

pub data Outcome {ℓ} (A : Type ℓ) : Type ℓ where
  returned : A → Outcome A
  raised : Exn → Outcome A

abbrev pub Io : Type 0 → Type 0 → Type 0
Io W A = W → Outcome A × W

module _ {W A : Type 0} where
  abbrev pub pure : A → Io W A
  pure a w = (returned a, w)

  abbrev pub raise : Exn → Io W A
  raise e w = (raised e, w)

  -- `try`: the exception as a value
  abbrev pub attempt : Io W A → Io W (Outcome A)
  attempt m w = (returned (m w).0, (m w).1)

  abbrev pub lift : Outcome A → Io W A
  lift r w = (r, w)

  abbrev pub gets : (W → A) → Io W A
  gets f w = (returned (f w), w)

abbrev pub modify : {W : Type 0} → (W → W) → Io W (Unit {0})
modify f w = (returned tt, f w)

abbrev pub continue_with : {W A B : Type 0} → (A → Io W B) → Outcome A → W → Outcome B × W
continue_with f (returned a) w = f a w
continue_with f (raised e) w = (raised e, w)

-- `except Exception`: every exception but a cancellation as a value.
unfoldable pub caught : {W A : Type 0} → Outcome A → Io W (Outcome A)
caught (returned a) = pure (returned a)
caught (raised e) = if is_cancelled e then raise e else pure (raised e)

abbrev pub catch : {W A : Type 0} → Io W A → Io W (Outcome A)
catch m w = caught (m w).0 (m w).1

infixl 5 ◌>>=◌ ◌>>◌
abbrev pub ◌>>=◌ : {W A B : Type 0} → Io W A → (A → Io W B) → Io W B
◌>>=◌ m f w = continue_with f (m w).0 (m w).1

abbrev pub ◌>>◌ : {W B : Type 0} → Io W (Unit {0}) → Io W B → Io W B
m >> k = m >>= λ _. k

-- `for x in xs: body(x)`
unfoldable pub for_each : {W A : Type 0} → (A → Io W (Unit {0})) → List A → Io W (Unit {0})
for_each body [] = pure tt
for_each body (x ∷ xs) = do body x; for_each body xs

-- What the tasks share beside Redis: the clock, sleeping and the stop event.
pub record Env (W : Type 0) : Type 0 where
  -- time.time()
  pub now : W → Float
  -- int(time.time() * 1000)
  pub clock_ms : W → ℕ
  -- asyncio.sleep, in seconds
  pub sleep : ℕ → W → W
  -- stop.is_set()
  pub stopped : W → Bool
