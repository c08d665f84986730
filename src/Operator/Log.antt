-- ===== src/Operator/Log.antt =====
-- Actions that return normally, with what they store and acknowledge on Redis.
use bifrost_platform_plugin.Prelude.{
  ◌≡◌, refl, ap, sym, ◌∙◌, List, [], ◌∷◌, ◌++◌, Bool, true, false, if◌then◌else◌, All, append-nil,
  append_assoc,
}
use bifrost_platform_plugin.Text.{Text}
use bifrost_platform_plugin.Effects.{Outcome, returned, Io, pure, lift, gets, for_each, ◌>>=◌}

-- A key that was set, or an entry that was acknowledged (stream, group, entry).
pub data Event : Type 0 where
  stored : Text → Event
  acked : Text → Text → Text → Event

-- The events of each element, in order.
abbrev pub flat_map : {A B : Type 0} → (A → List B) → List A → List B
flat_map f [] = []
flat_map f (x ∷ xs) = f x ++ flat_map f xs

-- `m` returns, and adds `events` to the log.
pub record Logs {W A : Type 0} (log : W → List Event) (m : Io W A) (events : List Event)
    : Type 0 where
  pub at : (w : W) → (a : A) × ((m w).0 ≡ returned a) × (log (m w).1 ≡ log w ++ events)

module _ {W : Type 0} (log : W → List Event) where
  pub Logs-pure : {A : Type 0} (a : A) → Logs log (pure a) []
  Logs-pure a = record { at = λ w. (a, refl, sym (append-nil (log w))) }

  pub Logs-gets : {A : Type 0} (f : W → A) → Logs log (gets f) []
  Logs-gets f = record { at = λ w. (f w, refl, sym (append-nil (log w))) }

  pub Logs-lift : {A : Type 0} (r : Outcome A) {a : A} → r ≡ returned a → Logs log (lift r) []
  Logs-lift r {a} e = record { at = λ w. (a, e, sym (append-nil (log w))) }

  pub Logs-bind :
      {A B : Type 0} (m : Io W A) (f : A → Io W B) (es fs : List Event)
      → Logs log m es
      → ((a : A) → Logs log (f a) fs)
      → Logs log (m >>= f) (es ++ fs)
  Logs-bind m f es fs lm lf = record {
    at = λ w.
        let (a, e, l) = lm.at w in
        let (b, e', l') = (lf a).at (m w).1 in
        rw e (b, e', l' ∙ ap (λ t. t ++ fs) l ∙ append_assoc (log w) es fs);
  }

  pub Logs-lift_bind :
      {A B : Type 0} (r : Outcome A) (f : A → Io W B) (es : List Event) {a : A}
      → r ≡ returned a
      → Logs log (f a) es
      → Logs log (lift r >>= f) es
  Logs-lift_bind r f es e lf = record { at = λ w. rw e (lf.at w) }

  pub Logs-if :
      {A : Type 0} (b : Bool) (m n : Io W A) (es : List Event)
      → Logs log m es
      → Logs log n es
      → Logs log (if b then m else n) es
  Logs-if true m n es lm ln = lm
  Logs-if false m n es lm ln = ln

  -- one event list for each element
  pub Logs-for_each :
      {A : Type 0} (body : A → Io W (Unit {0})) (events : A → List Event) (xs : List A)
      → All (λ x. Logs log (body x) (events x)) xs
      → Logs log (for_each body xs) (flat_map events xs)
  unfolding for_each
  Logs-for_each body events [] l = Logs-pure tt
  Logs-for_each body events (x ∷ xs) l =
      Logs-bind (body x) (λ _. for_each body xs) (events x) (flat_map events xs) l.0
        (λ _. Logs-for_each body events xs l.1)
