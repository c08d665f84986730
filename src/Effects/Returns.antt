-- ===== src/Effects/Returns.antt =====
-- What holds of every result that an action returns.
use bifrost_platform_plugin.Prelude.{Bool, true, false, if◌then◌else◌}
use bifrost_platform_plugin.Effects.{Outcome, returned, raised, Io, continue_with, ◌>>=◌}

abbrev pub Holds : {A : Type 0} → (A → Type 0) → Outcome A → Type 0
Holds Q (returned a) = Q a
Holds Q (raised e) = Unit

module _ {W A : Type 0} (Q : A → Type 0) where
  abbrev pub Returns : Io W A → Type 0
  Returns m = (w : W) → Holds Q (m w).0

  pub continue-Returns :
      {B : Type 0} (f : B → Io W A) (r : Outcome B) (v : W)
      → ((b : B) → Returns (f b))
      → Holds Q (continue_with f r v).0
  continue-Returns f (returned b) v h = h b v
  continue-Returns f (raised e) v h = tt

  pub Returns-bind :
      {B : Type 0} (m : Io W B) (f : B → Io W A) → ((b : B) → Returns (f b)) → Returns (m >>= f)
  Returns-bind m f h w = continue-Returns f (m w).0 (m w).1 h

  pub Returns-if : (b : Bool) (m n : Io W A) → Returns m → Returns n → Returns (if b then m else n)
  Returns-if true m n hm hn = hm
  Returns-if false m n hm hn = hn

-- The second action may use what holds of the first one's result.
module _ {W A B : Type 0} (P : A → Type 0) (Q : B → Type 0) where
  continue-then :
      (f : A → Io W B) (r : Outcome A) (v : W)
      → Holds P r
      → ((a : A) → P a → Returns Q (f a))
      → Holds Q (continue_with f r v).0
  continue-then f (returned a) v p h = h a p v
  continue-then f (raised e) v p h = tt

  pub Returns-then :
      (m : Io W A) (f : A → Io W B)
      → Returns P m
      → ((a : A) → P a → Returns Q (f a))
      → Returns Q (m >>= f)
  Returns-then m f hm h w = continue-then f (m w).0 (m w).1 (hm w) h

pub Holds-map :
    {A : Type 0} {P Q : A → Type 0} (r : Outcome A) → ((a : A) → P a → Q a) → Holds P r → Holds Q r
Holds-map (returned a) f p = f a p
Holds-map (raised e) f p = tt
