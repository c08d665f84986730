-- ===== src/Effects/Keep.antt =====
-- Actions that leave a part of the world as it is.
use bifrost_platform_plugin.Prelude.{
  ◌≡◌, refl, ◌∙◌, Bool, true, false, List, [], ◌∷◌, if◌then◌else◌,
}
use bifrost_platform_plugin.Effects.{Outcome, returned, raised, Io, continue_with, ◌>>=◌, for_each}

module _ {W L : Type 0} (view : W → L) where
  abbrev pub Keeps : {A : Type 0} → Io W A → Type 0
  Keeps m = (w : W) → view (m w).1 ≡ view w

  pub continue-Keeps :
      {A B : Type 0} (f : A → Io W B) (r : Outcome A) (v : W)
      → ((a : A) → Keeps (f a))
      → view (continue_with f r v).1 ≡ view v
  continue-Keeps f (returned a) v h = h a v
  continue-Keeps f (raised e) v h = refl

  pub Keeps-bind :
      {A B : Type 0} (m : Io W A) (f : A → Io W B)
      → Keeps m
      → ((a : A) → Keeps (f a))
      → Keeps (m >>= f)
  Keeps-bind m f hm hf w = continue-Keeps f (m w).0 (m w).1 hf ∙ hm w

  -- Each branch may use its condition.
  pub Keeps-branch :
      {A : Type 0} (b : Bool) (m n : Io W A)
      → (b ≡ true → Keeps m)
      → (b ≡ false → Keeps n)
      → Keeps (if b then m else n)
  Keeps-branch true m n hm hn = hm refl
  Keeps-branch false m n hm hn = hn refl

  pub Keeps-if :
      {A : Type 0} (b : Bool) (m n : Io W A) → Keeps m → Keeps n → Keeps (if b then m else n)
  Keeps-if b m n hm hn = Keeps-branch b m n (λ e. hm) (λ e. hn)

-- Actions that preserve a property of the world.
module _ {W : Type 0} (P : W → Type 0) where
  abbrev pub Preserves : {A : Type 0} → Io W A → Type 0
  Preserves m = (w : W) → P w → P (m w).1

  pub continue-Preserves :
      {A B : Type 0} (f : A → Io W B) (r : Outcome A) (v : W)
      → ((a : A) → Preserves (f a))
      → P v
      → P (continue_with f r v).1
  continue-Preserves f (returned a) v h p = h a v p
  continue-Preserves f (raised e) v h p = p

  pub Preserves-bind :
      {A B : Type 0} (m : Io W A) (f : A → Io W B)
      → Preserves m
      → ((a : A) → Preserves (f a))
      → Preserves (m >>= f)
  Preserves-bind m f hm hf w p = continue-Preserves f (m w).0 (m w).1 hf (hm w p)

  -- Each branch may use its condition.
  pub Preserves-branch :
      {A : Type 0} (b : Bool) (m n : Io W A)
      → (b ≡ true → Preserves m)
      → (b ≡ false → Preserves n)
      → Preserves (if b then m else n)
  Preserves-branch true m n hm hn = hm refl
  Preserves-branch false m n hm hn = hn refl

  pub Preserves-if :
      {A : Type 0} (b : Bool) (m n : Io W A)
      → Preserves m
      → Preserves n
      → Preserves (if b then m else n)
  Preserves-if b m n hm hn = Preserves-branch b m n (λ e. hm) (λ e. hn)

  pub Preserves-for_each :
      {A : Type 0} (body : A → Io W (Unit {0})) (xs : List A)
      → ((a : A) → Preserves (body a))
      → Preserves (for_each body xs)
  unfolding for_each
  Preserves-for_each body [] h w p = p
  Preserves-for_each body (x ∷ xs) h w p =
      Preserves-bind (body x) (λ u. for_each body xs) (h x) (λ u. Preserves-for_each body xs h) w p

-- What preserves every value of a view keeps it, and the other way round.
pub Keeps-of_Preserves :
    {W L A : Type 0} (view : W → L) (m : Io W A)
    → ((c : L) → Preserves (λ w. view w ≡ c) m)
    → Keeps view m
Keeps-of_Preserves view m h w = h (view w) w refl

pub Preserves-of_Keeps :
    {W L A : Type 0} (view : W → L) (m : Io W A) (c : L)
    → Keeps view m
    → Preserves (λ w. view w ≡ c) m
Preserves-of_Keeps view m c h w e = h w ∙ e
