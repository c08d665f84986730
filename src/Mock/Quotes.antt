-- ===== src/Mock/Quotes.antt =====
-- The quotes of the mock do not cross.
use bifrost_platform_plugin.Prelude.{ℕ, ◌≡◌, refl, true, pos, negsuc, ◌+ℤ◌, ◌-ℤ◌, arith}
use bifrost_platform_plugin.Float.{
  Float, nan, pos_inf, neg_inf, fin, leb_f, add_f, sub_f, max_f, mul_f,
}
use bifrost_platform_plugin.Json.{Python}
use bifrost_platform_plugin.Mock.Ticks.{spread_of, bid_of, ask_of}

-- A number that is not below 0.
abbrev pub IsPrice : Float → Type 0
IsPrice x = (n : ℕ) × (x ≡ fin (pos n))

-- round(x, digits) keeps the order of numbers.
pub record KeepsOrder (py : Python) : Type 0 where
  pub in_order :
      (digits : ℕ) (x y : Float)
      → leb_f x y ≡ true
      → leb_f (py.round_to digits x) (py.round_to digits y) ≡ true

around :
    (n : ℕ) (x : Float)
    → (leb_f (sub_f (fin (pos n)) (max_f (fin (pos 10000)) x)) (fin (pos n)) ≡ true)
      × (leb_f (fin (pos n)) (add_f (fin (pos n)) (max_f (fin (pos 10000)) x)) ≡ true)
unfolding sub_f add_f ◌+ℤ◌ ◌-ℤ◌
around n nan = ground arith
around n pos_inf = (refl, refl)
around n neg_inf = ground arith
around n (fin (pos z)) = ground arith
around n (fin (negsuc z)) = ground arith

-- The quote of a price: its bid is at most its last price, and that at most its ask.
abbrev pub InOrder : Python → Float → Type 0
InOrder py base =
    (leb_f (bid_of py base) (py.round_to 2 base) ≡ true)
    × (leb_f (py.round_to 2 base) (ask_of py base) ≡ true)

pub mock_tick-InOrder :
    (py : Python) (base : Float) → KeepsOrder py → IsPrice base → InOrder py base
unfolding bid_of ask_of spread_of
mock_tick-InOrder py base k (n, e) = rw e (
    let h = around n (py.round_to 2 (mul_f (fin (pos n)) (fin (pos 500)))) in
    (k.in_order 2 _ _ h.0, k.in_order 2 _ _ h.1))
