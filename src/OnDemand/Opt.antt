-- ===== src/OnDemand/Opt.antt =====
-- Option contract keys, `SYMBOL|OPT|YYYYMMDD|STRIKE|RIGHT`.
use bifrost_platform_plugin.Prelude.{
  ℕ, ◌≤◌, ◌≡◌, refl, sym, ◌⊎◌, true, false, List, [], ◌∷◌, ◌++◌, Option, none, some, arith,
  Bool-cases, inl, inr, length, append_assoc, ◌==◌,
}
use bifrost_platform_plugin.Text.{Text, txt, strip, upper, text_eq, mem_text, is_space, join, split}
use bifrost_platform_plugin.Text.Laws.{strip_fixed, text_eq_refl}
use bifrost_platform_plugin.Text.Split.{IsFree, split-join}
use bifrost_platform_plugin.Float.{Float}
use bifrost_platform_plugin.OnDemand.{
  OptContract, all_digits, checked_contract, contract_of_parts, parse_opt_contract_key,
}

-- The key of a contract whose strike is written as `strike_raw`.
abbrev pub opt_key : Text → Text → Text → Text → Text
opt_key symbol expiry strike_raw right =
    join b'|' (symbol ∷ txt "OPT" ∷ expiry ∷ strike_raw ∷ right ∷ [])

-- What a parsed key has told.
pub record IsContract (c : OptContract) : Type 0 where
  pub symbol_given : text_eq c.symbol [] ≡ false
  pub expiry_digits : all_digits c.expiry ≡ true
  pub expiry_long : 6 ≤ length c.expiry
  pub right_known : mem_text c.right (txt "C" ∷ txt "P" ∷ []) ≡ true

checked_contract-IsContract :
    (sym sec expiry : Text) (strike : Option Float) (right : Text) (c : OptContract)
    → checked_contract sym sec expiry strike right ≡ some c
    → IsContract c
unfolding checked_contract
checked_contract-IsContract sym sec expiry strike right c h = ground arith

contract_of_parts-IsContract :
    (read_float : Text → Option Float) (parts : List Text) (c : OptContract)
    → contract_of_parts read_float parts ≡ some c
    → IsContract c
unfolding contract_of_parts
contract_of_parts-IsContract read_float (s ∷ t ∷ e ∷ k ∷ r ∷ []) c h =
    checked_contract-IsContract (upper (strip s)) (upper (strip t)) (strip e) (read_float (strip k))
      (upper (strip r)) c h
contract_of_parts-IsContract read_float _ c h = cc

-- A key that parses has a symbol, an expiry of at least six digits and nothing else, and the
-- right C or P.
pub parse_opt_contract_key-IsContract :
    (read_float : Text → Option Float) (key : Text) (c : OptContract)
    → parse_opt_contract_key read_float key ≡ some c
    → IsContract c
unfolding parse_opt_contract_key
parse_opt_contract_key-IsContract read_float key c h = elim (Bool-cases (text_eq (strip key) [])) [
  | inl blank ↦ let failed : ◌≡◌ {A = Option OptContract} none (some c) = rw blank at h in cc
  | inr given ↦ contract_of_parts-IsContract read_float (split b'|' (strip key)) c (rw given at h)
]

-- The parts of a contract in normal form: the symbol begins with `c`, no part holds a bar, and
-- `right` is C or P.
pub record IsNormal (read_float : Text → Option Float) (c : ℕ) (rest expiry strike_raw : Text)
    (strike : Float) (right : ℕ) : Type 0 where
  pub starts : is_space c ≡ false
  pub symbol_clean : upper (strip (c ∷ rest)) ≡ c ∷ rest
  pub expiry_clean : strip expiry ≡ expiry
  pub expiry_digits : all_digits expiry ≡ true
  pub expiry_long : 6 ≤ length expiry
  pub strike_read : read_float (strip strike_raw) ≡ some strike
  pub symbol_free : IsFree b'|' (c ∷ rest)
  pub expiry_free : IsFree b'|' expiry
  pub strike_free : IsFree b'|' strike_raw
  pub right_known : mem_text (right ∷ []) (txt "C" ∷ txt "P" ∷ []) ≡ true

-- The key without its right, which stands alone at the end.
opt_key-snoc :
    (symbol expiry strike_raw : Text) (right : ℕ)
    → opt_key symbol expiry strike_raw (right ∷ [])
      ≡ (symbol ++ b'|' ∷ (txt "OPT" ++ b'|' ∷ (expiry ++ b'|' ∷ (strike_raw ++ b'|' ∷ []))))
        ++ right ∷ []
unfolding join
opt_key-snoc symbol expiry strike_raw right = simp append_assoc

opt_plain : upper (strip (txt "OPT")) ≡ txt "OPT"
unfolding upper strip
opt_plain = refl

right_cases :
    (right : ℕ)
    → mem_text (right ∷ []) (txt "C" ∷ txt "P" ∷ []) ≡ true
    → (right ≡ b'C') ⊎ (right ≡ b'P')
unfolding mem_text text_eq
right_cases right h = ground arith

right_plain :
    (right : ℕ)
    → mem_text (right ∷ []) (txt "C" ∷ txt "P" ∷ []) ≡ true
    → (is_space right ≡ false)
      × (upper (strip (right ∷ [])) ≡ right ∷ [])
      × ((right == b'|') ≡ false)
unfolding is_space upper strip
right_plain right h = elim (right_cases right h) [
  | inl e ↦ rw e (refl, refl, refl)
  | inr e ↦ rw e (refl, refl, refl)
]

text_eq_long : (s : Text) → 6 ≤ length s → text_eq s [] ≡ false
unfolding text_eq
text_eq_long [] h = absurd (omega arith)
text_eq_long (c ∷ s) h = refl

module _ (read_float : Text → Option Float) (c : ℕ) (rest expiry strike_raw : Text) (strike : Float)
    (right : ℕ) (n : IsNormal read_float c rest expiry strike_raw strike right) where
  abbrev normal_parts : List Text
  normal_parts = (c ∷ rest) ∷ txt "OPT" ∷ expiry ∷ strike_raw ∷ (right ∷ []) ∷ []

  abbrev normal_key : Text
  normal_key = opt_key (c ∷ rest) expiry strike_raw (right ∷ [])

  normal_contract :
      contract_of_parts read_float normal_parts
      ≡ some (record { symbol = c ∷ rest; expiry = expiry; strike = strike; right = right ∷ [] })
  unfolding contract_of_parts checked_contract
  normal_contract =
      rw
        (
          n.symbol_clean,
          opt_plain,
          n.expiry_clean,
          n.strike_read,
          (right_plain right n.right_known).1,
        )
        (ground (
          arith,
          n,
          text_eq_long expiry n.expiry_long,
          text_eq_refl (txt "OPT"),
          text_eq_first c rest,
        ))
    where
      text_eq_first : (d : ℕ) (s : Text) → text_eq (d ∷ s) [] ≡ false
      text_eq_first d s = unfold text_eq in refl

  normal_key-strip : strip normal_key ≡ normal_key
  unfolding join
  normal_key-strip =
      strip_fixed c _
        ((c ∷ rest) ++ b'|' ∷ (txt "OPT" ++ b'|' ∷ (expiry ++ b'|' ∷ (strike_raw ++ b'|' ∷ []))))
        right n.starts (right_plain right n.right_known).0
        (opt_key-snoc (c ∷ rest) expiry strike_raw right)

  normal_key-split : split b'|' normal_key ≡ normal_parts
  normal_key-split =
      split-join b'|' (c ∷ rest) (txt "OPT" ∷ expiry ∷ strike_raw ∷ (right ∷ []) ∷ []) (
        n.symbol_free,
        (
          (refl, (refl, (refl, tt))),
          (n.expiry_free, (n.strike_free, (((right_plain right n.right_known).2, tt), tt))),
        ),
      )

  -- A key that is put together from parts in normal form parses to these parts.
  pub parse-opt_key :
      parse_opt_contract_key read_float normal_key
      ≡ some (record { symbol = c ∷ rest; expiry = expiry; strike = strike; right = right ∷ [] })
  unfolding parse_opt_contract_key
  parse-opt_key = rw normal_key-strip (rw (key_given, normal_key-split) normal_contract)
    where
      key_given : text_eq normal_key [] ≡ false
      key_given = unfold text_eq join in refl
