-- ===== src/IbOps/Fields.antt =====
-- Which fields a fill carries.
use mathlib.Core.Path.{subst}
use bifrost_platform_plugin.Text.Laws.{text_eq→eq}
use bifrost_platform_plugin.Prelude.{
  All, ◌≡◌, refl, sym, ◌∙◌, inl, inr, Bool, true, false, List, [], ◌∷◌, Option, none, some,
  Bool-cases, arith,
}
use bifrost_platform_plugin.Text.{Text, txt, strip, text_eq, mem_text, get}
use bifrost_platform_plugin.Float.{Float}
use bifrost_platform_plugin.Json.{Json, number, string, Dict, truthy}
use bifrost_platform_plugin.Writer.Laws.{get-put}
use bifrost_platform_plugin.Ib.{Contract, Execution}
use bifrost_platform_plugin.IbOps.{
  put_if, put_float, is_option_type, is_given_text, right_letter, contract_fields, execution_fields,
  option_fields, option_part, execution_contract_fields,
}

-- A field that is written under a test.
abbrev pub given : Bool → Json → Option Json
given true v = some v
given false v = none

get-put_if :
    (k j : Text) (b : Bool) (v : Json) (d : Dict)
    → text_eq k j ≡ false
    → get k (put_if b j v d) ≡ get k d
unfolding put_if
get-put_if k j true v d e = get-put k j v d ∙ rw e refl
get-put_if k j false v d e = refl

get-put_here :
    (k : Text) (b : Bool) (v : Json) (d : Dict)
    → text_eq k k ≡ true
    → get k d ≡ none
    → get k (put_if b k v d) ≡ given b v
unfolding put_if
get-put_here k true v d e n = get-put k k v d ∙ rw e refl
get-put_here k false v d e n = n

get-put_float :
    (k j : Text) (x : Option Float) (d : Dict)
    → text_eq k j ≡ false
    → get k (put_float x j d) ≡ get k d
unfolding put_float
get-put_float k j none d e = refl
get-put_float k j (some x) d e = get-put k j (number x) d ∙ rw e refl

-- The keys that only an option's fill may carry.
abbrev pub option_keys : List Text
option_keys = txt "expiry" ∷ txt "strike" ∷ txt "option_right" ∷ txt "multiplier" ∷ []

-- A key that is none of the four of the fill's own.
abbrev pub IsOther : Text → Type 0
IsOther k =
    (text_eq k (txt "conid") ≡ false)
    × (text_eq k (txt "currency") ≡ false)
    × (text_eq k (txt "exchange") ≡ false)
    × (text_eq k (txt "cum_qty") ≡ false)

base_absent :
    (k : Text) (contract : Option Contract) (ex : Option Execution)
    → IsOther k
    → get k (execution_fields ex (contract_fields contract [])) ≡ none
unfolding execution_fields contract_fields get
base_absent k contract ex (a, b, c, d) = go ex ∙ own contract
  where
    own : (o : Option Contract) → get k (contract_fields o []) ≡ none
    own none = refl
    own (some x) = get-put_if k (txt "currency") _ _ _ b ∙ get-put_if k (txt "conid") _ _ _ a

    go :
        (o : Option Execution)
        → get k (execution_fields o (contract_fields contract []))
          ≡ get k (contract_fields contract [])
    go none = refl
    go (some x) = get-put_if k (txt "cum_qty") _ _ _ d ∙ get-put_if k (txt "exchange") _ _ _ c

expiry_IsOther : IsOther (txt "expiry")
unfolding text_eq
expiry_IsOther = (refl, refl, refl, refl)

strike_IsOther : IsOther (txt "strike")
unfolding text_eq
strike_IsOther = (refl, refl, refl, refl)

right_IsOther : IsOther (txt "option_right")
unfolding text_eq
right_IsOther = (refl, refl, refl, refl)

multiplier_IsOther : IsOther (txt "multiplier")
unfolding text_eq
multiplier_IsOther = (refl, refl, refl, refl)

IsOther-mem_text : (k : Text) (xs : List Text) → All IsOther xs → mem_text k xs ≡ true → IsOther k
unfolding mem_text
IsOther-mem_text k [] h m = cc
IsOther-mem_text k (x ∷ xs) h m = elim (Bool-cases (text_eq k x)) [
  | inl e ↦ subst IsOther (sym (text_eq→eq k x e)) h.0
  | inr e ↦ IsOther-mem_text k xs h.1 (rw e at m)
]

option_key_IsOther : (k : Text) → mem_text k option_keys ≡ true → IsOther k
option_key_IsOther k h =
    IsOther-mem_text k option_keys
      (expiry_IsOther, (strike_IsOther, (right_IsOther, (multiplier_IsOther, tt)))) h

option_part_absent :
    (read_float : Text → Option Float) (k : Text) (contract : Option Contract) (d : Dict)
    → mem_text k option_keys ≡ false
    → get k (option_part read_float contract d) ≡ get k d
unfolding option_part option_fields mem_text
option_part_absent read_float k none d h = refl
option_part_absent read_float k (some c) d h = elim (Bool-cases (is_option_type c.sec_type)) [
  | inl option ↦ rw option (
      get-put_float k (txt "multiplier") _ _ (ground arith)
      ∙ get-put_if k (txt "option_right") _ _ _ (ground arith)
      ∙ get-put_if k (txt "strike") _ _ _ (ground arith)
      ∙ get-put_if k (txt "expiry") _ _ _ (ground arith))
  | inr other ↦ rw other
]

-- A key that the function never writes.
pub get-execution_contract_fields :
    (read_float : Text → Option Float) (k : Text) (contract : Option Contract)
    (ex : Option Execution)
    → IsOther k
    → mem_text k option_keys ≡ false
    → get k (execution_contract_fields read_float contract ex) ≡ none
unfolding execution_contract_fields
get-execution_contract_fields read_float k contract ex h m =
    option_part_absent read_float k contract _ m ∙ base_absent k contract ex h

-- A fill of a contract that is no option carries none of the fields of an option.
pub non_option_fields :
    (read_float : Text → Option Float) (c : Contract) (ex : Option Execution) (k : Text)
    → is_option_type c.sec_type ≡ false
    → mem_text k option_keys ≡ true
    → get k (execution_contract_fields read_float (some c) ex) ≡ none
unfolding execution_contract_fields option_part
non_option_fields read_float c ex k stock key =
    rw stock (base_absent k (some c) ex (option_key_IsOther k key))

-- A fill of an option carries the expiry where it is not blank, the strike where it is not zero,
-- and the right where its first letter is C or P; otherwise these keys are left out.
pub option_fields_exact :
    (read_float : Text → Option Float) (c : Contract) (ex : Option Execution)
    → is_option_type c.sec_type ≡ true
    → let fields = execution_contract_fields read_float (some c) ex in
      (get (txt "expiry") fields ≡ given (is_given_text (strip c.expiry)) (string (strip c.expiry)))
      × (get (txt "strike") fields ≡ given (truthy (number c.strike)) (number c.strike))
      × (get (txt "option_right") fields
          ≡ given (mem_text (right_letter c) (txt "C" ∷ txt "P" ∷ [])) (string (right_letter c)))
unfolding execution_contract_fields option_part option_fields text_eq
option_fields_exact read_float c ex option = rw option (
  get-put_float (txt "expiry") (txt "multiplier") _ _ refl
      ∙ get-put_if (txt "expiry") (txt "option_right") _ _ _ refl
      ∙ get-put_if (txt "expiry") (txt "strike") _ _ _ refl
      ∙ get-put_here (txt "expiry") _ _ _ refl
          (base_absent (txt "expiry") (some c) ex expiry_IsOther),
  get-put_float (txt "strike") (txt "multiplier") _ _ refl
      ∙ get-put_if (txt "strike") (txt "option_right") _ _ _ refl
      ∙ get-put_here (txt "strike") _ _ _ refl (
          get-put_if (txt "strike") (txt "expiry") _ _ _ refl
          ∙ base_absent (txt "strike") (some c) ex strike_IsOther),
  get-put_float (txt "option_right") (txt "multiplier") _ _ refl
      ∙ get-put_here (txt "option_right") _ _ _ refl (
          get-put_if (txt "option_right") (txt "strike") _ _ _ refl
          ∙ get-put_if (txt "option_right") (txt "expiry") _ _ _ refl
          ∙ base_absent (txt "option_right") (some c) ex right_IsOther),
)
