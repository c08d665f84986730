-- ===== src/Live/Sessions.antt =====
-- What the account rows of a round of _market_loop are, and what the round leaves of the slots.
use bifrost_platform_plugin.Prelude.{
  ◌≡◌, refl, ap, ap₂, ◌∙◌, false, List, [], ◌∷◌, ◌++◌, Option, none, some, map, Bool-cases, inl,
  inr, arith,
}
use bifrost_platform_plugin.Text.{Text, txt, strip, text_eq, mem_text, get}
use bifrost_platform_plugin.Text.Laws.{IsDistinct, IsDistinct-snoc, mem_text-append, text_eq_sym}
use bifrost_platform_plugin.Json.{Json, null, or_json, string, Dict, get_json, Python}
use bifrost_platform_plugin.Writer.Laws.{get-put}
use bifrost_platform_plugin.Connection.{Tws, TwsSlotConfig, SlotConnection}
use bifrost_platform_plugin.Ib.{Ib}
use bifrost_platform_plugin.Live.Accounts.{
  WithinRows, Gathered, account_of, with_slot, add_row, add_rows, Verdict, passed_over, ghost,
  answered, broken, gathered_after, Tour, onwards, visit, gather,
}

-- The rows show the accounts that were seen, in this order, and each once.
pub record IsGathered (py : Python) (g : Gathered) : Type 0 where
  pub shown : map (account_of py) g.1 ≡ g.0
  pub distinct : IsDistinct g.0
  pub given : mem_text [] g.0 ≡ false

map-snoc :
    {A B : Type 0} (f : A → B) (xs : List A) (a : A) → map f (xs ++ a ∷ []) ≡ map f xs ++ f a ∷ []
map-snoc f [] a = refl
map-snoc f (x ∷ xs) a = ap (λ l. f x ∷ l) (map-snoc f xs a)

slot_apart : text_eq (txt "account_id") (txt "slot") ≡ false
unfolding text_eq
slot_apart = refl

get-with_slot :
    (slot : Text) (row : Dict)
    → get (txt "account_id") (with_slot slot row) ≡ get (txt "account_id") row
unfolding with_slot
get-with_slot slot row =
    get-put (txt "account_id") (txt "slot") (string slot) row ∙ rw slot_apart refl

account_of-with_slot :
    (py : Python) (slot : Text) (row : Dict)
    → account_of py (with_slot slot row) ≡ account_of py row
unfolding account_of get_json
account_of-with_slot py slot row = ap (λ o. read o) (get-with_slot slot row)
  where
    read : Option Json → Text
    read o = strip (py.str_of (or_json (elim o [ none ↦ null | some v ↦ v ]) (string [])))

mem_text-snoc :
    (a b : Text) (xs : List Text)
    → mem_text a xs ≡ false
    → text_eq a b ≡ false
    → mem_text a (xs ++ b ∷ []) ≡ false
unfolding mem_text
mem_text-snoc a b xs h k = ground (arith, mem_text-append a xs (b ∷ []))

add_row-IsGathered :
    (py : Python) (slot : Text) (row : Dict) (g : Gathered)
    → IsGathered py g
    → IsGathered py (add_row py slot row g)
unfolding add_row
add_row-IsGathered py slot row (seen, rows) h = elim (Bool-cases (text_eq (account_of py row) [])) [
  | inl blank ↦ rw blank h
  | inr given ↦ elim (Bool-cases (mem_text (account_of py row) seen)) [
    | inl old ↦ rw (given, old) h
    | inr new ↦
        rw (given, new)
          (record {
            shown =
                map-snoc (account_of py) rows (with_slot slot row)
                ∙ ap₂ (λ a b. a ++ b ∷ []) h.shown (account_of-with_slot py slot row);
            distinct = IsDistinct-snoc seen (account_of py row) h.distinct new;
            given =
                mem_text-snoc [] (account_of py row) seen h.given
                  (text_eq_sym [] (account_of py row) ∙ given);
          })
  ]
]

add_rows-IsGathered :
    (py : Python) (slot : Text) (rows : List Dict) (g : Gathered)
    → IsGathered py g
    → IsGathered py (add_rows py slot rows g)
unfolding add_rows
add_rows-IsGathered py slot [] g h = h
add_rows-IsGathered py slot (row ∷ rows) g h =
    add_rows-IsGathered py slot rows (add_row py slot row g) (add_row-IsGathered py slot row g h)

gathered_after-IsGathered :
    (py : Python) (slot : Text) (v : Verdict) (g : Gathered)
    → IsGathered py g
    → IsGathered py (gathered_after py slot v g)
unfolding gathered_after
gathered_after-IsGathered py slot passed_over g h = h
gathered_after-IsGathered py slot ghost g h = h
gathered_after-IsGathered py slot (answered rows) g h = add_rows-IsGathered py slot rows g h
gathered_after-IsGathered py slot (broken e) g h = h

onwards-IsGathered :
    {W : Type 0} (py : Python) (v : Verdict) (cfg : TwsSlotConfig) (sc : SlotConnection)
    (slots : List (TwsSlotConfig × SlotConnection)) (g : Gathered) (w : W) (more : Tour × W)
    → IsGathered py g
    → IsGathered py more.0.gathered
    → IsGathered py (onwards v cfg sc slots g w more).0.gathered
unfolding onwards
onwards-IsGathered py passed_over cfg sc slots g w more h k = k
onwards-IsGathered py ghost cfg sc slots g w more h k = k
onwards-IsGathered py (answered rows) cfg sc slots g w more h k = k
onwards-IsGathered py (broken e) cfg sc slots g w more h k = h

module _ {W : Type 0} (tws : Tws W) (py : Python) (api : Ib W) (within_rows : WithinRows W) where
  from-IsGathered :
      (slots : List (TwsSlotConfig × SlotConnection)) (g : Gathered) (w : W)
      → IsGathered py g
      → IsGathered py (gather tws py api within_rows slots g w).0.gathered
  unfolding gather
  from-IsGathered [] g w h = h
  from-IsGathered ((cfg, sc) ∷ slots) g w h =
      let v = visit tws py api within_rows cfg (record { conn = sc; world = w }) in
      let g' = gathered_after-IsGathered py cfg.slot v.0 g h in
      onwards-IsGathered py v.0 cfg v.1.conn slots _ v.1.world _ g'
        (from-IsGathered slots _ v.1.world g')

  -- The rows of a round's snapshot name each account once and none without a name, whatever the
  -- slots answer and however many of them manage the same account, also where an exception ends
  -- the loop early.
  pub gather-IsGathered :
      (slots : List (TwsSlotConfig × SlotConnection)) (w : W)
      → IsGathered py (gather tws py api within_rows slots ([], []) w).0.gathered
  unfolding mem_text
  gather-IsGathered slots w =
      from-IsGathered slots ([], []) w (record { shown = refl; distinct = tt; given = refl })
