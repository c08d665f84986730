-- ===== src/OnDemand/Desired.antt =====
-- The merge of the watchlist and the on-demand symbols under the cap.
use bifrost_platform_plugin.Prelude.{
  ℕ, suc, ◌-◌, ◌≤◌, ◌≡◌, ap, sym, refl, Bool, true, false, ◌∙◌, ◌||◌, List, [], ◌∷◌, ◌++◌, arith,
  Bool-cases, inl, inr, if◌then◌else◌, max, leb, leb→le, take-nil, ltb, length, take, length-append,
  length-take, append-nil, append_assoc,
}
use bifrost_platform_plugin.Text.{Text, strip, upper, text_eq, mem_text}
use bifrost_platform_plugin.Text.Laws.{IsDistinct, IsDistinct-snoc}
use bifrost_platform_plugin.OnDemand.{
  clean_symbol, add_watchlist, clean_watchlist, add_on_demand, build_desired_stk_symbols,
}

-- The on-demand symbols that the list does not hold, each once, in order.
abbrev pub new_symbols : List Text → List Text → List Text
new_symbols desired [] = []
new_symbols desired (raw ∷ on_demand) =
    let skip = new_symbols desired on_demand in
    let take_it = clean_symbol raw ∷ new_symbols (desired ++ clean_symbol raw ∷ []) on_demand in
    if text_eq (clean_symbol raw) [] || mem_text (clean_symbol raw) desired then skip else take_it

-- The symbols of the watchlist that are not blank, each once, in order.
abbrev pub watched : List Text → List Text
watched watchlist = new_symbols [] watchlist

upper_blank : (t : Text) → text_eq (upper t) [] ≡ text_eq t []
unfolding upper text_eq
upper_blank [] = refl
upper_blank (c ∷ t) = refl

clean_watchlist-blank :
    (raw : Text) (watchlist : List Text)
    → text_eq (strip raw) [] ≡ true
    → clean_watchlist (raw ∷ watchlist) ≡ clean_watchlist watchlist
unfolding clean_watchlist
clean_watchlist-blank raw watchlist blank = rw blank refl

clean_watchlist-given :
    (raw : Text) (watchlist : List Text)
    → text_eq (strip raw) [] ≡ false
    → clean_watchlist (raw ∷ watchlist) ≡ clean_symbol raw ∷ clean_watchlist watchlist
unfolding clean_watchlist
clean_watchlist-given raw watchlist given = rw given refl

add_watchlist-next :
    (b : Bool) (desired watchlist : List Text) (s : Text)
    → mem_text s desired ≡ b
    → add_watchlist desired (s ∷ watchlist)
      ≡ add_watchlist (if b then desired else desired ++ s ∷ []) watchlist
unfolding add_watchlist
add_watchlist-next b desired watchlist s is = rw is refl

pub add_watchlist_lem :
    (desired watchlist : List Text)
    → add_watchlist desired (clean_watchlist watchlist) ≡ desired ++ new_symbols desired watchlist
add_watchlist_lem desired [] = unfold add_watchlist clean_watchlist in sym (append-nil desired)
add_watchlist_lem desired (raw ∷ watchlist) =
    let s = clean_symbol raw in
    let same : text_eq s [] ≡ text_eq (strip raw) [] =
      unfold clean_symbol in upper_blank (strip raw) in
    elim (Bool-cases (text_eq (strip raw) [])) [
      | inl blank ↦
          rw (same, blank)
            (ap (add_watchlist desired) (clean_watchlist-blank raw watchlist blank)
              ∙ add_watchlist_lem desired watchlist)
      | inr given ↦
          let next = ap (add_watchlist desired) (clean_watchlist-given raw watchlist given) in
          elim (Bool-cases (mem_text s desired)) [
            | inl old ↦
                rw (same, given, old)
                  (next
                    ∙ add_watchlist-next true desired (clean_watchlist watchlist) s old
                    ∙ add_watchlist_lem desired watchlist)
            | inr new ↦
                rw (same, given, new)
                  (next
                    ∙ add_watchlist-next false desired (clean_watchlist watchlist) s new
                    ∙ add_watchlist_lem (desired ++ s ∷ []) watchlist
                    ∙ append_assoc desired (s ∷ []) _)
          ]
    ]

add_on_demand_lem :
    (cap : ℕ) (desired on_demand : List Text)
    → (add_on_demand cap desired on_demand).0
        ≡ desired ++ take (cap - length desired) (new_symbols desired on_demand)
      × ((add_on_demand cap desired on_demand).1
          ≡ ltb (cap - length desired) (length (new_symbols desired on_demand)))
unfolding add_on_demand
add_on_demand_lem cap desired [] = (
  sym (ap (λ t. desired ++ t) (take-nil (cap - length desired)) ∙ append-nil desired),
  ground arith,
)
add_on_demand_lem cap desired (raw ∷ on_demand) =
    elim (Bool-cases (text_eq (clean_symbol raw) [] || mem_text (clean_symbol raw) desired)) [
      | inl skip ↦ rw skip (add_on_demand_lem cap desired on_demand)
      | inr new ↦ elim (Bool-cases (leb cap (length desired))) [
        | inl full ↦
            let z : cap - length desired ≡ 0 = omega (arith, leb→le cap (length desired) full) in
            rw (new, full, z) (sym (append-nil desired), ground arith)
        | inr room ↦
            let z : cap - length desired ≡ suc (cap - length (desired ++ clean_symbol raw ∷ [])) =
              ground (arith, length-append desired (clean_symbol raw ∷ [])) in
            let (p, q) = add_on_demand_lem cap (desired ++ clean_symbol raw ∷ []) on_demand in
            rw (new, room, z) (p ∙ append_assoc desired (clean_symbol raw ∷ []) _, q ∙ ground arith)
      ]
    ]

add_watchlist-IsDistinct :
    (desired wl : List Text) → IsDistinct desired → IsDistinct (add_watchlist desired wl)
unfolding add_watchlist
add_watchlist-IsDistinct desired [] d = d
add_watchlist-IsDistinct desired (s ∷ wl) d = elim (Bool-cases (mem_text s desired)) [
  | inl old ↦ rw old (add_watchlist-IsDistinct desired wl d)
  | inr new ↦
      rw new (add_watchlist-IsDistinct (desired ++ s ∷ []) wl (IsDistinct-snoc desired s d new))
]

add_on_demand-IsDistinct :
    (cap : ℕ) (desired on_demand : List Text)
    → IsDistinct desired
    → IsDistinct (add_on_demand cap desired on_demand).0
unfolding add_on_demand
add_on_demand-IsDistinct cap desired [] d = d
add_on_demand-IsDistinct cap desired (raw ∷ on_demand) d =
    elim (Bool-cases (text_eq (clean_symbol raw) [] || mem_text (clean_symbol raw) desired)) [
      | inl skip ↦ rw skip (add_on_demand-IsDistinct cap desired on_demand d)
      | inr new ↦ elim (Bool-cases (leb cap (length desired))) [
        | inl full ↦ rw (new, full) d
        | inr room ↦
            rw (new, room)
              (add_on_demand-IsDistinct cap (desired ++ clean_symbol raw ∷ []) on_demand
                (IsDistinct-snoc desired (clean_symbol raw) d (ground arith)))
      ]
    ]

-- No symbol stands twice among the desired ones, whatever the two lists repeat.
build_desired-IsDistinct :
    (watchlist on_demand : List Text) (max_stream_stk : ℕ)
    → IsDistinct (build_desired_stk_symbols watchlist on_demand max_stream_stk).0
unfolding build_desired_stk_symbols
build_desired-IsDistinct watchlist on_demand max_stream_stk =
    add_on_demand-IsDistinct (max 1 max_stream_stk) (add_watchlist [] (clean_watchlist watchlist))
      on_demand (add_watchlist-IsDistinct [] (clean_watchlist watchlist) tt)

-- The merge is the whole watchlist in normal form, without blanks and each symbol once, and then as
-- many of the other on-demand symbols as the cap leaves room for, both in the order in which they
-- come; no symbol stands twice in it; and the flag tells exactly whether an on-demand symbol was
-- left out.
pub build_desired_lem :
    (watchlist on_demand : List Text) (max_stream_stk : ℕ)
    → let own = watched watchlist in
      let room = max 1 max_stream_stk - length own in
      (build_desired_stk_symbols watchlist on_demand max_stream_stk).0
        ≡ own ++ take room (new_symbols own on_demand)
      × ((build_desired_stk_symbols watchlist on_demand max_stream_stk).1
          ≡ ltb room (length (new_symbols own on_demand)))
      × IsDistinct (build_desired_stk_symbols watchlist on_demand max_stream_stk).0
unfolding build_desired_stk_symbols
build_desired_lem watchlist on_demand max_stream_stk =
    let (merged, told) = add_on_demand_lem (max 1 max_stream_stk) (watched watchlist) on_demand in
    (
      rw (add_watchlist_lem [] watchlist) merged,
      rw (add_watchlist_lem [] watchlist) told,
      build_desired-IsDistinct watchlist on_demand max_stream_stk,
    )

-- The number of desired symbols is at most the cap (at least 1) or the watchlist's own number,
-- whichever is more; and a watchlist longer than the cap is kept whole, beyond the cap.
build_desired_bounds :
    (watchlist on_demand : List Text) (max_stream_stk : ℕ)
    → let n = length (build_desired_stk_symbols watchlist on_demand max_stream_stk).0 in
      (n ≤ max (max 1 max_stream_stk) (length (watched watchlist)))
      × (length (watched watchlist) ≤ n)
build_desired_bounds watchlist on_demand max_stream_stk =
    let own = watched watchlist in
    let room = max 1 max_stream_stk - length own in
    let extra = take room (new_symbols own on_demand) in
    rw ((build_desired_lem watchlist on_demand max_stream_stk).0)
      (omega (arith, length-append own extra, length-take room (new_symbols own on_demand)))
