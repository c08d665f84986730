-- ===== src/IbOps/Selection.antt =====
-- Which strikes fetch_option_snapshot quotes.
use mathlib.Core.Path.{subst}
use bifrost_platform_plugin.Prelude.{
  ℕ, zero, suc, min, ◌≡◌, refl, ap, ap₂, sym, ◌∙◌, inl, inr, Bool, true, false, not, ◌||◌, List, [],
  ◌∷◌, Option, none, some, arith, Bool-cases, if◌then◌else◌, length, take, take-nil, map, ℤ,
}
use bifrost_platform_plugin.Text.{Text, txt, strip, upper, text_eq, mem_text, get}
use bifrost_platform_plugin.Float.{Float, ltb_f, zero_f}
use bifrost_platform_plugin.Effects.{
  Exn, Outcome, returned, raised, Io, pure, is_cancelled, continue_with, ◌>>=◌,
}
use bifrost_platform_plugin.Json.{Json, number, string, Dict}
use bifrost_platform_plugin.Ib.{Instrument, stock, Ib}
use bifrost_platform_plugin.IbOps.Quotes.{
  Quote, no_quote, look, has_value, or_none, watch_quote, read_stream, quote_contract,
  option_instrument, fetch_option_quote_one_shot, positive, price_or, watch_price, price_of,
  fetch_underlying_price,
}
use bifrost_platform_plugin.IbOps.Snapshot.{
  filter_f, at_least_five, price_filter, sort_by, half_of, select_strikes, selected_strikes,
  quote_row, quote_side, quote_strikes, price_if, fetch_option_snapshot,
}

-- `m` is not cancelled, whatever else it raises.
abbrev pub Uncancelled : {W A : Type 0} → Io W A → Type 0
Uncancelled m = (w : _) (e : Exn) → (m w).0 ≡ raised e → is_cancelled e ≡ false

-- No deadline cancels the task at its awaits.
pub record RunsOn {W : Type 0} (api : Ib W) : Type 0 where
  pub qualifies : (ib : ℕ) (c : Instrument) → Uncancelled (api.qualify ib c)
  pub opens : (ib : ℕ) (c : Instrument) → Uncancelled (api.open_stream ib c)
  pub closes : (ib : ℕ) (c : Instrument) → Uncancelled (api.close_stream ib c)
  pub views : (ticker : ℕ) → Uncancelled (api.view ticker)

module _ {W : Type 0} where
  Uncancelled-pure : {A : Type 0} (a : A) → Uncancelled {W = W} {A = A} (pure a)
  Uncancelled-pure a w e h = cc

  continue-Uncancelled :
      {A B : Type 0} (f : A → Io W B) (r : Outcome A) (v : W) (e : Exn)
      → ((d : Exn) → r ≡ raised d → is_cancelled d ≡ false)
      → ((a : A) → Uncancelled (f a))
      → (continue_with f r v).0 ≡ raised e
      → is_cancelled e ≡ false
  continue-Uncancelled f (returned a) v e hr hf h = hf a v e h
  continue-Uncancelled f (raised d) v e hr hf h =
      let same : d ≡ e = cc in subst (λ x. is_cancelled x ≡ false) same (hr d refl)

  Uncancelled-bind :
      {A B : Type 0} (m : Io W A) (f : A → Io W B)
      → Uncancelled m
      → ((a : A) → Uncancelled (f a))
      → Uncancelled (m >>= f)
  Uncancelled-bind m f hm hf w e h = continue-Uncancelled f (m w).0 (m w).1 e (hm w) hf h

  Uncancelled-if :
      {A : Type 0} (b : Bool) (m n : Io W A)
      → Uncancelled m
      → Uncancelled n
      → Uncancelled (if b then m else n)
  Uncancelled-if true m n hm hn = hm
  Uncancelled-if false m n hm hn = hn

  -- Whatever is raised and not cancelled becomes None.
  or_none_returns :
      {A : Type 0} (r : Outcome (Option A)) (v : W)
      → ((e : Exn) → r ≡ raised e → is_cancelled e ≡ false)
      → (q : Option A) × ((or_none r v).0 ≡ returned q)
  unfolding or_none
  or_none_returns (returned q) v h = (q, refl)
  or_none_returns (raised e) v h = (none, rw (h e refl) refl)

  Uncancelled-of_returns :
      {A : Type 0} (m : Io W A) → ((w : W) → (a : A) × ((m w).0 ≡ returned a)) → Uncancelled m
  Uncancelled-of_returns m h w e r = let (a, k) = h w in cc

module _ {W : Type 0} (api : Ib W) (runs : RunsOn api) where
  watch_quote-Uncancelled :
      (rounds ticker : ℕ) (q : Quote) → Uncancelled (watch_quote api rounds ticker q)
  unfolding watch_quote
  watch_quote-Uncancelled zero ticker q = λ w e h. cc
  watch_quote-Uncancelled (suc rounds) ticker q =
      Uncancelled-bind (api.view ticker) _ (runs.views ticker) (λ v.
        Uncancelled-if (has_value (look v q)) (pure (some (look v q)))
          (watch_quote api rounds ticker (look v q)) (λ w e h. cc)
          (watch_quote-Uncancelled rounds ticker (look v q)))

  read_stream-Uncancelled : (ib : ℕ) (c : Instrument) → Uncancelled (read_stream api ib c)
  unfolding read_stream
  read_stream-Uncancelled ib c =
      Uncancelled-bind (api.open_stream ib c) _ (runs.opens ib c) (λ ticker w e h.
        let q = watch_quote api 4 ticker no_quote w in
        let (o, k) =
          or_none_returns q.0 (api.close_stream ib c q.1).1
            (watch_quote-Uncancelled 4 ticker no_quote w) in
        cc)

  one_shot_returns :
      (ib : ℕ) (symbol expiry : Text) (strike : Float) (right : Text) (w : W)
      → (q : Option Quote) × ((fetch_option_quote_one_shot api ib symbol expiry strike right w).0
          ≡ returned q)
  unfolding fetch_option_quote_one_shot quote_contract
  one_shot_returns ib symbol expiry strike right w =
      elim (Bool-cases (
        text_eq symbol []
        || text_eq (strip expiry) []
        || not (mem_text (upper right) (txt "C" ∷ txt "P" ∷ [])))) [
          | inl bad ↦ (none, rw bad refl)
          | inr good ↦
              let c = option_instrument symbol expiry strike right in
              let body = api.qualify ib c >>= λ con_id. read_stream api ib c in
              let (q, k) = or_none_returns (body w).0 (body w).1 (
                Uncancelled-bind (api.qualify ib c) _ (runs.qualifies ib c)
                  (λ con_id. read_stream-Uncancelled ib c) w) in
              (q, rw good k)
        ]

  price_or-Uncancelled :
      (o : Option Float) (ib : ℕ) (c : Instrument) (more : Io W (Option Float))
      → Uncancelled more
      → Uncancelled (price_or api o ib c more)
  unfolding price_or
  price_or-Uncancelled none ib c more h = h
  price_or-Uncancelled (some v) ib c more h =
      Uncancelled-bind (api.close_stream ib c) _ (runs.closes ib c) (λ u. Uncancelled-pure (some v))

  watch_price-Uncancelled :
      (rounds ib : ℕ) (c : Instrument) (ticker : ℕ)
      → Uncancelled (watch_price api rounds ib c ticker)
  unfolding watch_price
  watch_price-Uncancelled zero ib c ticker =
      Uncancelled-bind (api.close_stream ib c) _ (runs.closes ib c) (λ u. Uncancelled-pure none)
  watch_price-Uncancelled (suc rounds) ib c ticker =
      Uncancelled-bind (api.view ticker) _ (runs.views ticker) (λ v.
        price_or-Uncancelled (positive v.last) ib c (watch_price api rounds ib c ticker)
          (watch_price-Uncancelled rounds ib c ticker))

  underlying_price_returns :
      (ib : ℕ) (symbol : Text) (w : W)
      → (p : Option Float) × ((fetch_underlying_price api ib symbol w).0 ≡ returned p)
  unfolding fetch_underlying_price price_of
  underlying_price_returns ib symbol w = elim (Bool-cases (text_eq (upper (strip symbol)) [])) [
    | inl blank ↦ (none, rw blank refl)
    | inr given ↦
        let c = stock (upper (strip symbol)) in
        let body = api.qualify ib c >>= λ con_id.
        api.open_stream ib c >>= λ ticker. watch_price api 6 ib c ticker in
        let (p, k) = or_none_returns (body w).0 (body w).1 (
          Uncancelled-bind (api.qualify ib c) _ (runs.qualifies ib c)
            (λ con_id.
              Uncancelled-bind (api.open_stream ib c) _ (runs.opens ib c)
                (λ ticker. watch_price-Uncancelled 6 ib c ticker))
            w) in
        (p, rw given k)
  ]

-- The strikes that are at least 5.0, as many as half the number of contracts allows.
abbrev pub requested : ℤ → List Float → List Float
requested max_contracts strikes = take (half_of max_contracts) (filter_f at_least_five strikes)

-- A call and a put for each strike, as the rows show them.
abbrev pub both_sides : List Float → List (Option Json × Option Json)
both_sides [] = []
both_sides (s ∷ strikes) =
    (some (number s), some (string (txt "C")))
    ∷ (some (number s), some (string (txt "P")))
    ∷ both_sides strikes

abbrev pub sides_of : List Dict → List (Option Json × Option Json)
sides_of rows = map (λ r. (get (txt "strike") r, get (txt "right") r)) rows

take-min-length : (n : ℕ) (xs : List Float) → take (min n (length xs)) xs ≡ take n xs
take-min-length zero xs = let e : min 0 (length xs) ≡ 0 = omega arith in rw e refl
take-min-length (suc n) [] = take-nil (min (suc n) 0)
take-min-length (suc n) (x ∷ xs) =
    let e : min (suc n) (suc (length xs)) ≡ suc (min n (length xs)) = omega arith in
    rw e (ap (λ l. x ∷ l) (take-min-length n xs))

-- Without strikes nothing is selected, whatever the price is.
selected-nil :
    (price : Option Float) (max_contracts : ℤ) → selected_strikes price max_contracts [] ≡ []
unfolding selected_strikes select_strikes price_filter filter_f sort_by
selected-nil none max_contracts = take-nil _
selected-nil (some p) max_contracts = elim (Bool-cases (ltb_f zero_f p)) [
  | inl up ↦ rw up (take-nil _)
  | inr down ↦ rw down (take-nil _)
]

quote_row_sides :
    (s : Float) (right : Text) (q : Option Quote)
    → ◌≡◌ {A = Option Json × Option Json}
        (get (txt "strike") (quote_row s right q), get (txt "right") (quote_row s right q))
        (some (number s), some (string right))
unfolding quote_row get text_eq
quote_row_sides s right q = refl

module _ {W : Type 0} (api : Ib W) (sleep : Float → W → W) (runs : RunsOn api) where
  quote_side_lem :
      (ib : ℕ) (symbol expiration : Text) (pacing_sec s : Float) (right : Text) (w : W)
      → (q : Option Quote) × (w' : W) × (quote_side api sleep ib symbol expiration pacing_sec s
            right w
          ≡ (returned (quote_row s right q), w'))
  unfolding quote_side
  quote_side_lem ib symbol expiration pacing_sec s right w =
      let (q, k) = one_shot_returns api runs ib symbol expiration s right w in
      (
        q,
        sleep pacing_sec (fetch_option_quote_one_shot api ib symbol expiration s right w).1,
        rw k refl,
      )

  quote_strikes_lem :
      (ib : ℕ) (symbol expiration : Text) (pacing_sec : Float) (strikes : List Float) (w : W)
      → (rows : List Dict) × ((quote_strikes api sleep ib symbol expiration pacing_sec strikes w).0
          ≡ returned rows)
        × (sides_of rows ≡ both_sides strikes)
  unfolding quote_strikes
  quote_strikes_lem ib symbol expiration pacing_sec [] w = ([], refl, refl)
  quote_strikes_lem ib symbol expiration pacing_sec (s ∷ strikes) w =
      let (q, w1, k) = quote_side_lem ib symbol expiration pacing_sec s (txt "C") w in
      let (r, w2, l) = quote_side_lem ib symbol expiration pacing_sec s (txt "P") w1 in
      let (rows, m, e) = quote_strikes_lem ib symbol expiration pacing_sec strikes w2 in
      (
        quote_row s (txt "C") q ∷ quote_row s (txt "P") r ∷ rows,
        rw (k, l, m) refl,
        ap₂ (λ a t. a ∷ t) (quote_row_sides s (txt "C") q)
            (ap₂ (λ a t. a ∷ t) (quote_row_sides s (txt "P") r) e),
      )

  price_if_lem :
      (ib : ℕ) (symbol : Text) (strikes : List Float) (max_contracts : ℤ) (w : W)
      → (price : Option Float) × ((price_if api sleep ib symbol strikes w).0 ≡ returned price)
        × (selected_strikes price max_contracts strikes ≡ requested max_contracts strikes)
  unfolding price_if
  price_if_lem ib symbol [] max_contracts w =
      let (p, k) = underlying_price_returns api runs ib symbol w in
      (p, k, selected-nil p max_contracts ∙ unfold filter_f in sym (take-nil _))
  price_if_lem ib symbol (s ∷ strikes) max_contracts w = (
    none,
    refl,
    unfold selected_strikes select_strikes price_filter in
        take-min-length (half_of max_contracts) (filter_f at_least_five (s ∷ strikes)),
  )

  -- Where no deadline cancels the task, the snapshot returns, whatever else fails: its rows are a
  -- call and a put for each of the requested strikes that are at least 5.0, in the order of the
  -- request, as many as half the number of contracts allows. The price of the underlying has no
  -- part in the selection.
  pub fetch_option_snapshot_rows :
      (ib : ℕ) (symbol expiration : Text) (strikes : List Float) (max_contracts : ℤ)
      (pacing_sec : Float) (w : W)
      → (rows : List Dict) × (price : Option Float) × ((fetch_option_snapshot api sleep ib symbol
            expiration strikes max_contracts pacing_sec w).0
          ≡ returned (rows, price))
        × (sides_of rows ≡ both_sides (requested max_contracts strikes))
  unfolding fetch_option_snapshot
  fetch_option_snapshot_rows ib symbol expiration strikes max_contracts pacing_sec w =
      let (price, k, e) = price_if_lem ib symbol strikes max_contracts w in
      let v = (price_if api sleep ib symbol strikes w).1 in
      let (rows, m, s) =
        quote_strikes_lem ib symbol expiration pacing_sec (requested max_contracts strikes) v in
      (rows, price, rw (k, e, m) refl, s)
