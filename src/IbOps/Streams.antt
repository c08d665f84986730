-- ===== src/IbOps/Streams.antt =====
-- The streams of market data that a quote opens and closes.
use bifrost_platform_plugin.Prelude.{
  ℕ, zero, suc, ◌≡◌, refl, ap, ◌∙◌, ◌⊎◌, inl, inr, not, ◌||◌, List, [], ◌∷◌, ◌++◌, Option, some,
  Bool-cases, append_assoc, append-nil, ℤ,
}
use bifrost_platform_plugin.Text.{Text, txt, strip, upper, text_eq, mem_text}
use bifrost_platform_plugin.Float.{Float}
use bifrost_platform_plugin.Effects.{
  Outcome, returned, raised, pure, attempt, is_cancelled, continue_with, ◌>>=◌,
}
use bifrost_platform_plugin.Effects.Keep.{Keeps, Keeps-bind, Keeps-if}
use bifrost_platform_plugin.Ib.{Instrument, Ib}
use bifrost_platform_plugin.IbOps.Quotes.{
  Quote, has_value, look, no_quote, or_none, watch_quote, read_stream, quote_contract,
  option_instrument, fetch_option_quote_one_shot,
}

pub data StreamEvent : Type 0 where
  opened closed : Instrument → StreamEvent

abbrev pub opening : Outcome ℕ → Instrument → List StreamEvent
opening (returned ticker) contract = opened contract ∷ []
opening (raised e) contract = []

-- The log shows each stream that TWS opens and each that it is asked to close, and nothing else.
pub record Watches {W : Type 0} (api : Ib W) (log : W → List StreamEvent) : Type 0 where
  pub opens :
      (ib : ℕ) (c : Instrument) (w : W)
      → log (api.open_stream ib c w).1 ≡ log w ++ opening (api.open_stream ib c w).0 c
  pub closes :
      (ib : ℕ) (c : Instrument) (w : W) → log (api.close_stream ib c w).1 ≡ log w ++ closed c ∷ []
  pub views : (ticker : ℕ) (w : W) → log (api.view ticker w).1 ≡ log w
  pub qualifies : (ib : ℕ) (c : Instrument) (w : W) → log (api.qualify ib c w).1 ≡ log w

module _ {W : Type 0} (api : Ib W) (log : W → List StreamEvent) (watch : Watches api log) where
  or_none_same : {A : Type 0} (r : Outcome (Option A)) (w : W) → (or_none r w).1 ≡ w
  unfolding or_none
  or_none_same (returned q) w = refl
  or_none_same (raised e) w = elim (Bool-cases (is_cancelled e)) [
    | inl yes' ↦ rw yes'
    | inr no' ↦ rw no'
  ]

  watch_quote-Keeps : (rounds ticker : ℕ) (q : Quote) → Keeps log (watch_quote api rounds ticker q)
  unfolding watch_quote
  watch_quote-Keeps zero ticker q = λ w. refl
  watch_quote-Keeps (suc rounds) ticker q =
      Keeps-bind log (api.view ticker) _ (watch.views ticker) (λ v.
        Keeps-if log (has_value (look v q)) (pure (some (look v q)))
          (watch_quote api rounds ticker (look v q)) (λ w. refl)
          (watch_quote-Keeps rounds ticker (look v q)))

  -- What the stream of one contract comes to: nothing, or opened once and then closed once.
  abbrev pub IsBalanced : Instrument → W → W → Type 0
  IsBalanced c w w' = (log w' ≡ log w) ⊎ (log w' ≡ log w ++ opened c ∷ closed c ∷ [])

  after_open :
      (ib : ℕ) (c : Instrument) (r : Outcome ℕ) (w v : W)
      → log v ≡ log w ++ opening r c
      → IsBalanced c w
          (continue_with
            (λ ticker. attempt (watch_quote api 4 ticker no_quote) >>= λ q.
              attempt (api.close_stream ib c) >>= λ done. or_none q)
            r
            v).1
  after_open ib c (raised e) w v h = inl (h ∙ append-nil (log w))
  after_open ib c (returned ticker) w v h =
      let q = watch_quote api 4 ticker no_quote v in
      inr (
        ap log (or_none_same q.0 (api.close_stream ib c q.1).1)
        ∙ watch.closes ib c q.1
        ∙ ap (λ l. l ++ closed c ∷ []) (watch_quote-Keeps 4 ticker no_quote v ∙ h)
        ∙ append_assoc (log w) (opened c ∷ []) (closed c ∷ []))

  read_stream-IsBalanced :
      (ib : ℕ) (c : Instrument) (w : W) → IsBalanced c w (read_stream api ib c w).1
  unfolding read_stream
  read_stream-IsBalanced ib c w =
      after_open ib c (api.open_stream ib c w).0 w (api.open_stream ib c w).1 (watch.opens ib c w)

  from_same : (c : Instrument) {u v w : W} → log v ≡ log u → IsBalanced c v w → IsBalanced c u w
  from_same c e (inl h) = inl (h ∙ e)
  from_same c e (inr h) = inr (h ∙ ap (λ l. l ++ opened c ∷ closed c ∷ []) e)

  to_same : (c : Instrument) {u v w : W} → w ≡ v → IsBalanced c u v → IsBalanced c u w
  to_same c e (inl h) = inl (ap log e ∙ h)
  to_same c e (inr h) = inr (ap log e ∙ h)

  quote_contract-IsBalanced :
      (ib : ℕ) (c : Instrument) (w : W) → IsBalanced c w (quote_contract api ib c w).1
  unfolding quote_contract
  quote_contract-IsBalanced ib c w =
      to_same c (or_none_same _ _)
        (from_same c (watch.qualifies ib c w) (go (api.qualify ib c w).0 (api.qualify ib c w).1))
    where
      go :
          (r : Outcome ℤ) (v : W)
          → IsBalanced c v (continue_with (λ con_id. read_stream api ib c) r v).1
      go (returned con_id) v = read_stream-IsBalanced ib c v
      go (raised e) v = inl refl

  -- A quote leaves no stream behind, on every path: whatever TWS answers, fails or is cancelled in
  -- between, the stream of the contract was not opened, or it was opened once and then closed once.
  pub one_shot-IsBalanced :
      (ib : ℕ) (symbol expiry : Text) (strike : Float) (right : Text) (w : W)
      → IsBalanced
          (option_instrument symbol expiry strike right)
          w
          (fetch_option_quote_one_shot api ib symbol expiry strike right w).1
  unfolding fetch_option_quote_one_shot
  one_shot-IsBalanced ib symbol expiry strike right w =
      elim (Bool-cases (
        text_eq symbol []
        || text_eq (strip expiry) []
        || not (mem_text (upper right) (txt "C" ∷ txt "P" ∷ [])))) [
          | inl bad ↦ rw bad (inl refl)
          | inr good ↦
              rw good
                (quote_contract-IsBalanced ib (option_instrument symbol expiry strike right) w)
        ]
