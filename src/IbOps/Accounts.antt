-- ===== src/IbOps/Accounts.antt =====
-- position_to_dict and fetch_accounts_snapshot_rows: the rows of the managed accounts.
use bifrost_platform_plugin.Prelude.{
  ℕ, Bool, true, false, not, ◌≡◌, refl, inl, inr, ◌⊎◌, Bool-cases, List, [], ◌∷◌, ◌++◌, Option,
  none, some, if◌then◌else◌, map,
}
use bifrost_platform_plugin.Text.{Text, txt, text_eq, get}
use bifrost_platform_plugin.Effects.{
  Exn, is_cancelled, Outcome, returned, raised, Io, pure, caught, catch, continue_with, ◌>>=◌,
}
use bifrost_platform_plugin.Json.{
  Json, boolean, number, string, object, Dict, entries_of, dicts, number_or_null, put,
}
use bifrost_platform_plugin.Connection.{managed_accounts}
use bifrost_platform_plugin.Ib.{Contract, Position, SummaryValue, Ib}
use bifrost_platform_plugin.IbOps.{put_if}

unfoldable pub option_part_of : Contract → Dict
option_part_of c =
    (txt "lastTradeDateOrContractMonth", string c.expiry)
    ∷ (txt "strike", number c.strike)
    ∷ (txt "right", string c.right)
    ∷ (txt "multiplier", string c.multiplier)
    ∷ []

unfoldable pub position_to_dict : Position → Dict
unfolding text_eq option_part_of
position_to_dict pos =
    ((txt "account", string pos.account)
      ∷ (txt "symbol", string pos.contract.symbol)
      ∷ (txt "secType", string pos.contract.sec_type)
      ∷ (txt "exchange", string pos.contract.exchange)
      ∷ (txt "currency", string pos.contract.currency)
      ∷ (txt "position", number pos.position)
      ∷ (txt "avgCost", number_or_null pos.avg_cost)
      ∷ [])
    ++ (if text_eq pos.contract.sec_type (txt "OPT") then option_part_of pos.contract else [])

-- The loop over the summary values.
unfoldable pub add_values : List SummaryValue → Dict → Dict
add_values [] summary = summary
add_values (v ∷ values) summary =
    let skip = add_values values summary in
    elim v.value [
      | none ↦ skip
      | some value ↦ if text_eq v.tag [] then skip else add_values values (put v.tag value summary)
    ]

-- The summary, and whether the read succeeded.
unfoldable pub summary_of : Outcome (List SummaryValue) → Dict × Bool
summary_of (returned values) = (add_values values [], true)
summary_of (raised e) = ([], false)

unfoldable pub positions_of : Text → List Position → List Position
unfolding text_eq
positions_of aid [] = []
positions_of aid (p ∷ ps) =
    let rest = positions_of aid ps in if text_eq p.account aid then p ∷ rest else rest

-- row["positions"], where the positions were read
unfoldable pub positions_part : Text → Outcome (List Position) → Dict
positions_part aid (returned ps) =
    (txt "positions", dicts (map position_to_dict (positions_of aid ps))) ∷ []
positions_part aid (raised e) = []

abbrev pub is_returned : {A : Type 0} → Outcome A → Bool
is_returned (returned a) = true
is_returned (raised e) = false

unfoldable pub account_row : Text → Outcome (List Position) → Outcome (List SummaryValue) → Dict
account_row aid positions values =
    (txt "account_id", string aid)
    ∷ (
      txt "summary",
      object (
          entries_of
            (put_if (not (text_eq aid [])) (txt "account") (string aid) (summary_of values).0)),
    )
    ∷ (txt "summary_ok", boolean (summary_of values).1)
    ∷ (txt "positions_ok", boolean (is_returned positions))
    ∷ positions_part aid positions

abbrev pub is_there : Option Json → Bool
is_there none = false
is_there (some v) = true

-- A row names its account and says whether its positions and its summary were read; it has
-- positions exactly if they were, and a summary that was not read has no value but the account.
pub record IsRow (aid : Text) (positions : Outcome (List Position))
    (values : Outcome (List SummaryValue)) (row : Dict) : Type 0 where
  pub account_given : get (txt "account_id") row ≡ some (string aid)
  pub positions_told : get (txt "positions_ok") row ≡ some (boolean (is_returned positions))
  pub positions_given : is_there (get (txt "positions") row) ≡ is_returned positions
  pub summary_told : get (txt "summary_ok") row ≡ some (boolean (is_returned values))
  pub summary_blank :
      is_returned values ≡ false
      → get (txt "summary") row
        ≡ some (object (entries_of (put_if (not (text_eq aid [])) (txt "account") (string aid) [])))

caught_lem :
    {W A : Type 0} (r : Outcome A) (w : W)
    → (caught r w ≡ (returned r, w))
      ⊎ ((e : Exn) × (r ≡ raised e) × (is_cancelled e ≡ true) × (caught r w ≡ (raised e, w)))
unfolding caught
caught_lem (returned a) w = inl refl
caught_lem (raised e) w = elim (Bool-cases (is_cancelled e)) [
  | inl c ↦ inr (e, refl, c, rw c refl)
  | inr other ↦ inl (rw other refl)
]

account_row-IsRow :
    (aid : Text) (positions : Outcome (List Position)) (values : Outcome (List SummaryValue))
    → IsRow aid positions values (account_row aid positions values)
unfolding account_row positions_part summary_of get text_eq
account_row-IsRow aid positions values = record {
  account_given = refl;
  positions_told = refl;
  positions_given = given positions;
  summary_told = told values;
  summary_blank = blank values;
}
  where
    given :
        (ps : Outcome (List Position))
        → is_there (get (txt "positions") (account_row aid ps values)) ≡ is_returned ps
    given (returned ps) = refl
    given (raised e) = refl

    told :
        (vs : Outcome (List SummaryValue))
        → get (txt "summary_ok") (account_row aid positions vs) ≡ some (boolean (is_returned vs))
    told (returned vs) = refl
    told (raised e) = refl

    blank :
        (vs : Outcome (List SummaryValue))
        → is_returned vs ≡ false
        → get (txt "summary") (account_row aid positions vs)
          ≡ some
              (object (entries_of (put_if (not (text_eq aid [])) (txt "account") (string aid) [])))
    blank (returned vs) h = cc
    blank (raised e) h = refl

module _ {W : Type 0} (api : Ib W) where
  -- The loop over the account ids. A cancellation of a read passes through.
  unfoldable pub account_rows : ℕ → Outcome (List Position) → List Text → Io W (List Dict)
  account_rows ib positions [] = pure []
  account_rows ib positions (aid ∷ ids) = catch (api.account_summary ib aid) >>= λ values.
      account_rows ib positions ids >>= λ rows. pure (account_row aid positions values ∷ rows)

  -- _managed_account_ids has the same text as _managed_accounts of connection.py.
  unfoldable pub managed_account_ids : ℕ → W → List Text
  managed_account_ids ib w = managed_accounts (api.managed ib w)

  unfoldable pub rows_of_ids : ℕ → List Text → Io W (List Dict)
  rows_of_ids ib [] = pure []
  rows_of_ids ib (aid ∷ ids) =
      catch (api.positions ib) >>= λ positions. account_rows ib positions (aid ∷ ids)

  unfoldable pub fetch_accounts_snapshot_rows : ℕ → Io W (List Dict)
  fetch_accounts_snapshot_rows ib w =
      if not (api.is_connected ib w)
      then (returned [], w)
      else rows_of_ids ib (managed_account_ids ib w) w

  -- One row for each id, in order, each with the summary that is read when its turn comes.
  abbrev pub AreRows : ℕ → Outcome (List Position) → List Text → W → List Dict → Type 0
  AreRows ib positions [] w [] = Unit
  AreRows ib positions (aid ∷ ids) w (row ∷ rows) =
      IsRow aid positions (api.account_summary ib aid w).0 row
      × AreRows ib positions ids (api.account_summary ib aid w).1 rows
  AreRows ib positions _ w _ = ⊥

  -- A read of the session was cancelled with this exception.
  abbrev pub WasCancelled : ℕ → Exn → Type 0
  WasCancelled ib e =
      (is_cancelled e ≡ true)
      × (((v : W) × ((api.positions ib v).0 ≡ raised e))
          ⊎ ((aid : Text) × (v : W) × ((api.account_summary ib aid v).0 ≡ raised e)))

  -- The positions as they were read in this world, and the rows that follow from there.
  abbrev pub AreAccounts : ℕ → List Text → W → List Dict → Type 0
  AreAccounts ib [] w rows = rows ≡ []
  AreAccounts ib (aid ∷ ids) w rows =
      AreRows ib (api.positions ib w).0 (aid ∷ ids) (api.positions ib w).1 rows

  abbrev Ended : ℕ → (List Dict → Type 0) → Outcome (List Dict) → Type 0
  Ended ib Q r =
      ((e : Exn) × (r ≡ raised e) × WasCancelled ib e)
      ⊎ ((rows : List Dict) × (r ≡ returned rows) × Q rows)

  account_rows-AreRows :
      (ib : ℕ) (positions : Outcome (List Position)) (ids : List Text) (w : W)
      → Ended ib (AreRows ib positions ids w) (account_rows ib positions ids w).0
  unfolding account_rows
  account_rows-AreRows ib positions [] w = inr ([], refl, tt)
  account_rows-AreRows ib positions (aid ∷ ids) w =
      let r = api.account_summary ib aid w in
      elim (caught_lem r.0 r.1) [
        | inr (e, failed, c, out) ↦ inl (e, rw out refl, (c, inr (aid, w, failed)))
        | inl out ↦ rw out (
            one_more (account_rows ib positions ids r.1) (account_row-IsRow aid positions r.0)
              (account_rows-AreRows ib positions ids r.1))
      ]
    where
      one_more :
          (later : Outcome (List Dict) × W)
          → IsRow aid positions
              (api.account_summary ib aid w).0
              (account_row aid positions (api.account_summary ib aid w).0)
          → Ended ib (AreRows ib positions ids (api.account_summary ib aid w).1) later.0
          → Ended ib
              (AreRows ib positions (aid ∷ ids) w)
              (continue_with
                (λ rows. pure (account_row aid positions (api.account_summary ib aid w).0 ∷ rows))
                later.0
                later.1).0
      one_more later row (inl (e, failed, c)) = inl (e, rw failed refl, c)
      one_more later row (inr (rows, done, are)) = inr (
        account_row aid positions (api.account_summary ib aid w).0 ∷ rows,
        rw done refl,
        (row, are),
      )

  -- On a connected session the fetch raises only what a cancelled read raises. Otherwise it returns
  -- one row for each managed account, in order, whichever reads fail: a row tells whether the
  -- positions and whether its own summary were read, has positions exactly if they were, and no
  -- value of the summary but the account where that was not.
  pub fetch_accounts_lem :
      (ib : ℕ) (w : W)
      → api.is_connected ib w ≡ true
      → ((e : Exn) × ((fetch_accounts_snapshot_rows ib w).0 ≡ raised e) × WasCancelled ib e)
        ⊎ ((rows : List Dict) × ((fetch_accounts_snapshot_rows ib w).0 ≡ returned rows)
            × AreAccounts ib (managed_account_ids ib w) w rows)
  unfolding fetch_accounts_snapshot_rows
  fetch_accounts_lem ib w up = rw up (go (managed_account_ids ib w))
    where
      go : (ids : List Text) → Ended ib (AreAccounts ib ids w) (rows_of_ids ib ids w).0
      go [] = unfold rows_of_ids in inr ([], refl, refl)
      go (aid ∷ ids) =
          unfold rows_of_ids in
          let r = api.positions ib w in
          elim (caught_lem r.0 r.1) [
            | inr (e, failed, c, out) ↦ inl (e, rw out refl, (c, inl (w, failed)))
            | inl out ↦ rw out (account_rows-AreRows ib r.0 (aid ∷ ids) r.1)
          ]
