-- ===== src/IbOps/Executions.antt =====
-- fetch_executions: one row for each execution.
use bifrost_platform_plugin.Prelude.{
  ℕ, suc, ◌*◌, Bool, true, false, not, ◌&&◌, ◌≡◌, refl, ap, ◌∙◌, inl, inr, List, [], ◌∷◌, ◌++◌,
  reverse, Option, none, some, arith, Bool-cases, if◌then◌else◌, ℤ, pos,
}
use bifrost_platform_plugin.Text.{Text, txt, text_eq, mem_text, get}
use bifrost_platform_plugin.Text.Laws.{IsDistinct, text_eq→eq, text_eq_refl, mem_text-append}
use bifrost_platform_plugin.Float.{Float, fin, sub_f}
use bifrost_platform_plugin.Effects.{returned, Io, pure, gets, ◌>>=◌, Env}
use bifrost_platform_plugin.Json.{Json, null, string, Dict, number_or_null, merge}
use bifrost_platform_plugin.Writer.Laws.{get-merge_absent}
use bifrost_platform_plugin.Ib.{Contract, Execution, CommissionReport, Fill, Ib}
use bifrost_platform_plugin.IbOps.{execution_contract_fields}
use bifrost_platform_plugin.IbOps.Fields.{get-execution_contract_fields}

-- The start of the filter, `days - 1` days before `now`; `strftime` writes it in UTC.
unfoldable pub filter_time : (Float → Text) → Float → ℤ → Text
filter_time strftime now (pos (suc n)) =
    strftime (sub_f now (fin (pos (n * 86400000000)))) ++ txt " UTC"
filter_time strftime now _ = []

-- ex.execId if ex else None, as a text
unfoldable pub exec_id_of : Option Execution → Text
exec_id_of none = []
exec_id_of (some ex) = ex.exec_id

unfoldable pub exec_id_json : Option Execution → Json
exec_id_json none = null
exec_id_json (some ex) = string ex.exec_id

-- The later report of an execution replaces the earlier one.
unfoldable pub report_for : Text → List (Text × CommissionReport) → Option CommissionReport
report_for exec_id reports = if text_eq exec_id [] then none else get exec_id (reverse reports)

unfoldable pub or_given : Option Float → Option Float → Option Float
or_given none y = y
or_given (some x) y = some x

-- `if commission is None and exec_id in commission_by_exec_id`
unfoldable pub with_report :
    Option CommissionReport → Option Float × Option Float → Option Float × Option Float
with_report none costs = costs
with_report (some rec) (some commission, realized_pnl) = (some commission, realized_pnl)
with_report (some rec) (none, realized_pnl) =
    (rec.commission, or_given realized_pnl rec.realized_pnl)

unfoldable pub report_costs : Option CommissionReport → Option Float × Option Float
report_costs none = (none, none)
report_costs (some r) = (r.commission, r.realized_pnl)

unfoldable pub exec_time : Option Execution → Option (Option Float)
exec_time none = none
exec_time (some ex) = ex.time

unfoldable pub fill_ts : Option (Option Float) → Option (Option Float) → Json
fill_ts (some ts) ex_time = number_or_null ts
fill_ts none (some ts) = number_or_null ts
fill_ts none none = null

unfoldable pub contract_text : (Contract → Text) → Option Contract → Text
contract_text field none = []
contract_text field (some c) = field c

unfoldable pub exec_json : (Execution → Json) → Option Execution → Json
exec_json field none = null
exec_json field (some ex) = field ex

-- The row before the contract's fields.
unfoldable pub fill_fields : List (Text × CommissionReport) → Fill → Dict
fill_fields reports f =
    let costs =
      with_report (report_for (exec_id_of f.execution) reports)
        (report_costs f.commission_report) in
    (txt "exec_id", exec_id_json f.execution)
    ∷ (txt "account", exec_json (λ ex. string ex.acct_number) f.execution)
    ∷ (txt "symbol", string (contract_text (λ c. c.symbol) f.contract))
    ∷ (txt "sec_type", string (contract_text (λ c. c.sec_type) f.contract))
    ∷ (txt "side", exec_json (λ ex. string ex.side) f.execution)
    ∷ (txt "shares", exec_json (λ ex. number_or_null ex.shares) f.execution)
    ∷ (txt "price", exec_json (λ ex. number_or_null ex.price) f.execution)
    ∷ (txt "commission", number_or_null costs.0)
    ∷ (txt "realized_pnl", number_or_null costs.1)
    ∷ (txt "ts", fill_ts f.time (exec_time f.execution))
    ∷ []

unfoldable pub execution_row : (Text → Option Float) → List (Text × CommissionReport) → Fill → Dict
execution_row read_float reports f =
    merge (fill_fields reports f) (execution_contract_fields read_float f.contract f.execution)

-- `if exec_id: seen.add(exec_id)`
unfoldable pub see : Text → List Text → List Text
see exec_id seen = if text_eq exec_id [] then seen else seen ++ exec_id ∷ []

-- The loop over the fills.
unfoldable pub execution_rows :
    (Text → Option Float)
    → List (Text × CommissionReport)
    → List Text
    → List (Option Fill)
    → List Dict
execution_rows read_float reports seen [] = []
execution_rows read_float reports seen (none ∷ fills) = execution_rows read_float reports seen fills
execution_rows read_float reports seen (some f ∷ fills) =
    let exec_id = exec_id_of f.execution in
    let skip = execution_rows read_float reports seen fills in
    let keep =
      execution_row read_float reports f
      ∷ execution_rows read_float reports (see exec_id seen) fills in
    if not (text_eq exec_id []) && mem_text exec_id seen then skip else keep

module _ {W : Type 0} (api : Ib W) (env : Env W) (strftime : Float → Text)
    (read_float : Text → Option Float) where
  unfoldable pub wait_reports : ℕ → Bool → Io W (List (Text × CommissionReport))
  wait_reports ib false w = (returned [], w)
  wait_reports ib true w = let r = api.late_reports ib w in (returned r.0, r.1)

  unfoldable pub fetch_executions : ℕ → ℤ → Text → Bool → Io W (List Dict)
  fetch_executions ib days account wait_commission = gets env.now >>= λ now.
      api.executions ib account (filter_time strftime now days) >>= λ r.
      wait_reports ib wait_commission >>= λ late.
      pure (execution_rows read_float (r.0 ++ late) [] r.1)

-- The execution id that a row shows.
abbrev pub shown_id : Option Json → Text
shown_id (some (string s)) = s
shown_id _ = []

-- The ids that the rows show, and those of the fills, without blank ones.
abbrev pub row_ids : List Dict → List Text
row_ids [] = []
row_ids (row ∷ rows) =
    let rest = row_ids rows in
    let id = shown_id (get (txt "exec_id") row) in if text_eq id [] then rest else id ∷ rest

abbrev pub fill_ids : List (Option Fill) → List Text
fill_ids [] = []
fill_ids (none ∷ fills) = fill_ids fills
fill_ids (some f ∷ fills) =
    let rest = fill_ids fills in
    let id = exec_id_of f.execution in if text_eq id [] then rest else id ∷ rest

row_id :
    (read_float : Text → Option Float) (reports : List (Text × CommissionReport)) (f : Fill)
    → shown_id (get (txt "exec_id") (execution_row read_float reports f)) ≡ exec_id_of f.execution
unfolding execution_row fill_fields get text_eq exec_id_json exec_id_of mem_text
row_id read_float reports f =
    ap shown_id (
      get-merge_absent (txt "exec_id") (fill_fields reports f) _ (
        get-execution_contract_fields read_float (txt "exec_id") f.contract f.execution
          (refl, refl, refl, refl) refl))
    ∙ go f.execution
  where
    go : (ex : Option Execution) → shown_id (some (exec_id_json ex)) ≡ exec_id_of ex
    go none = refl
    go (some ex) = refl

module _ (read_float : Text → Option Float) (reports : List (Text × CommissionReport)) where
  abbrev rows_after : List Text → List (Option Fill) → List Dict
  rows_after = execution_rows read_float reports

  same_seen :
      (n id : Text) (seen : List Text) {b : Bool}
      → mem_text id seen ≡ b
      → text_eq n id ≡ true
      → mem_text n seen ≡ b
  same_seen n id seen h e = ap (λ t. mem_text t seen) (text_eq→eq n id e) ∙ h

  -- The ids shown are those of the fills that were not seen before.
  rows_ids :
      (n : Text) (seen : List Text) (fills : List (Option Fill))
      → mem_text n (row_ids (rows_after seen fills))
        ≡ (mem_text n (fill_ids fills) && not (mem_text n seen))
  unfolding execution_rows mem_text see
  rows_ids n seen [] = refl
  rows_ids n seen (none ∷ fills) = rows_ids n seen fills
  rows_ids n seen (some f ∷ fills) =
      let id = exec_id_of f.execution in
      let shown = row_id read_float reports f in
      elim (Bool-cases (text_eq id [])) [
        | inl blank ↦ rw blank (rw (shown, blank) (rows_ids n seen fills))
        | inr given ↦ elim (Bool-cases (mem_text id seen)) [
          | inl old ↦
              rw (given, old)
                (ground (
                  arith,
                  rows_ids n seen fills,
                  λ (e : text_eq n id ≡ true). same_seen n id seen old e,
                ))
          | inr new ↦
              rw (given, new)
                (rw (shown, given)
                  (ground (
                    arith,
                    rows_ids n (seen ++ id ∷ []) fills,
                    mem_text-append n seen (id ∷ []),
                    λ (e : text_eq n id ≡ true). same_seen n id seen new e,
                  )))
        ]
      ]

  rows-IsDistinct :
      (seen : List Text) (fills : List (Option Fill)) → IsDistinct (row_ids (rows_after seen fills))
  unfolding execution_rows see mem_text
  rows-IsDistinct seen [] = tt
  rows-IsDistinct seen (none ∷ fills) = rows-IsDistinct seen fills
  rows-IsDistinct seen (some f ∷ fills) =
      let id = exec_id_of f.execution in
      let shown = row_id read_float reports f in
      elim (Bool-cases (text_eq id [])) [
        | inl blank ↦ rw blank (rw (shown, blank) (rows-IsDistinct seen fills))
        | inr given ↦ elim (Bool-cases (mem_text id seen)) [
          | inl old ↦ rw (given, old) (rows-IsDistinct seen fills)
          | inr new ↦
              rw (given, new)
                (rw (shown, given)
                  (
                    ground (
                      arith,
                      rows_ids id (seen ++ id ∷ []) fills,
                      mem_text-append id seen (id ∷ []),
                      text_eq_refl id,
                    ),
                    rows-IsDistinct (seen ++ id ∷ []) fills,
                  ))
        ]
      ]

module _ {W : Type 0} (api : Ib W) (env : Env W) (strftime : Float → Text)
    (read_float : Text → Option Float) where
  -- Where TWS answers the request, the fetch returns, and its rows show the execution ids of the
  -- fills, each exactly once.
  pub fetch_executions_ids :
      (ib : ℕ) (days : ℤ) (account : Text) (wait_commission : Bool) (w w' : W)
      (reports : List (Text × CommissionReport)) (fills : List (Option Fill)) (n : Text)
      → api.executions ib account (filter_time strftime (env.now w) days) w
        ≡ (returned (reports, fills), w')
      → (rows : List Dict) × ((fetch_executions api env strftime read_float ib days account
            wait_commission w).0
          ≡ returned rows)
        × IsDistinct (row_ids rows)
        × (mem_text n (row_ids rows) ≡ mem_text n (fill_ids fills))
  unfolding fetch_executions wait_reports
  fetch_executions_ids ib days account true w w' reports fills n answered =
      let all = reports ++ (api.late_reports ib w').0 in
      (
        execution_rows read_float all [] fills,
        rw answered refl,
        rows-IsDistinct read_float all [] fills,
        rows_ids read_float all n [] fills ∙ unfold mem_text in ground arith,
      )
  fetch_executions_ids ib days account false w w' reports fills n answered = (
    execution_rows read_float (reports ++ []) [] fills,
    rw answered refl,
    rows-IsDistinct read_float (reports ++ []) [] fills,
    rows_ids read_float (reports ++ []) n [] fills ∙ unfold mem_text in ground arith,
  )
