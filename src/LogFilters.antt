-- ===== src/LogFilters.antt =====
-- src/bifrost_plugin/ib_gateway/log_filters.py: the filter of ib_insync's log lines.
pub mod Laws
use bifrost_platform_plugin.Prelude.{
  ℕ, zero, suc, ◌≤◌, ◌<◌, ◌≡◌, refl, ◌⊎◌, inl, inr, Bool, true, false, not, ◌&&◌, ◌||◌, ◌==◌, List,
  [], ◌∷◌, ◌++◌, Option, none, some, leb, if◌then◌else◌, arith, Bool-cases,
}
use bifrost_platform_plugin.Text.{Text, txt, starts_with}

-- What the filter reads of logging.LogRecord: the level, and the message where that is a text.
pub record LogRecord : Type 0 where
  pub levelno : ℕ
  pub msg : Option Text

-- The filters of a logger: DropAccountEcho, or one of another class.
pub data Filter : Type 0 where
  drop_account_echo : Filter
  other_filter : ℕ → Filter

unfoldable pub is_account_echo : Option Text → Bool
is_account_echo none = false
is_account_echo (some s) =
    starts_with (txt "position: ") s || starts_with (txt "updatePortfolio: ") s

-- DropAccountEcho.filter; logging.INFO is 20.
unfoldable pub keeps_line : LogRecord → Bool
keeps_line r = not (leb r.levelno 20 && is_account_echo r.msg)

unfoldable pub has_drop_account_echo : List Filter → Bool
has_drop_account_echo [] = false
has_drop_account_echo (drop_account_echo ∷ filters) = true
has_drop_account_echo (other_filter n ∷ filters) = has_drop_account_echo filters

-- install_log_filters, on the filters of the logger of ib_insync.wrapper.
unfoldable pub install_log_filters : List Filter → List Filter
install_log_filters filters =
    if has_drop_account_echo filters then filters else filters ++ drop_account_echo ∷ []

-- logger.filter(record): every filter keeps it; `others` is what the other filters say.
unfoldable pub passes : (ℕ → LogRecord → Bool) → List Filter → LogRecord → Bool
passes others [] r = true
passes others (drop_account_echo ∷ filters) r = keeps_line r && passes others filters r
passes others (other_filter n ∷ filters) r = others n r && passes others filters r

-- The filters after any number of starts of run_gateway.
unfoldable pub started_times : ℕ → List Filter → List Filter
started_times zero filters = filters
started_times (suc n) filters = install_log_filters (started_times n filters)
