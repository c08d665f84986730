-- ===== src/LogFilters/Laws.antt =====
-- What the logger of ib_insync lets through once the gateway has started.
use bifrost_platform_plugin.Prelude.{
  ℕ, zero, suc, ◌≡◌, refl, Bool, true, ◌&&◌, List, [], ◌∷◌, ◌++◌, arith, Bool-cases, inl, inr,
}
use bifrost_platform_plugin.LogFilters.{
  LogRecord, Filter, drop_account_echo, other_filter, keeps_line, has_drop_account_echo,
  install_log_filters, passes, started_times,
}

has_appended :
    (filters : List Filter) → has_drop_account_echo (filters ++ drop_account_echo ∷ []) ≡ true
unfolding has_drop_account_echo
has_appended [] = refl
has_appended (drop_account_echo ∷ filters) = refl
has_appended (other_filter n ∷ filters) = has_appended filters

has_installed : (filters : List Filter) → has_drop_account_echo (install_log_filters filters) ≡ true
unfolding install_log_filters
has_installed filters = elim (Bool-cases (has_drop_account_echo filters)) [
  | inl there ↦ rw there there
  | inr missing ↦ rw missing (has_appended filters)
]

install_again :
    (filters : List Filter)
    → has_drop_account_echo filters ≡ true
    → install_log_filters filters ≡ filters
unfolding install_log_filters
install_again filters h = rw h refl

started_once :
    (n : ℕ) (filters : List Filter) → started_times (suc n) filters ≡ install_log_filters filters
unfolding started_times
started_once zero filters = refl
started_once (suc n) filters = rw (started_once n filters) (install_again _ (has_installed filters))

module _ (others : ℕ → LogRecord → Bool) (r : LogRecord) where
  passes-appended :
      (filters : List Filter)
      → passes others (filters ++ drop_account_echo ∷ []) r
        ≡ (passes others filters r && keeps_line r)
  unfolding passes
  passes-appended [] = ground arith
  passes-appended (drop_account_echo ∷ filters) = ground (arith, passes-appended filters)
  passes-appended (other_filter n ∷ filters) = ground (arith, passes-appended filters)

  passes-present :
      (filters : List Filter)
      → has_drop_account_echo filters ≡ true
      → passes others filters r ≡ (passes others filters r && keeps_line r)
  unfolding passes has_drop_account_echo
  passes-present [] h = cc
  passes-present (drop_account_echo ∷ filters) h = ground arith
  passes-present (other_filter n ∷ filters) h = ground (arith, passes-present filters h)

  passes-install :
      (filters : List Filter)
      → passes others (install_log_filters filters) r ≡ (passes others filters r && keeps_line r)
  unfolding install_log_filters
  passes-install filters = elim (Bool-cases (has_drop_account_echo filters)) [
    | inl there ↦ rw there (passes-present filters there)
    | inr missing ↦ rw missing (passes-appended filters)
  ]

  -- However often the gateway starts, its logger has the filters of the first start, and lets
  -- through exactly what the filters before let through and DropAccountEcho keeps.
  pub started_times-passes :
      (n : ℕ) (filters : List Filter)
      → (started_times (suc n) filters ≡ install_log_filters filters)
        × (passes others (started_times (suc n) filters) r
            ≡ (passes others filters r && keeps_line r))
  started_times-passes n filters =
      (started_once n filters, rw (started_once n filters) (passes-install filters))
