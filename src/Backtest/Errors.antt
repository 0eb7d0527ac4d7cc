-- ===== src/Backtest/Errors.antt =====
-- The errors that the backtest raises (backtest/errors.py and the validators of contracts.py), one
-- constructor for each message.
pub data BacktestError : Type 0 where
  nonpositive_fill negative_initial_cash insufficient_cash sell_exceeds_position : BacktestError
  missing_run_data missing_valuation_data empty_component no_visible_valuation_bar key_error :
      BacktestError
  artifact_unavailable blank_row invalid_row series_mismatch invalid_revision no_rows :
      BacktestError
  unknown_component component_outside_range sell_without_entry : BacktestError
  unsupported_strategy wrong_parameter_names windows_not_integers : BacktestError
  windows_out_of_order nonpositive_target negative_bps nonpositive_capital : BacktestError
  unsupported_schema empty_event_range no_instruments duplicate_instruments : BacktestError
