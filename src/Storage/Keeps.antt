-- ===== src/Storage/Keeps.antt =====
-- Every operation of the store keeps each property that its writes keep (app/storage/db.py).
use binance_bot.Base.{
  ℕ, ◌≡◌, refl, true, false, String, Option, none, some, List, arith, Option-cases, inl, inr,
}
use binance_bot.Base.Float.{Float, nought}
use binance_bot.Config.{Mode}
use binance_bot.Storage.Rows.{Store, Trade, ProtectionStatus, open_with_id}
use binance_bot.Storage.Orders.{record_order_intent}
use binance_bot.Storage.Trades.{
  NewTrade, set_trade_protection, clear_trade_protection, open_trade, opened_row,
  raise_position_stop, apply_optional, erase_identity, has_id, find_open,
}
use binance_bot.Storage.Execution.{
  Sale, Cumulative, close_trade, close_row, apply_protective_execution, apply_to_row, apply_delta,
  finish_partial, finish_whole, finish_protective, partial_row, cut_off, write_remaining,
  write_closed, write_cumulative, keep, closed_result,
}
use binance_bot.Storage.Sound.{KeepsRow}
use binance_bot.Storage.Rules.{
  Keeps, Atoms, Keeps-pure, Keeps-gets, Keeps-require, Keeps-if, Keeps-raise_if, Keeps-bind,
  Keeps-states, Keeps-update, write_identity-KeepsRow, erase_identity-KeepsRow, write_stop-KeepsRow,
}

module _ {F : Type 0} ⦃fl : Float F⦄ where
  -- what a caller of the two endings writes to the open row besides
  extra_partial-KeepsRow :
      (row : Trade F) (x : Sale F) (extra : Trade F → Trade F)
      → KeepsRow extra
      → KeepsRow (λ t. extra (write_remaining row x t))
  extra_partial-KeepsRow row x extra k = record {
    id = λ t. k.id (write_remaining row x t);
    mode = λ t. k.mode (write_remaining row x t);
    symbol = λ t. k.symbol (write_remaining row x t);
    shut = λ t h. k.shut (write_remaining row x t) h;
  }

  extra_whole-KeepsRow :
      (x : Sale F) (now : ℕ) (extra : Trade F → Trade F)
      → KeepsRow extra
      → KeepsRow (λ t. extra (write_closed x now t))
  extra_whole-KeepsRow x now extra k = record {
    id = λ t. k.id (write_closed x now t);
    mode = λ t. k.mode (write_closed x now t);
    symbol = λ t. k.symbol (write_closed x now t);
    shut = λ t h. cc (k.shut (write_closed x now t) h);
  }

  keep-KeepsRow : KeepsRow {F = F} keep
  keep-KeepsRow = record { id = λ t. refl; mode = λ t. refl; symbol = λ t. refl; shut = λ t h. h }

  write_cumulative-KeepsRow : (c : Cumulative F) → KeepsRow (write_cumulative c)
  write_cumulative-KeepsRow c = record {
    id = λ t. refl;
    mode = λ t. refl;
    symbol = λ t. refl;
    shut = λ t h. h;
  }

  partial_row-id : (t : Trade F) (x : Sale F) (now i : ℕ) → (partial_row t x now i).id ≡ i
  unfolding partial_row
  partial_row-id t x now i = refl

module _ {F : Type 0} ⦃fl : Float F⦄ {P : Store F → Type 0} (a : Atoms P) where
  pub set_trade_protection-Keeps :
      (i : ℕ) (l c : Option String) (p : ProtectionStatus) → Keeps P (set_trade_protection i l c p)
  unfolding set_trade_protection
  set_trade_protection-Keeps i l c p =
      search (Keeps-bind, Keeps-gets, Keeps-require, Keeps-update a, write_identity-KeepsRow)

  pub clear_trade_protection-Keeps :
      (i : ℕ) (p : Option ProtectionStatus) → Keeps P (clear_trade_protection i p)
  unfolding clear_trade_protection
  clear_trade_protection-Keeps i p = record {
    at = λ s h.
        ground
          (arith, a.trades (open_with_id i) (erase_identity p) (erase_identity-KeepsRow p) s h);
  }

  pub raise_position_stop-Keeps : (i : ℕ) (o p : F) → Keeps P (raise_position_stop i o p)
  unfolding raise_position_stop
  raise_position_stop-Keeps i o p =
      search
        (Keeps-bind, Keeps-gets, Keeps-require, Keeps-update a, Keeps-pure, write_stop-KeepsRow)
        depth 8

  pub record_order_intent-Keeps :
      (m : Mode) (sy c side : String) (q : F) (now : ℕ)
      → Keeps P (record_order_intent m sy c side q now)
  unfolding record_order_intent
  record_order_intent-Keeps m sy c side q now =
      search (Keeps-bind, Keeps-gets, Keeps-raise_if, a.intended) depth 12

  apply_optional-Keeps :
      (c : Option String) (side : String) (m : Mode) (sy : String)
      → Keeps P (apply_optional c side m sy)
  unfolding apply_optional
  apply_optional-Keeps none side m sy = Keeps-pure tt
  apply_optional-Keeps (some c) side m sy = a.applied c side m sy

  pub open_trade-Keeps : (n : NewTrade F) (now : ℕ) → Keeps P (open_trade n now)
  unfolding open_trade
  open_trade-Keeps n now =
      Keeps-bind _ _ (apply_optional-Keeps n.client_order_id "BUY" n.mode n.symbol) (λ _.
        Keeps-bind _ _ (Keeps-states a n.state_updates)
          (λ _. a.inserted (opened_row n now) (λ i. refl)))

  finish_partial-Keeps :
      (row : Trade F) (x : Sale F) (extra : Trade F → Trade F) (now : ℕ)
      → KeepsRow extra
      → Keeps P (finish_partial row x extra now)
  unfolding finish_partial
  finish_partial-Keeps row x extra now k =
      Keeps-bind _ _ (Keeps-update a (has_id row.id) _ (extra_partial-KeepsRow row x extra k)) (λ _.
        Keeps-bind _ _ (a.inserted (partial_row row x now) (partial_row-id row x now))
          (λ i. Keeps-pure (closed_result x i (some row.id) true x.remaining)))

  finish_whole-Keeps :
      (row : Trade F) (x : Sale F) (extra : Trade F → Trade F) (now : ℕ)
      → KeepsRow extra
      → Keeps P (finish_whole row x extra now)
  unfolding finish_whole
  finish_whole-Keeps row x extra now k =
      Keeps-bind _ _ (Keeps-update a (has_id row.id) _ (extra_whole-KeepsRow x now extra k))
        (λ _. Keeps-pure (closed_result x row.id none false nought))

  close_row-Keeps :
      (row : Trade F) (price fee : F) (reason : String) (executed : Option F)
      (us : List (String × String)) (now : ℕ)
      → Keeps P (close_row row price fee reason executed us now)
  unfolding close_row
  close_row-Keeps row price fee reason executed us now =
      search
        (
          Keeps-bind,
          Keeps-raise_if,
          Keeps-states a,
          Keeps-if,
          finish_partial-Keeps,
          finish_whole-Keeps,
          keep-KeepsRow,
        )
        depth 10

  pub close_trade-Keeps :
      (i : ℕ) (price fee : F) (reason : String) (executed : Option F) (us : List (String × String))
      (client : Option String) (now : ℕ)
      → Keeps P (close_trade i price fee reason executed us client now)
  unfolding close_trade
  close_trade-Keeps i price fee reason executed us client now =
      search (Keeps-bind, Keeps-gets, Keeps-require, apply_optional-Keeps, close_row-Keeps) depth 10

  finish_protective-Keeps :
      (row : Trade F) (x : Sale F) (total : Cumulative F) (now : ℕ)
      → Keeps P (finish_protective row x total now)
  unfolding finish_protective
  finish_protective-Keeps row x total now =
      search (Keeps-if, finish_partial-Keeps, finish_whole-Keeps, write_cumulative-KeepsRow)

  apply_delta-Keeps :
      (row : Trade F) (total : Cumulative F) (d : F) (reason : String) (now : ℕ)
      → Keeps P (apply_delta row total d reason now)
  unfolding apply_delta
  apply_delta-Keeps row total d reason now =
      search (Keeps-bind, Keeps-raise_if, Keeps-pure, finish_protective-Keeps) depth 10

  apply_to_row-Keeps :
      (row : Trade F) (total : Cumulative F) (reason : String) (now : ℕ)
      → Keeps P (apply_to_row row total reason now)
  unfolding apply_to_row
  apply_to_row-Keeps row total reason now =
      search (Keeps-bind, Keeps-raise_if, Keeps-if, Keeps-pure, apply_delta-Keeps) depth 10

  pub apply_protective_execution-Keeps :
      (i : ℕ) (c : Cumulative F) (reason : String) (now : ℕ)
      → Keeps P (apply_protective_execution i c reason now)
  unfolding apply_protective_execution
  apply_protective_execution-Keeps i c reason now = record {
    at = λ s h. elim (Option-cases (find_open i s)) [
      | inl e ↦ rw (e, apply_protective_execution) h
      | inr (row, e) ↦
          rw (e, apply_protective_execution)
            ((Keeps-bind _ _ (apply_to_row-Keeps row (cut_off c) reason now)
                (λ r. Keeps-pure (some r))).at
              s h)
    ];
  }
