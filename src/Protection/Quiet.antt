-- ===== src/Protection/Quiet.antt =====
-- What reconciling and cancelling protection keep: they ask, but submit nothing
-- (app/execution/protection.py).
use binance_bot.Base.{ℕ, String, Bool, Option, none, some, List, [], ◌∷◌}
use binance_bot.Base.Float.{Float}
use binance_bot.Config.{is_exchange}
use binance_bot.Storage.Rows.{Store, Trade, ProtectionStatus}
use binance_bot.Storage.Rules.{Atoms}
use binance_bot.Storage.Keeps.{
  set_trade_protection-Keeps, clear_trade_protection-Keeps, apply_protective_execution-Keeps,
}
use binance_bot.Exchange.{Checked, passed, raised}
use binance_bot.Exchange.Answers.{Child, Bot}
use binance_bot.Act.{Event, Failure}
use binance_bot.Act.Steady.{
  Quiet, Steady, Steady-bind, Steady-catch, Steady-pure, Steady-fail, Steady-rethrow, Steady-reads,
  Steady-observes, Steady-need, Steady-fail_if, Steady-if, Steady-option, Steady-ask, Steady-db,
}
use binance_bot.Protection.Fill.{
  ChildState, truthy, lift, mark_fail, ask_child, ask_children, apply_child, fill_of_child,
  fill_of_states, fill_of_list, fill_of_identity, protective_fill,
}
use binance_bot.Protection.Cancel.{
  try_cancel, clear_for_exit, after_failed_cancel, after_cancel, cancel_identity,
  cancel_exchange_protection,
}

module _ {F D : Type 0} ⦃fl : Float F⦄ ⦃dl : Float D⦄ (b : Bot F D) {I : Store F → Type 0}
    {Q : List (Event F) → Type 0} (a : Atoms I) (q : Quiet I Q) where
  pub lift-Steady : {A : Type 0} (r : Checked A) → Steady I Q (lift r)
  unfolding lift
  lift-Steady (passed x) = Steady-pure x
  lift-Steady (raised e) = Steady-fail e

  pub mark_fail-Steady :
      {A : Type 0} (i : ℕ) (l : Option String) (c e : String)
      → Steady I Q (mark_fail b {A = A} i l c e)
  unfolding mark_fail
  mark_fail-Steady i l c e =
      search (Steady-bind, Steady-db, set_trade_protection-Keeps a, Steady-fail)

  ask_child-Steady : (symbol : String) (k : Child) → Steady I Q (ask_child b symbol k)
  unfolding ask_child
  ask_child-Steady symbol k =
      search (Steady-bind, Steady-ask q, lift-Steady, Steady-need, Steady-fail_if, Steady-pure)
        depth 12

  ask_children-Steady : (symbol : String) (ks : List Child) → Steady I Q (ask_children b symbol ks)
  unfolding ask_children
  ask_children-Steady symbol [] = Steady-pure []
  ask_children-Steady symbol (k ∷ ks) =
      search (Steady-bind, ask_child-Steady symbol k, ask_children-Steady symbol ks, Steady-pure)

  apply_child-Steady : (trade : Trade F) (k : ChildState F) → Steady I Q (apply_child b trade k)
  unfolding apply_child
  apply_child-Steady trade k =
      search
        (
          Steady-bind,
          Steady-ask q,
          lift-Steady,
          Steady-need,
          Steady-fail_if,
          Steady-pure,
          Steady-observes,
          Steady-db,
          apply_protective_execution-Keeps a,
        )
        depth 16

  fill_of_child-Steady :
      (trade : Trade F) (c : String) (l : Option String) (p : ProtectionStatus) (pair : Bool)
      (k : ChildState F)
      → Steady I Q (fill_of_child b trade c l p pair k)
  unfolding fill_of_child
  fill_of_child-Steady trade c l p pair k =
      search
        (
          Steady-bind, Steady-catch, apply_child-Steady, mark_fail-Steady, Steady-reads, Steady-if,
          Steady-pure,
        )
        depth 12

  fill_of_states-Steady :
      (trade : Trade F) (c : String) (l : Option String) (p : ProtectionStatus) (pair : Bool)
      (ks : List (ChildState F))
      → Steady I Q (fill_of_states b trade c l p pair ks)
  unfolding fill_of_states
  fill_of_states-Steady trade c l p pair [] = search (Steady-if, mark_fail-Steady, Steady-pure)
  fill_of_states-Steady trade c l p pair (k ∷ []) = fill_of_child-Steady trade c l p pair k
  fill_of_states-Steady trade c l p pair (k ∷ k' ∷ ks) = mark_fail-Steady _ _ _ _

  fill_of_list-Steady :
      (trade : Trade F) (c : String) (r : ℕ × ProtectionStatus × List Child)
      → Steady I Q (fill_of_list b trade c r)
  unfolding fill_of_list
  fill_of_list-Steady trade c (id, status, children) =
      search
        (
          Steady-bind,
          Steady-db,
          set_trade_protection-Keeps a,
          Steady-if,
          Steady-catch,
          mark_fail-Steady,
          ask_children-Steady,
          fill_of_states-Steady,
        )
        depth 16

  fill_of_identity-Steady : (trade : Trade F) (c : String) → Steady I Q (fill_of_identity b trade c)
  unfolding fill_of_identity
  fill_of_identity-Steady trade c =
      search
        (
          Steady-bind,
          Steady-ask q,
          Steady-catch,
          lift-Steady,
          mark_fail-Steady,
          fill_of_list-Steady,
        )
        depth 12

  pub protective_fill-Steady : (trade : Trade F) → Steady I Q (protective_fill b trade)
  unfolding protective_fill
  protective_fill-Steady trade =
      Steady-option (truthy trade.protective_list_client_order_id) _ _ (Steady-pure none) λ c.
        Steady-if (is_exchange b.settings.mode) _ _ (fill_of_identity-Steady trade c)
          (Steady-pure none)

  try_cancel-Steady : (c : String) → Steady I Q (try_cancel b c)
  unfolding try_cancel
  try_cancel-Steady c = search (Steady-catch, Steady-bind, Steady-ask q, Steady-pure)

  clear_for_exit-Steady : (trade : Trade F) → Steady I Q (clear_for_exit b trade)
  unfolding clear_for_exit
  clear_for_exit-Steady trade =
      search (Steady-bind, Steady-db, clear_trade_protection-Keeps a, Steady-pure)

  after_failed_cancel-Steady :
      (trade : Trade F) (e : Failure) → Steady I Q (after_failed_cancel b trade e)
  unfolding after_failed_cancel
  after_failed_cancel-Steady trade e =
      search
        (Steady-bind, Steady-reads, Steady-need, Steady-if, clear_for_exit-Steady, Steady-rethrow)

  after_cancel-Steady : (trade : Trade F) (e : Option Failure) → Steady I Q (after_cancel b trade e)
  unfolding after_cancel
  after_cancel-Steady trade none = clear_for_exit-Steady trade
  after_cancel-Steady trade (some e) = after_failed_cancel-Steady trade e

  cancel_identity-Steady : (trade : Trade F) (c : String) → Steady I Q (cancel_identity b trade c)
  unfolding cancel_identity
  cancel_identity-Steady trade c = Steady-bind _ _ (try_cancel-Steady c) λ refused.
      Steady-bind _ _ (protective_fill-Steady trade)
        λ fill. Steady-option fill _ _ (after_cancel-Steady trade refused) λ f. Steady-pure (some f)

  pub cancel_exchange_protection-Steady :
      (trade : Trade F) → Steady I Q (cancel_exchange_protection b trade)
  unfolding cancel_exchange_protection
  cancel_exchange_protection-Steady trade =
      Steady-option (truthy trade.protective_list_client_order_id) _ _ (Steady-pure none) λ c.
        Steady-if (is_exchange b.settings.mode) _ _ (cancel_identity-Steady trade c)
          (Steady-pure none)
