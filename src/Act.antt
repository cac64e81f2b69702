-- ===== src/Act.antt =====
-- Asynchronous code over the tables and the exchange (app/execution). An action returns or raises;
-- what it wrote before it raised stays written, since each call of the store is a transaction of its
-- own. The exchange is any function of the requests that were made so far, so that it may answer,
-- fail, or change its mind at every request. Requests are kept newest first, each with the tables as
-- they were when it was sent.
pub mod Rules
pub mod Steady
pub mod Anything
use binance_bot.Base.{
  ℕ, String, Bool, true, false, Option, none, some, List, [], ◌∷◌, if◌then◌else◌,
}
use binance_bot.Storage.Rows.{Store, DbError}
use binance_bot.Storage.Tx.{Tx, Result, ok, err, connection}
use binance_bot.Exchange.{OcoOrder}

pub data Failure : Type 0 where
  message : String → Failure
  db_error : DbError → Failure

pub data Outcome (A : Type 0) : Type 0 where
  done : A → Outcome A
  failed : Failure → Outcome A

-- the requests that the execution layer makes
pub data Call (F : Type 0) : Type 0 where
  -- symbol, side, quantity and client order id
  send_order : String → String → F → String → Call F
  send_oco : OcoOrder F → Call F
  -- symbol and client order id
  ask_order : String → String → Call F
  ask_order_list : String → Call F
  cancel_list : String → String → Call F
  -- symbol and order id
  ask_fills : String → String → Call F
  ask_account ask_market : Call F

pub record Event (F : Type 0) : Type 0 where
  pub call : Call F
  pub before : Store F

-- what the broker remembers of its last inventory check
pub record Inventory (F : Type 0) : Type 0 where
  pub checked_at : F
  pub issue : Option String

pub record World (F : Type 0) : Type 0 where
  pub store : Store F
  pub calls : List (Event F)
  pub inventory : Inventory F

abbrev pub Act : Type 0 → Type 0 → Type 0
Act F A = World F → Outcome A × World F

-- an answer of the exchange, or the text of the exception
pub data Reply (A : Type 0) : Type 0 where
  answer : A → Reply A
  failure : String → Reply A

abbrev pub logged : {F : Type 0} → Call F → World F → World F
logged k w = record w { calls = record { call = k; before = w.store } ∷ w.calls }

module _ {F A : Type 0} where
  unfoldable pub pure : A → Act F A
  pure a w = (done a, w)

  unfoldable pub fail : String → Act F A
  fail e w = (failed (message e), w)

  unfoldable pub rethrow : Failure → Act F A
  rethrow e w = (failed e, w)

  unfoldable pub reads : (Store F → A) → Act F A
  reads f w = (done (f w.store), w)

  -- the number of requests so far stands for the clock and for fresh ids
  unfoldable pub observes : (List (Event F) → A) → Act F A
  observes f w = (done (f w.calls), w)

  abbrev pub received : Reply A → World F → Outcome A × World F
  received (answer a) w = (done a, w)
  received (failure e) w = (failed (message e), w)

  -- a request
  unfoldable pub ask : Call F → (List (Event F) → Reply A) → Act F A
  ask k f w = received (f w.calls) (logged k w)

  abbrev pub stored : World F → Result A × Store F → Outcome A × World F
  stored w (ok a, s) = (done a, record w { store = s })
  stored w (err e, s) = (failed (db_error e), record w { store = s })

  -- a call of the store
  unfoldable pub db : Tx F A → Act F A
  db m w = stored w (connection m w.store)

  -- a required value
  unfoldable pub need : Option A → String → Act F A
  need none e w = (failed (message e), w)
  need (some a) e w = (done a, w)

unfoldable pub recall : {F : Type 0} → Act F (Inventory F)
recall w = (done w.inventory, w)

unfoldable pub remember : {F : Type 0} → Inventory F → Act F (Unit {0})
remember i w = (done tt, record w { inventory = i })

unfoldable pub fail_if : {F : Type 0} → Bool → String → Act F (Unit {0})
fail_if b e w = if b then (failed (message e), w) else (done tt, w)

abbrev pub resume : {F A B : Type 0} → Outcome A × World F → (A → Act F B) → Outcome B × World F
resume (done a, w) f = f a w
resume (failed e, w) f = (failed e, w)

abbrev pub recover :
    {F A : Type 0} → Outcome A × World F → (Failure → Act F A) → Outcome A × World F
recover (done a, w) h = (done a, w)
recover (failed e, w) h = h e w

infixl 5 ◌>>=◌ ◌>>◌
unfoldable pub ◌>>=◌ : {F A B : Type 0} → Act F A → (A → Act F B) → Act F B
◌>>=◌ m f w = resume (m w) f

abbrev pub ◌>>◌ : {F B : Type 0} → Act F (Unit {0}) → Act F B → Act F B
m >> k = m >>= λ _. k

-- `try: m except Exception as e: h(e)`
unfoldable pub catch : {F A : Type 0} → Act F A → (Failure → Act F A) → Act F A
catch m h w = recover (m w) h
