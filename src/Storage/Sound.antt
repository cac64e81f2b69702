-- ===== src/Storage/Sound.antt =====
-- What holds of the tables between two transactions, and which row updates keep it.
use binance_bot.Base.{
  ℕ, ◌<◌, ◌≤◌, ◌≡◌, refl, Bool, true, false, String, List, [], ◌∷◌, arith, any, update_where,
}
use binance_bot.Config.{Mode}
use binance_bot.Storage.Rows.{Store, Trade, OrderRow, is_open, open_for}
use binance_bot.Storage.Orders.{has_client_id}

module _ {F : Type 0} where
  -- At most one row of each (mode, symbol) is open: the unique index of the table.
  abbrev pub OnePerMarket : List (Trade F) → Type 0
  OnePerMarket [] = Unit
  OnePerMarket (t ∷ ts) =
      (is_open t.status ≡ true → any (open_for t.mode t.symbol) ts ≡ false) × OnePerMarket ts

  -- Row ids fall along the table and lie below a bound, so no two are equal.
  abbrev pub Descending : ℕ → List (Trade F) → Type 0
  Descending n [] = Unit
  Descending n (t ∷ ts) = (t.id < n) × Descending t.id ts

  -- No client order id is used twice.
  abbrev pub UniqueClients : List (OrderRow F) → Type 0
  UniqueClients [] = Unit
  UniqueClients (o ∷ os) = (any (has_client_id o.client_order_id) os ≡ false) × UniqueClients os

  pub record IsSound (s : Store F) : Type 0 where
    pub one_open : OnePerMarket s.trades
    pub ids : Descending s.next_trade s.trades
    pub clients : UniqueClients s.orders

  -- A change of a trade row that keeps its identity and its market, and does not reopen it.
  pub record KeepsRow (f : Trade F → Trade F) : Type 0 where
    pub id : (t : Trade F) → (f t).id ≡ t.id
    pub mode : (t : Trade F) → (f t).mode ≡ t.mode
    pub symbol : (t : Trade F) → (f t).symbol ≡ t.symbol
    pub shut : (t : Trade F) → is_open (f t).status ≡ true → is_open t.status ≡ true

  any-update_trades :
      (f : Trade F → Trade F) (k : KeepsRow f) (q : Trade F → Bool) (m : Mode) (s : String)
      (ts : List (Trade F))
      → any (open_for m s) ts ≡ false
      → any (open_for m s) (update_where q f ts) ≡ false
  any-update_trades f k q m s [] h = refl
  any-update_trades f k q m s (t ∷ ts) h =
      ground (arith, k.mode t, k.symbol t, k.shut t, any-update_trades f k q m s ts)

  OnePerMarket-update :
      (f : Trade F → Trade F) (k : KeepsRow f) (q : Trade F → Bool) (ts : List (Trade F))
      → OnePerMarket ts
      → OnePerMarket (update_where q f ts)
  OnePerMarket-update f k q [] h = tt
  OnePerMarket-update f k q (t ∷ ts) h = ground (
    arith,
    k.mode t,
    k.symbol t,
    k.shut t,
    any-update_trades f k q t.mode t.symbol ts,
    OnePerMarket-update f k q ts h.1,
  )

  Descending-update :
      (f : Trade F → Trade F) (k : KeepsRow f) (q : Trade F → Bool) (n : ℕ) (ts : List (Trade F))
      → Descending n ts
      → Descending n (update_where q f ts)
  Descending-update f k q n [] h = tt
  Descending-update f k q n (t ∷ ts) h = ground (arith, k.id t, Descending-update f k q t.id ts h.1)

  pub IsSound-update :
      (f : Trade F → Trade F) (k : KeepsRow f) (q : Trade F → Bool) (s : Store F)
      → IsSound s
      → IsSound (record s { trades = update_where q f s.trades })
  IsSound-update f k q s h = record {
    one_open = OnePerMarket-update f k q s.trades h.one_open;
    ids = Descending-update f k q s.next_trade s.trades h.ids;
    clients = h.clients;
  }

  any-update_orders :
      (f : OrderRow F → OrderRow F)
      → ((o : OrderRow F) → (f o).client_order_id ≡ o.client_order_id)
      → (q : OrderRow F → Bool) (c : String) (os : List (OrderRow F))
      → any (has_client_id c) os ≡ false
      → any (has_client_id c) (update_where q f os) ≡ false
  any-update_orders f k q c [] h = refl
  any-update_orders f k q c (o ∷ os) h = ground (arith, k o, any-update_orders f k q c os)

  pub UniqueClients-update :
      (f : OrderRow F → OrderRow F)
      → ((o : OrderRow F) → (f o).client_order_id ≡ o.client_order_id)
      → (q : OrderRow F → Bool) (os : List (OrderRow F)) → UniqueClients os
      → UniqueClients (update_where q f os)
  UniqueClients-update f k q [] h = tt
  UniqueClients-update f k q (o ∷ os) h =
      ground (
        arith,
        k o,
        any-update_orders f k q o.client_order_id os,
        UniqueClients-update f k q os h.1,
      )

  pub Descending-raise : (n m : ℕ) (ts : List (Trade F)) → n ≤ m → Descending n ts → Descending m ts
  Descending-raise n m [] le h = tt
  Descending-raise n m (t ∷ ts) le h = (omega arith, h.1)
