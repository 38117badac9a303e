-- ===== src/Service/Transactions.antt =====
-- app/service/transactions.go: CreateTransaction and GetTransaction.
pub mod Success
pub mod Guards
pub mod Ended
pub mod Money
pub mod Transfer
pub mod Solvency
use dbank.Prelude.{ℕ, String, Bool, true, false, not, ◌==◌, if◌then◌else◌}
use Prim.Native.String.{◌++◌}
use dbank.Prelude.Int.{ℤ, pos, ◌+ℤ◌, ◌-ℤ◌, leb_ℤ, ltb_ℤ}
use dbank.Status.{
  ⊤, Error, Result, ok, err, status, invalid_argument, internal, Exec, pure, ◌>>=◌, ◌>>◌,
}
use dbank.Sql.{Driver, World}
use dbank.Store.Requests.{Float64, AccountDetails, TransactionRequest, Transaction}
use dbank.Store.Accounts.{get_account}
use dbank.Store.Transactions.{create_transaction, get_transaction}
use dbank.Broker.{
  Broker, TransactionEvent, publish_event, transaction_exchange, transaction_success_route,
}
use dbank.Service.Bank.{Bank, require, lift, wrap, or_wrap}

pub record CreateTransactionRequest : Type 0 where
  pub from_account_id : String
  pub to_account_id : String
  pub transaction_type : String
  pub amount : String
  pub currency : String
  pub description : String

pub record CreateTransactionResponse : Type 0 where
  pub id : String
  pub from_account_id : String
  pub to_account_id : String
  pub transaction_type : String
  pub amount : String
  pub currency : String
  pub description : String
  pub status : String
  pub created_at : String

pub record GetTransactionResponse : Type 0 where
  pub id : String
  pub from_account_id : String
  pub to_account_id : String
  pub transaction_type : String
  pub amount : String
  pub currency : String
  pub description : String
  pub status : String
  pub created_at : String

-- shopspring/decimal's NewFromString and String, and the text of a time that pgx scans.
pub record Decimals : Type 0 where
  pub new_from_string : String → Result ℤ
  pub to_string : ℤ → String
  pub time_text : ℕ → String

abbrev invalid : String → Error
invalid m = status invalid_argument m

module _ (dec : Decimals) where
  -- The checks that need no database, in their order. The result is the parsed amount.
  unfoldable pub validate : {S : Type 0} → CreateTransactionRequest → Exec S ℤ
  unfolding require lift
  validate req = do
    require (not (req.from_account_id == "")) (invalid "from_account_id is required")
    require (not (req.to_account_id == "")) (invalid "to_account_id is required")
    amount ← lift (wrap invalid_argument "invalid amount format" (dec.new_from_string req.amount))
    require (not (leb_ℤ amount (pos 0))) (invalid "amount must be positive")
    require (not (req.currency == "")) (invalid "currency is required")
    pure amount

-- What CreateTransaction works out before it writes.
pub record Plan (F : Type 0) : Type 0 where
  pub amount : ℤ
  pub from_account : AccountDetails F
  pub to_account : AccountDetails F

-- "Generate transaction ID": the two ids of the request, joined.
abbrev pub transaction_id_of : CreateTransactionRequest → String
transaction_id_of req = req.from_account_id ++ req.to_account_id

abbrev pub response_of : CreateTransactionRequest → CreateTransactionResponse
response_of req = record {
  id = transaction_id_of req;
  from_account_id = req.from_account_id;
  to_account_id = req.to_account_id;
  transaction_type = req.transaction_type;
  amount = req.amount;
  currency = req.currency;
  description = req.description;
  status = "success";
  created_at = "";
}

abbrev pub event_of : CreateTransactionRequest → ℕ → TransactionEvent
event_of req now = record {
  transaction_id = transaction_id_of req;
  from_account_id = req.from_account_id;
  to_account_id = req.to_account_id;
  transaction_type = req.transaction_type;
  amount = req.amount;
  currency = req.currency;
  status = "success";
  description = req.description;
  timestamp = now;
}

-- The event is published if there is a client; a failure is logged and not returned.
unfoldable pub announce : Broker → CreateTransactionRequest → Exec Bank ⊤
announce mq req b =
    let now = mq.unix_time b.exchange.calls in
    let sent =
      publish_event mq transaction_exchange transaction_success_route (event_of req now)
        b.exchange in
    (ok tt, if mq.connected then record b { exchange = sent.1 } else b)

module _ {F : Type 0} (fl : Float64 F) (dec : Decimals) (d : Driver) where
  -- The balances that the code writes: the one of the sender, and the one of the receiver.
  abbrev pub new_from_balance : Plan F → ℤ
  new_from_balance p = fl.new_from_float p.from_account.balance -ℤ p.amount

  abbrev pub new_to_balance : Plan F → ℤ
  new_to_balance p = fl.new_from_float p.to_account.balance +ℤ p.amount

  abbrev pub store_request : CreateTransactionRequest → Plan F → TransactionRequest
  store_request req p = record {
    transaction_id = "";
    from_account_id = req.from_account_id;
    from_account_balance = new_from_balance p;
    to_account_id = req.to_account_id;
    to_account_balance = new_to_balance p;
    transaction_type = req.transaction_type;
    amount = p.amount;
    currency = req.currency;
    description = req.description;
    status = "success";
  }

  -- CreateTransaction up to its first write, from the end: the checks of the two accounts.
  unfoldable pub settle_plan : ℤ → AccountDetails F → AccountDetails F → Exec Bank (Plan F)
  unfolding require
  settle_plan amount from_account to_account = do
    require (not (ltb_ℤ (fl.new_from_float from_account.balance) amount))
        (invalid "insufficient balance in from account")
    require (not (from_account.id == to_account.id))
        (invalid "from and to account cannot be the same")
    pure (record { amount = amount; from_account = from_account; to_account = to_account })

  -- The second read.
  unfoldable pub read_receiver :
      CreateTransactionRequest → ℤ → AccountDetails F → Exec Bank (Plan F)
  read_receiver req amount from_account = do
    to_account ← or_wrap internal "failed to get to account" (get_account fl d req.to_account_id)
    settle_plan amount from_account to_account

  -- The first read.
  unfoldable pub read_sender : CreateTransactionRequest → ℤ → Exec Bank (Plan F)
  read_sender req amount = do
    from_account ←
        or_wrap internal "failed to get from account" (get_account fl d req.from_account_id)
    read_receiver req amount from_account

  -- The guards and the two reads.
  unfoldable pub plan : CreateTransactionRequest → Exec Bank (Plan F)
  plan req = do amount ← validate dec req; read_sender req amount

  -- The call of the store; the request that it marks on an error is dropped.
  unfoldable pub submit : TransactionRequest → Exec World ⊤
  submit req w = let (r, _, w') = create_transaction d req w in (r, w')

  unfoldable pub create_transaction_handler :
      Broker → CreateTransactionRequest → Exec Bank CreateTransactionResponse
  create_transaction_handler mq req = do
    p ← plan req
    or_wrap internal "failed to create transaction" (submit (store_request req p))
    announce mq req
    pure (response_of req)

-- GetTransaction. The store never returns a nil transaction with no error, so that test is dead.
unfoldable pub get_transaction_handler :
    Decimals → Driver → String → Exec Bank GetTransactionResponse
unfolding require
get_transaction_handler dec d id = do
  require (not (id == "")) (invalid "transaction id is required")
  t ← or_wrap internal "failed to get transaction" (get_transaction d id)
  pure (record {
    id = t.transaction_id;
    from_account_id = t.from_account_id;
    to_account_id = t.to_account_id;
    transaction_type = t.transaction_type;
    amount = dec.to_string t.amount;
    currency = t.currency;
    description = t.description;
    status = t.status;
    created_at = dec.time_text t.created_at;
  })
