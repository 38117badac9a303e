-- ===== src/Api.antt =====
-- The methods of the two gRPC services, as gen/go/dbank/v1 declares them, and their handlers.
pub mod Grpc
pub mod Gateway
pub mod Calls
pub mod Served
pub mod Remote
pub mod Endpoint
use dbank.Prelude.{ℕ, String}
use dbank.Status.{Error, Result, ok, err, Exec}
use dbank.Sql.{Driver}
use dbank.Broker.{Broker}
use dbank.Store.Requests.{Float64}
use dbank.Service.Bank.{Bank}
use dbank.Service.Accounts.{
  CreateAccountRequest, UpdateAccountRequest, AccountResponse, ListAccountsResponse,
  DeleteAccountResponse, Secrets, create_account_handler, list_accounts_handler,
  get_account_handler, update_account_handler, delete_account_handler,
}
use dbank.Service.Transactions.{
  Decimals, CreateTransactionRequest, CreateTransactionResponse, GetTransactionResponse,
  create_transaction_handler, get_transaction_handler,
}

pub data Method : Type 0 where
  create_account get_account list_accounts update_account delete_account : Method
  create_transaction get_transaction : Method

-- The message that each method takes; a message with one field is that field, and the two fields of
-- ListAccountsRequest are its page and its page size.
abbrev pub Message : Method → Type 0
Message create_account = CreateAccountRequest
Message get_account = String
Message list_accounts = ℕ × ℕ
Message update_account = UpdateAccountRequest
Message delete_account = String
Message create_transaction = CreateTransactionRequest
Message get_transaction = String

-- The message that each method answers with.
abbrev pub Answer : Method → Type 0
Answer create_account = AccountResponse
Answer get_account = AccountResponse
Answer list_accounts = ListAccountsResponse
Answer update_account = AccountResponse
Answer delete_account = DeleteAccountResponse
Answer create_transaction = CreateTransactionResponse
Answer get_transaction = GetTransactionResponse

-- What a client gets: an answer of the method that it called, an error of the server, or the
-- library's own reply to a call of nothing that the server has.
pub data Reply : Type 0 where
  answered : (m : Method) → Answer m → Reply
  failed : Error → Reply
  unrouted : Reply

abbrev pub reply_of : (m : Method) → Result (Answer m) → Reply
reply_of m (ok a) = answered m a
reply_of m (err e) = failed e

-- The two services over one store; `n` numbers the identifiers that CreateAccount draws.
module _ {F : Type 0} (fl : Float64 F) (dec : Decimals) (sec : Secrets) (d : Driver)
    (mq : Broker) where
  unfoldable pub call : (m : Method) → ℕ → Message m → Exec Bank (Answer m)
  call create_account n req = create_account_handler fl sec d n req
  call get_account n id = get_account_handler fl sec d id
  call list_accounts n (page, page_size) = list_accounts_handler fl sec d page page_size
  call update_account n req = update_account_handler fl sec d req
  call delete_account n id = delete_account_handler fl sec d id
  call create_transaction n req = create_transaction_handler fl dec d mq req
  call get_transaction n id = get_transaction_handler dec d id

  -- The call and its reply.
  unfoldable pub respond : (m : Method) → ℕ → Message m → Bank → Reply × Bank
  respond m n message b = let (r, b') = call m n message b in (reply_of m r, b')
