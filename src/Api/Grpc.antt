-- ===== src/Api/Grpc.antt =====
-- gen/go/dbank/v1/account_grpc.pb.go and gen/go/dbank/v1/transaction_grpc.pb.go: the names by which a
-- client calls a method, the tables by which the server finds it, and the handlers of the tables.
use dbank.Prelude.{ℕ, String, Option, none, some, List, [], ◌∷◌}
use dbank.Status.{Result, ok, err}
use dbank.Api.{Method, Message, Reply, failed, unrouted}
use dbank.Api.{
  create_account, get_account, list_accounts, update_account, delete_account, create_transaction,
  get_transaction,
}
use dbank.Service.Bank.{Bank}

-- The constants with which the client's stubs call Invoke.
abbrev pub full_method_name : Method → String
full_method_name create_account = "/dbank.v1.AccountService/CreateAccount"
full_method_name get_account = "/dbank.v1.AccountService/GetAccount"
full_method_name list_accounts = "/dbank.v1.AccountService/ListAccounts"
full_method_name update_account = "/dbank.v1.AccountService/UpdateAccount"
full_method_name delete_account = "/dbank.v1.AccountService/DeleteAccount"
full_method_name create_transaction = "/dbank.v1.TransactionService/CreateTransaction"
full_method_name get_transaction = "/dbank.v1.TransactionService/GetTransaction"

-- A grpc.ServiceDesc: the name of the service, and of each method with its handler.
pub record ServiceDesc : Type 0 where
  pub service_name : String
  pub methods : List (String × Method)

abbrev pub account_service_desc : ServiceDesc
account_service_desc = record {
  service_name = "dbank.v1.AccountService";
  methods =
      ("CreateAccount", create_account)
      ∷ ("GetAccount", get_account)
      ∷ ("ListAccounts", list_accounts)
      ∷ ("UpdateAccount", update_account)
      ∷ ("DeleteAccount", delete_account)
      ∷ [];
}

abbrev pub transaction_service_desc : ServiceDesc
transaction_service_desc = record {
  service_name = "dbank.v1.TransactionService";
  methods = ("CreateTransaction", create_transaction) ∷ ("GetTransaction", get_transaction) ∷ [];
}

-- RegisterAccountServiceServer and RegisterTransactionServiceServer, as NewServer calls them.
abbrev pub registered : List ServiceDesc
registered = account_service_desc ∷ transaction_service_desc ∷ []

-- What the gRPC library does for both sides: the method that a full name selects of the services that
-- are registered, and the encoding of the messages as `B`.
pub record Transport (B : Type 0) : Type 0 where
  pub find_method : List ServiceDesc → String → Option Method
  pub marshal : (m : Method) → Message m → B
  pub unmarshal : (m : Method) → B → Result (Message m)

-- What a stub of the client passes to Invoke.
unfoldable pub invoke : {B : Type 0} → Transport B → (m : Method) → Message m → String × B
invoke t m message = (full_method_name m, t.marshal m message)

module _ {B : Type 0} (t : Transport B)
    (respond : (m : Method) → ℕ → Message m → Bank → Reply × Bank) where
  -- A grpc.UnaryServerInterceptor, from the full name, the message and the handler.
  abbrev Interceptor : Type 0
  Interceptor =
      (m : Method) → String → Message m → (Message m → Bank → Reply × Bank) → Bank → Reply × Bank

  -- The handler of a method, once its message is decoded.
  abbrev method_handler :
      Option Interceptor → (m : Method) → ℕ → Result (Message m) → Bank → Reply × Bank
  method_handler none m n (ok message) b = respond m n message b
  method_handler (some interceptor) m n (ok message) b =
      interceptor m (full_method_name m) message (respond m n) b
  method_handler _ m n (err e) b = (failed e, b)

  -- NewServer gives the server no option, so that it has no interceptor.
  abbrev dispatch : Option Method → ℕ → B → Bank → Reply × Bank
  dispatch none n bytes b = (unrouted, b)
  dispatch (some m) n bytes b = method_handler none m n (t.unmarshal m bytes) b

  -- One call that arrives at the gRPC server.
  unfoldable pub serve_grpc : ℕ → String → B → Bank → Reply × Bank
  serve_grpc n full_method bytes b = dispatch (t.find_method registered full_method) n bytes b
