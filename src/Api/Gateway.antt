-- ===== src/Api/Gateway.antt =====
-- gen/go/dbank/v1/account.pb.gw.go and gen/go/dbank/v1/transaction.pb.gw.go: the routes of the JSON
-- gateway, the message that it reads from a request, and its call of the service.
use dbank.Prelude.{ℕ, String, Option, none, some, List, [], ◌∷◌, ◌++◌, ◌==◌, if◌then◌else◌}
use dbank.Status.{⊤, Error, status, wrapped, recoded, invalid_argument, Result, ok, err, and_then}
use dbank.Service.Accounts.{CreateAccountRequest, UpdateAccountRequest}
use dbank.Service.Transactions.{CreateTransactionRequest}
use dbank.Service.Bank.{Bank}
use dbank.Api.{
  Method, create_account, get_account, list_accounts, update_account, delete_account,
  create_transaction, get_transaction, Message, Reply, failed, unrouted,
}

-- A part of a path: a literal, or a parameter with its name.
pub data Segment : Type 0 where
  literal parameter : String → Segment

abbrev pub Pattern : Type 0
Pattern = List Segment

abbrev pub accounts_pattern : Pattern
accounts_pattern = literal "dbank" ∷ literal "v1" ∷ literal "accounts" ∷ []

abbrev pub account_pattern : Pattern
account_pattern = literal "dbank" ∷ literal "v1" ∷ literal "accounts" ∷ parameter "id" ∷ []

abbrev pub transactions_pattern : Pattern
transactions_pattern = literal "dbank" ∷ literal "v1" ∷ literal "transactions" ∷ []

abbrev pub transaction_pattern : Pattern
transaction_pattern = literal "dbank" ∷ literal "v1" ∷ literal "transactions" ∷ parameter "id" ∷ []

-- One call of mux.Handle.
pub record Route : Type 0 where
  pub http_method : String
  pub pattern_of : Pattern
  pub method : Method

abbrev pub route_to : String → Pattern → Method → Route
route_to http_method pattern_of method = record {
  http_method = http_method;
  pattern_of = pattern_of;
  method = method;
}

abbrev pub account_routes : List Route
account_routes =
    route_to "POST" accounts_pattern create_account
    ∷ route_to "GET" account_pattern get_account
    ∷ route_to "GET" accounts_pattern list_accounts
    ∷ route_to "PUT" account_pattern update_account
    ∷ route_to "DELETE" account_pattern delete_account
    ∷ []

abbrev pub transaction_routes : List Route
transaction_routes =
    route_to "POST" transactions_pattern create_transaction
    ∷ route_to "GET" transaction_pattern get_transaction
    ∷ []

-- Both registrations, as NewServer makes them.
abbrev pub routes : List Route
routes = account_routes ++ transaction_routes

pub record HttpRequest : Type 0 where
  pub http_method : String
  pub path : String
  pub query : String
  pub body : String

abbrev pub PathParams : Type 0
PathParams = List (String × String)

-- How a body was decoded: `end_of_file` comes with io.EOF and what was decoded before it.
pub data Decoded (A : Type 0) : Type 0 where
  decoded : A → Decoded A
  end_of_file : A → Decoded A
  undecodable : Error → Decoded A

-- The gateway's library: whether a pattern matches a path, the route that the mux finds, the annotation
-- of the context for a server and for a client, the decoding of a body, of a form and of its fields,
-- and runtime.String.
pub record Runtime : Type 0 where
  pub matches : Pattern → String → Option PathParams
  pub find_route : List Route → HttpRequest → Option (Method × PathParams)
  pub annotate : Method → HttpRequest → Option Error
  pub annotate_outgoing : Method → HttpRequest → Option Error
  pub decode : (m : Method) → String → Decoded (Message m)
  pub parse_form : String → Result ⊤
  pub populate_query_parameters : String → Result (ℕ × ℕ)
  pub string : String → Result String

-- `err != nil && err != io.EOF`
abbrev pub read_body : {A : Type 0} → Decoded A → Result A
read_body (decoded a) = ok a
read_body (end_of_file a) = ok a
read_body (undecodable e) = err (recoded invalid_argument e)

abbrev pub recode : {A : Type 0} → Result A → Result A
recode (ok a) = ok a
recode (err e) = err (recoded invalid_argument e)

abbrev pub mismatch : {A : Type 0} → Result A → Result A
mismatch (ok a) = ok a
mismatch (err e) = err (wrapped invalid_argument "type mismatch, parameter: id, error" e)

abbrev pub lookup_param : String → PathParams → Option String
lookup_param name [] = none
lookup_param name ((k, v) ∷ params) = if k == name then some v else lookup_param name params

module _ (rt : Runtime) where
  abbrev pub read_param : Option String → Result String
  read_param none = err (status invalid_argument "missing parameter id")
  read_param (some val) = mismatch (rt.string val)

  abbrev pub path_id : PathParams → Result String
  path_id params = read_param (lookup_param "id" params)

  -- The request and local_request functions of each method, up to their call.
  abbrev pub read_create_account : HttpRequest → Result CreateAccountRequest
  read_create_account req = read_body (rt.decode create_account req.body)

  abbrev pub read_get_account : PathParams → Result String
  read_get_account params = path_id params

  abbrev pub read_list_accounts : HttpRequest → Result (ℕ × ℕ)
  read_list_accounts req =
      and_then (recode (rt.parse_form req.query))
        λ _. recode (rt.populate_query_parameters req.query)

  abbrev pub read_update_account : HttpRequest → PathParams → Result UpdateAccountRequest
  read_update_account req params =
      and_then (read_body (rt.decode update_account req.body))
        λ message. and_then (path_id params) λ id. ok (record message { id = id })

  abbrev pub read_delete_account : PathParams → Result String
  read_delete_account params = path_id params

  abbrev pub read_create_transaction : HttpRequest → Result CreateTransactionRequest
  read_create_transaction req = read_body (rt.decode create_transaction req.body)

  abbrev pub read_get_transaction : PathParams → Result String
  read_get_transaction params = path_id params

  unfoldable pub read_request : (m : Method) → HttpRequest → PathParams → Result (Message m)
  read_request create_account req params = read_create_account req
  read_request get_account req params = read_get_account params
  read_request list_accounts req params = read_list_accounts req
  read_request update_account req params = read_update_account req params
  read_request delete_account req params = read_delete_account params
  read_request create_transaction req params = read_create_transaction req
  read_request get_transaction req params = read_get_transaction params

  module _ (respond : (m : Method) → ℕ → Message m → Bank → Reply × Bank) where
    abbrev pub respond_to : (m : Method) → ℕ → Result (Message m) → Bank → Reply × Bank
    respond_to m n (ok message) b = respond m n message b
    respond_to m n (err e) b = (failed e, b)

    -- The function that a route registers; `annotated` is the error of the annotation of its context.
    abbrev pub handle_route :
        Option Error → (m : Method) → ℕ → HttpRequest → PathParams → Bank → Reply × Bank
    handle_route (some e) m n req params b = (failed e, b)
    handle_route none m n req params b = respond_to m n (read_request m req params) b

    abbrev pub serve_with : (Method → Option Error) → ℕ → HttpRequest → Bank → Reply × Bank
    serve_with annotated n req b = elim (rt.find_route routes req) [
      | none ↦ (unrouted, b)
      | some (m, params) ↦ handle_route (annotated m) m n req params b
    ]

    -- The gateway that RegisterAccountServiceHandlerServer and
    -- RegisterTransactionServiceHandlerServer open over the services themselves.
    unfoldable pub serve_gateway : ℕ → HttpRequest → Bank → Reply × Bank
    serve_gateway n req b = serve_with (λ m. rt.annotate m req) n req b
