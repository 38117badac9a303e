-- ===== src/Api/Calls.antt =====
-- A client's call of a method, over HTTP and over gRPC, and what the libraries make of it.
pub mod Answered
use Prim.Native.String.{◌++◌}
use dbank.Prelude.{
  ℕ, String, ◌≡◌, refl, Bool, true, false, Option, List, none, some, [], ◌∷◌, ◌==◌, if◌then◌else◌,
  arith,
}
use dbank.Status.{ok}
use dbank.Service.Bank.{Bank}
use dbank.Api.{
  Method, create_account, get_account, list_accounts, update_account, delete_account,
  create_transaction, get_transaction, Message, Reply,
}
use dbank.Api.Gateway.{
  literal, parameter, Pattern, accounts_pattern, account_pattern, transactions_pattern,
  transaction_pattern, HttpRequest, PathParams, Runtime, decoded, Route, handle_route, respond_to,
  serve_with, serve_gateway, read_request, routes,
}
use dbank.Api.Grpc.{Transport, ServiceDesc, registered, full_method_name, invoke, serve_grpc}

-- The four patterns of the routes.
pub data Resource : Type 0 where
  accounts account transactions transaction : Resource

abbrev pub pattern_for : Resource → Pattern
pattern_for accounts = accounts_pattern
pattern_for account = account_pattern
pattern_for transactions = transactions_pattern
pattern_for transaction = transaction_pattern

abbrev pub resource_of : Method → Resource
resource_of create_account = accounts
resource_of get_account = account
resource_of list_accounts = accounts
resource_of update_account = account
resource_of delete_account = account
resource_of create_transaction = transactions
resource_of get_transaction = transaction

-- The path parameters of a path that has `id` in the place of a parameter.
abbrev pub captures : Pattern → String → PathParams
captures [] id = []
captures (literal _ ∷ p) id = captures p id
captures (parameter name ∷ p) id = (name, id) ∷ captures p id

-- Two patterns that no path matches both: their lengths or two of their literals differ.
abbrev pub apart : Pattern → Pattern → Bool
apart [] [] = false
apart [] (_ ∷ _) = true
apart (_ ∷ _) [] = true
apart (literal a ∷ p) (literal b ∷ q) = if a == b then apart p q else true
apart (literal a ∷ p) (parameter b ∷ q) = apart p q
apart (parameter a ∷ p) (s ∷ q) = apart p q

-- What a client writes: a path for a pattern and an id, a body, a query. `component` says which texts
-- a path can hold as one of its parts.
pub record Client : Type 0 where
  pub component : String → Bool
  pub path_to : Pattern → String → String
  pub encode : (m : Method) → Message m → String
  pub query_of : ℕ × ℕ → String

abbrev pub Fits : Client → Pattern → String → Type 0
Fits c [] id = Unit
Fits c (literal _ ∷ p) id = Fits c p id
Fits c (parameter _ ∷ p) id = (c.component id ≡ true) × Fits c p id

-- The id that goes into the path.
abbrev pub id_in : (m : Method) → Message m → String
id_in get_account id = id
id_in update_account req = req.id
id_in delete_account id = id
id_in get_transaction id = id
id_in _ _ = ""

module _ (c : Client) where
  abbrev request_with : String → Pattern → String → String → String → HttpRequest
  request_with http_method p id query body = record {
    http_method = http_method;
    path = c.path_to p id;
    query = query;
    body = body;
  }

  -- The HTTP request for a call, as the comments of the .proto files' routes have it.
  abbrev pub http_request : (m : Method) → Message m → HttpRequest
  http_request create_account req =
      request_with "POST" accounts_pattern "" "" (c.encode create_account req)
  http_request get_account id = request_with "GET" account_pattern id "" ""
  http_request list_accounts page = request_with "GET" accounts_pattern "" (c.query_of page) ""
  http_request update_account req =
      request_with "PUT" account_pattern req.id "" (c.encode update_account req)
  http_request delete_account id = request_with "DELETE" account_pattern id "" ""
  http_request create_transaction req =
      request_with "POST" transactions_pattern "" "" (c.encode create_transaction req)
  http_request get_transaction id = request_with "GET" transaction_pattern id "" ""

-- The query of a list is read back as it was written.
abbrev pub ReadsQuery : Runtime → Client → (m : Method) → Message m → Type 0
ReadsQuery rt c list_accounts page =
    (rt.parse_form (c.query_of page) ≡ ok tt)
    × (rt.populate_query_parameters (c.query_of page) ≡ ok page)
ReadsQuery rt c _ _ = Unit

-- The routes of the request's HTTP method whose pattern matches its path.
abbrev pub hit : Option PathParams → Route → List (Method × PathParams) → List (Method × PathParams)
hit none r rest = rest
hit (some params) r rest = (r.method, params) ∷ rest

abbrev pub hits :
    (Pattern → String → Option PathParams) → List Route → HttpRequest → List (Method × PathParams)
hits matches [] req = []
hits matches (r ∷ rs) req =
    let rest = hits matches rs req in
    if r.http_method == req.http_method then hit (matches r.pattern_of req.path) r rest else rest

-- The library of the gateway understands what the client writes: a path matches its own pattern and
-- none that is apart from it, a request that one route matches is given to that route, and a message
-- is read back as it was written.
pub record Understands (rt : Runtime) (c : Client) (m : Method) (message : Message m) : Type 0 where
  pub own :
      (r : Resource) (id : String)
      → Fits c (pattern_for r) id
      → rt.matches (pattern_for r) (c.path_to (pattern_for r) id)
        ≡ some (captures (pattern_for r) id)
  pub other :
      (r s : Resource) (id : String)
      → Fits c (pattern_for r) id
      → apart (pattern_for r) (pattern_for s) ≡ true
      → rt.matches (pattern_for s) (c.path_to (pattern_for r) id) ≡ none
  pub finds :
      (req : HttpRequest) (found : Method × PathParams)
      → hits rt.matches routes req ≡ found ∷ []
      → rt.find_route routes req ≡ some found
  pub annotates : rt.annotate m (http_request c m message) ≡ none
  pub decodes : rt.decode m (c.encode m message) ≡ decoded message
  pub queries : ReadsQuery rt c m message
  pub strings : (id : String) → rt.string id ≡ ok id

-- The methods of the registered services that have a full name.
abbrev pub offers_of : String → String → List (String × Method) → List Method → List Method
offers_of service full_method [] rest = rest
offers_of service full_method ((name, m) ∷ methods) rest =
    let others = offers_of service full_method methods rest in
    if "/" ++ service ++ "/" ++ name == full_method then m ∷ others else others

abbrev pub offers : List ServiceDesc → String → List Method
offers [] full_method = []
offers (desc ∷ descs) full_method =
    offers_of desc.service_name full_method desc.methods (offers descs full_method)

-- The gRPC library gives a call to the one method that has its full name, and reads a message back as
-- it was written.
pub record Carries {B : Type 0} (t : Transport B) (m : Method) (message : Message m) : Type 0 where
  pub finds :
      (full_method : String) (found : Method)
      → offers registered full_method ≡ found ∷ []
      → t.find_method registered full_method ≡ some found
  pub unmarshals : t.unmarshal m (t.marshal m message) ≡ ok message
