-- ===== src/Tests/Api.antt =====
-- One call through both doors of the server: gen/go/dbank/v1 and app/server.go.
use Prim.Native.String.{◌++◌}
use dbank.Prelude.{
  String, ◌≡◌, refl, sym, ap, List, subst, true, Option, none, some, [], ◌∷◌, ◌==◌, if◌then◌else◌,
  eq_iff,
}
use dbank.Status.{Result, ok, err, message}
use dbank.Api.{
  Method, create_account, get_account, list_accounts, update_account, delete_account,
  create_transaction, get_transaction, Message, Answer, Reply, answered, failed,
}
use dbank.Api.Gateway.{
  Pattern, literal, parameter, PathParams, Decoded, decoded, undecodable, Runtime,
}
use dbank.Api.Grpc.{Transport}
use dbank.Api.Calls.{
  Resource, accounts, account, transactions, transaction, pattern_for, apart, captures, Client,
  Fits, Understands, Carries, hits, offers,
}
use dbank.Api.Gateway.{account_routes, transaction_routes}
use dbank.Prelude.{false, refl, eqb, if◌then◌else◌}
use dbank.Api.Endpoint.{
  Proxy, Dialler, Tended, register_handler_from_endpoint, register_all, context_done,
  register_all-closed,
}
use dbank.Tests.Sessions.{renaming}

abbrev render : Pattern → String → String
render [] id = ""
render (literal a ∷ p) id = "/" ++ a ++ render p id
render (parameter name ∷ p) id = "/" ++ id ++ render p id

abbrev pub client : Client
client = record {
  component = λ id. id == "bob";
  path_to = render;
  encode = λ _ _. "{}";
  query_of = λ _. "";
}

abbrev decode_renaming : (m : Method) → Decoded (Message m)
decode_renaming update_account = decoded renaming
decode_renaming create_account = undecodable (message "json")
decode_renaming get_account = undecodable (message "json")
decode_renaming list_accounts = undecodable (message "json")
decode_renaming delete_account = undecodable (message "json")
decode_renaming create_transaction = undecodable (message "json")
decode_renaming get_transaction = undecodable (message "json")

abbrev match_bob : Pattern → String → Option PathParams
match_bob p path = if path == render p "bob" then some (captures p "bob") else none

abbrev pub first : {A : Type 0} → List A → Option A
first [] = none
first (x ∷ _) = some x

abbrev pub runtime : Runtime
runtime = record {
  matches = match_bob;
  find_route = λ rs req. first (hits match_bob rs req);
  annotate = λ _ _. none;
  annotate_outgoing = λ _ _. none;
  decode = λ m _. decode_renaming m;
  parse_form = λ _. ok tt;
  populate_query_parameters = λ _. ok (1, 10);
  string = λ id. ok id;
}

is_bob : (id : String) → (id == "bob") ≡ true → "bob" ≡ id
is_bob id e = sym ((eq_iff id "bob").0 e)

own :
    (r : Resource) (id : String)
    → Fits client (pattern_for r) id
    → match_bob (pattern_for r) (render (pattern_for r) id) ≡ some (captures (pattern_for r) id)
own accounts id f = refl
own account id f =
    subst
      (λ i.
        match_bob (pattern_for account) (render (pattern_for account) i)
        ≡ some (captures (pattern_for account) i))
      (is_bob id f.0) refl
own transactions id f = refl
own transaction id f =
    subst
      (λ i.
        match_bob (pattern_for transaction) (render (pattern_for transaction) i)
        ≡ some (captures (pattern_for transaction) i))
      (is_bob id f.0) refl

abbrev Misses : Resource → Resource → String → Type 0
Misses r s id = match_bob (pattern_for s) (render (pattern_for r) id) ≡ none

other :
    (r s : Resource) (id : String)
    → Fits client (pattern_for r) id
    → apart (pattern_for r) (pattern_for s) ≡ true
    → Misses r s id
other accounts accounts id f a = cc
other accounts account id f a = refl
other accounts transactions id f a = refl
other accounts transaction id f a = refl
other account accounts id f a = subst (Misses account accounts) (is_bob id f.0) refl
other account account id f a = cc
other account transactions id f a = subst (Misses account transactions) (is_bob id f.0) refl
other account transaction id f a = subst (Misses account transaction) (is_bob id f.0) refl
other transactions accounts id f a = refl
other transactions account id f a = refl
other transactions transactions id f a = cc
other transactions transaction id f a = refl
other transaction accounts id f a = subst (Misses transaction accounts) (is_bob id f.0) refl
other transaction account id f a = subst (Misses transaction account) (is_bob id f.0) refl
other transaction transactions id f a = subst (Misses transaction transactions) (is_bob id f.0) refl
other transaction transaction id f a = cc

pub understood : Understands runtime client update_account renaming
understood = record {
  own = own;
  other = other;
  finds = λ req found e. ap first e;
  annotates = refl;
  decodes = refl;
  queries = tt;
  strings = λ id. refl;
}

-- A message on the wire.
abbrev pub Wire : Type 0
Wire = (m : Method) × Message m

abbrev read_as : (m : Method) → Wire → Result (Message m)
read_as create_account (create_account, req) = ok req
read_as get_account (get_account, id) = ok id
read_as list_accounts (list_accounts, page) = ok page
read_as update_account (update_account, req) = ok req
read_as delete_account (delete_account, id) = ok id
read_as create_transaction (create_transaction, req) = ok req
read_as get_transaction (get_transaction, id) = ok id
read_as _ _ = err (message "proto")

read_as-own : (m : Method) (req : Message m) → read_as m (m, req) ≡ ok req
read_as-own create_account _ = refl
read_as-own get_account _ = refl
read_as-own list_accounts _ = refl
read_as-own update_account _ = refl
read_as-own delete_account _ = refl
read_as-own create_transaction _ = refl
read_as-own get_transaction _ = refl

abbrev pub transport : Transport Wire
transport = record {
  find_method = λ descs full_method. first (offers descs full_method);
  marshal = λ m req. (m, req);
  unmarshal = read_as;
}

pub carried : (m : Method) (req : Message m) → Carries transport m req
carried m req = record { finds = λ full_method found e. ap first e; unmarshals = read_as-own m req }

abbrev answer_in : (m : Method) → Reply → Result (Answer m)
answer_in create_account (answered create_account a) = ok a
answer_in get_account (answered get_account a) = ok a
answer_in list_accounts (answered list_accounts a) = ok a
answer_in update_account (answered update_account a) = ok a
answer_in delete_account (answered delete_account a) = ok a
answer_in create_transaction (answered create_transaction a) = ok a
answer_in get_transaction (answered get_transaction a) = ok a
answer_in m (failed e) = err e
answer_in _ _ = err (message "unknown")

abbrev unregistered : Proxy
unregistered = record { mux = []; connections = []; waiting = []; calls = 0 }

-- The second connection cannot be dialled.
abbrev dialler : Dialler
dialler = record {
  new_client = λ n. if eqb n 1 then some (message "target") else none;
  holds = λ _. false;
}

one_registered :
    (register_all dialler (account_routes ∷ transaction_routes ∷ []) unregistered).connections
    ≡ 0 ∷ []
unfolding register_handler_from_endpoint
one_registered = refl

register_all-closed_example :
    Tended (register_all dialler (account_routes ∷ transaction_routes ∷ []) unregistered)
    × ((context_done dialler (
          register_all dialler (account_routes ∷ transaction_routes ∷ []) unregistered)).connections
        ≡ [])
register_all-closed_example =
    register_all-closed dialler (account_routes ∷ transaction_routes ∷ []) unregistered refl
      (λ _. refl)
