-- ===== src/Api/Calls/Answered.antt =====
-- How the gateway and the gRPC server answer a client's call, over the handlers of app/service.
use dbank.Prelude.{ℕ, ◌≡◌, refl, [], ◌∷◌, arith}
use dbank.Status.{ok}
use dbank.Service.Bank.{Bank}
use dbank.Api.{
  Method, create_account, get_account, list_accounts, update_account, delete_account,
  create_transaction, get_transaction, Message, Reply,
}
use dbank.Api.Gateway.{
  Runtime, handle_route, respond_to, serve_with, serve_gateway, read_request, routes,
}
use dbank.Api.Grpc.{Transport, registered, full_method_name, invoke, serve_grpc}
use dbank.Api.Calls.{
  accounts, account, transactions, transaction, pattern_for, resource_of, captures, Client, Fits,
  id_in, http_request, Understands, Carries, hits, offers,
}

module _ (rt : Runtime) (c : Client) where
  hits-http_request :
      (m : Method) (message : Message m)
      → Understands rt c m message
      → Fits c (pattern_for (resource_of m)) (id_in m message)
      → hits rt.matches routes (http_request c m message)
        ≡ (m, captures (pattern_for (resource_of m)) (id_in m message)) ∷ []
  hits-http_request create_account req u f = ground (
    arith,
    u.own accounts "" tt,
    u.other accounts account "" tt refl,
    u.other accounts transactions "" tt refl,
    u.other accounts transaction "" tt refl,
  )
  hits-http_request get_account id u f = ground (
    arith,
    u.own account id f,
    u.other account accounts id f refl,
    u.other account transactions id f refl,
    u.other account transaction id f refl,
  )
  hits-http_request list_accounts page u f = ground (
    arith,
    u.own accounts "" tt,
    u.other accounts account "" tt refl,
    u.other accounts transactions "" tt refl,
    u.other accounts transaction "" tt refl,
  )
  hits-http_request update_account req u f = ground (
    arith,
    u.own account req.id f,
    u.other account accounts req.id f refl,
    u.other account transactions req.id f refl,
    u.other account transaction req.id f refl,
  )
  hits-http_request delete_account id u f = ground (
    arith,
    u.own account id f,
    u.other account accounts id f refl,
    u.other account transactions id f refl,
    u.other account transaction id f refl,
  )
  hits-http_request create_transaction req u f = ground (
    arith,
    u.own transactions "" tt,
    u.other transactions accounts "" tt refl,
    u.other transactions account "" tt refl,
    u.other transactions transaction "" tt refl,
  )
  hits-http_request get_transaction id u f = ground (
    arith,
    u.own transaction id f,
    u.other transaction accounts id f refl,
    u.other transaction account id f refl,
    u.other transaction transactions id f refl,
  )

  read_request-http_request :
      (m : Method) (message : Message m)
      → Understands rt c m message
      → read_request rt m
          (http_request c m message)
          (captures (pattern_for (resource_of m)) (id_in m message))
        ≡ ok message
  unfolding read_request
  read_request-http_request create_account req u = rw (u.decodes) refl
  read_request-http_request get_account id u = rw (u.strings id) refl
  read_request-http_request list_accounts page u = rw (u.queries.0, u.queries.1) refl
  read_request-http_request update_account req u = rw (u.decodes, u.strings req.id) refl
  read_request-http_request delete_account id u = rw (u.strings id) refl
  read_request-http_request create_transaction req u = rw (u.decodes) refl
  read_request-http_request get_transaction id u = rw (u.strings id) refl

  -- An HTTP request of a client is answered as the call of its method.
  pub serve_gateway-http_request :
      (respond : (m : Method) → ℕ → Message m → Bank → Reply × Bank) (m : Method)
      (message : Message m) (n : ℕ) (b : Bank)
      → Understands rt c m message
      → Fits c (pattern_for (resource_of m)) (id_in m message)
      → serve_gateway rt respond n (http_request c m message) b ≡ respond m n message b
  unfolding serve_gateway
  serve_gateway-http_request respond m message n b u f =
      let found = u.finds (http_request c m message) _ (hits-http_request m message u f) in
      rw (found, serve_with)
        (rw (u.annotates, handle_route)
          (rw (read_request-http_request m message u, respond_to) refl))

module _ {B : Type 0} (t : Transport B) where
  offers-full_method_name : (m : Method) → offers registered (full_method_name m) ≡ m ∷ []
  offers-full_method_name create_account = refl
  offers-full_method_name get_account = refl
  offers-full_method_name list_accounts = refl
  offers-full_method_name update_account = refl
  offers-full_method_name delete_account = refl
  offers-full_method_name create_transaction = refl
  offers-full_method_name get_transaction = refl

  -- A call of a stub of the client is answered as the call of its method.
  pub serve_grpc-invoke :
      (respond : (m : Method) → ℕ → Message m → Bank → Reply × Bank) (m : Method)
      (message : Message m) (n : ℕ) (b : Bank)
      → Carries t m message
      → serve_grpc t respond n (invoke t m message).0 (invoke t m message).1 b
        ≡ respond m n message b
  unfolding serve_grpc invoke
  serve_grpc-invoke respond m message n b k =
      let found = k.finds (full_method_name m) m (offers-full_method_name m) in
      rw (found, k.unmarshals) refl
