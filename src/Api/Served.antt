-- ===== src/Api/Served.antt =====
-- The services of app/service behind their two doors, which NewServer opens in app/server.go.
use dbank.Prelude.{ℕ, ◌≡◌}
use dbank.Sql.{Driver}
use dbank.Broker.{Broker}
use dbank.Store.Requests.{Float64}
use dbank.Service.Bank.{Bank}
use dbank.Service.Accounts.{Secrets}
use dbank.Service.Transactions.{Decimals}
use dbank.Api.{Method, Message, call, respond, reply_of}
use dbank.Api.Gateway.{Runtime, serve_gateway}
use dbank.Api.Grpc.{Transport, invoke, serve_grpc}
use dbank.Api.Calls.{
  Client, Fits, pattern_for, resource_of, id_in, http_request, Understands, Carries,
}
use dbank.Api.Calls.Answered.{serve_gateway-http_request, serve_grpc-invoke}

module _ {F B : Type 0} (fl : Float64 F) (dec : Decimals) (sec : Secrets) (d : Driver) (mq : Broker)
    (rt : Runtime) (c : Client) (t : Transport B) where
  -- A call of any method with any message is answered alike through the JSON gateway and through the
  -- gRPC server: by its handler's own answer or error, with the state that the handler leaves. The
  -- conditions are on the two libraries and on the id in the path: a path matches its own pattern and
  -- none apart from it, the one route that a request matches and the one method of a full name are
  -- found, the request's context can be annotated, a message is read back as it was written, and the
  -- id can be a part of a path.
  pub serve_gateway-serve_grpc :
      (m : Method) (message : Message m) (n : ℕ) (b : Bank)
      → Understands rt c m message
      → Carries t m message
      → Fits c (pattern_for (resource_of m)) (id_in m message)
      → let (answer, b') = call fl dec sec d mq m n message b in
        (serve_gateway rt (respond fl dec sec d mq) n (http_request c m message) b
          ≡ (reply_of m answer, b'))
        × (serve_grpc t (respond fl dec sec d mq) n (invoke t m message).0 (invoke t m message).1 b
            ≡ (reply_of m answer, b'))
  unfolding respond
  serve_gateway-serve_grpc m message n b u k f = (
    serve_gateway-http_request rt c (respond fl dec sec d mq) m message n b u f,
    serve_grpc-invoke t (respond fl dec sec d mq) m message n b k,
  )
