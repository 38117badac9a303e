-- ===== src/Api/Remote.antt =====
-- The JSON gateway over a connection: RegisterAccountServiceHandlerClient of
-- gen/go/dbank/v1/account.pb.gw.go, RegisterTransactionServiceHandlerClient of
-- gen/go/dbank/v1/transaction.pb.gw.go, and the clients of the two _grpc.pb.go files.
use dbank.Prelude.{ℕ, String, ◌≡◌}
use dbank.Status.{Error, Result, ok, err, Exec}
use dbank.Broker.{Broker}
use dbank.Service.Bank.{Bank}
use dbank.Api.{Method, Message, Answer, Reply, answered, failed, reply_of}
use dbank.Api.Gateway.{Runtime, HttpRequest, serve_with}
use dbank.Api.Grpc.{Transport, invoke}
use dbank.Api.Calls.{Carries}

-- `receive` is what Invoke makes of a reply: the message that it fills in, or its error. `server`
-- answers a call by its full name and its bytes.
module _ {B : Type 0} (t : Transport B) (receive : (m : Method) → Reply → Result (Answer m))
    (server : ℕ → String → B → Bank → Reply × Bank) where
  -- A method of accountServiceClient or transactionServiceClient.
  abbrev pub stub : (m : Method) → ℕ → Message m → Exec Bank (Answer m)
  stub m n message b =
      let (full_method, bytes) = invoke t m message in
      let (reply, b') = server n full_method bytes b in (receive m reply, b')

  abbrev pub through_stub : (m : Method) → ℕ → Message m → Bank → Reply × Bank
  through_stub m n message b = let (r, b') = stub m n message b in (reply_of m r, b')

  unfoldable pub serve_remote_gateway : Runtime → ℕ → HttpRequest → Bank → Reply × Bank
  serve_remote_gateway rt n req b =
      serve_with rt through_stub (λ m. rt.annotate_outgoing m req) n req b

-- A connection on which every message is carried, and every answer and error is delivered.
pub record Delivers {B : Type 0} (t : Transport B)
    (receive : (m : Method) → Reply → Result (Answer m)) : Type 0 where
  pub carries : (m : Method) (message : Message m) → Carries t m message
  pub answers : (m : Method) (a : Answer m) → receive m (answered m a) ≡ ok a
  pub errors : (m : Method) (e : Error) → receive m (failed e) ≡ err e
