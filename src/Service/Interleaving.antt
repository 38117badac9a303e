-- ===== src/Service/Interleaving.antt =====
-- The services of app/service under several requests at the same time. CreateTransaction, UpdateAccount
-- and DeleteAccount read before their database transaction begins, so that the steps of other requests
-- may come between their reads and their writes.
pub mod Stale
pub mod LostUpdate
pub mod Reachable
use dbank.Prelude.{ℕ, String, ◌≡◌, List, [], ◌∷◌, ◌++◌, ◌==◌, not}
use dbank.Status.{⊤, Error, ok, err, internal, not_found, Exec, pure, ◌>>=◌, ◌>>◌}
use dbank.Sql.{Driver}
use dbank.Broker.{Broker}
use dbank.Store.Requests.{Float64}
use dbank.Store.Requests.{UpdateAccountRequest as StoreUpdate}
use dbank.Store.Accounts.{get_account, delete_account}
use dbank.Service.Bank.{Bank, require, or_wrap}
use dbank.Service.Accounts.{UpdateAccountRequest, DeleteAccountResponse, Secrets, id_required}
use dbank.Service.Accounts.Parts.{prepare_update, apply_update, prepare_delete, apply_delete}
use dbank.Service.Sessions.{Request, handle}
use dbank.Service.Transactions.{
  CreateTransactionRequest, CreateTransactionResponse, Decimals, Plan, plan, store_request, submit,
  announce, response_of,
}

-- A request that has read and not written yet.
pub data Flight (F : Type 0) : Type 0 where
  transferring : CreateTransactionRequest → Plan F → Flight F
  updating : StoreUpdate F → Flight F
  deleting : String → Flight F

abbrev pub Flights : Type 0 → Type 0
Flights F = List (Flight F)

module _ {F : Type 0} (fl : Float64 F) (dec : Decimals) (d : Driver) (mq : Broker) where
  -- CreateTransaction from its first write to its end.
  unfoldable pub complete : CreateTransactionRequest → Plan F → Exec Bank CreateTransactionResponse
  complete req p = do
    or_wrap internal "failed to create transaction" (submit fl dec d (store_request fl dec d req p))
    announce mq req
    pure (response_of req)

  module _ (sec : Secrets) where
    -- The state after the write of a request.
    unfoldable pub land : Flight F → Bank → Bank
    land (transferring req p) b = (complete req p b).1
    land (updating update) b = (apply_update fl sec d update b).1
    land (deleting id) b = (apply_delete fl sec d id b).1

    -- One step: a request reads, or is refused; or one that has read writes; or a request is served
    -- as a whole. The checks and the reads of a request are taken as one step. A database transaction
    -- is one step: its UPDATEs hold the rows until it ends.
    pub data Step : Bank × Flights F → Bank × Flights F → Type 0 where
      planned :
          {b b' : Bank} {flights : Flights F} (req : CreateTransactionRequest) (p : Plan F)
          → plan fl dec d req b ≡ (ok p, b')
          → Step (b, flights) (b', flights ++ transferring req p ∷ [])
      refused :
          {b b' : Bank} {flights : Flights F} (req : CreateTransactionRequest) (e : Error)
          → plan fl dec d req b ≡ (err e, b')
          → Step (b, flights) (b', flights)
      prepared :
          {b b' : Bank} {flights : Flights F} (req : UpdateAccountRequest) (update : StoreUpdate F)
          → prepare_update fl sec d req b ≡ (ok update, b')
          → Step (b, flights) (b', flights ++ updating update ∷ [])
      found :
          {b b' : Bank} {flights : Flights F} (id : String)
          → prepare_delete fl sec d id b ≡ (ok tt, b')
          → Step (b, flights) (b', flights ++ deleting id ∷ [])
      landed :
          {b : Bank} (before after : Flights F) (flight : Flight F)
          → Step (b, before ++ flight ∷ after) (land flight b, before ++ after)
      served :
          {b : Bank} {flights : Flights F} (request : Request)
          → Step (b, flights) (handle fl dec sec d mq request b, flights)

    pub data Reaches : Bank × Flights F → Bank × Flights F → Type 0 where
      stay : {s : Bank × Flights F} → Reaches s s
      step : {s t u : Bank × Flights F} → Reaches s t → Step t u → Reaches s u
