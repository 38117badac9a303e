-- ===== src/Service/Sessions/Keeping.antt =====
-- The constraints of the tables under the handlers of app/service/transactions.go.
use dbank.Prelude.{
  String, Bool, true, false, Bool-cases, subst, sym, inl, inr, ◌==◌, not, ◌≡◌, arith,
}
use dbank.Prelude.Int.{ℤ}
use dbank.Status.{Code, Error, Exec}
use dbank.Status.Keeps.{Keeps, >>=-Keeps}
use dbank.Sql.{Driver, World}
use dbank.Broker.{Broker}
use dbank.Store.Requests.{Float64, AccountDetails, TransactionRequest}
use dbank.Store.Accounts.{get_account as load_account}
use dbank.Store.Transactions.{get_transaction as load_transaction}
use dbank.Store.Validity.{Sound}
use dbank.Store.Validity.Operations.{create_transaction-Keeps, get_transaction-Keeps}
use dbank.Store.Validity.Accounts.{get_account-Keeps}
use dbank.Service.Bank.{Bank, require, lift, or_wrap}
use dbank.Service.Transactions.{
  Decimals, CreateTransactionRequest, validate, plan, read_sender, read_receiver, settle_plan,
  store_request, submit, announce, create_transaction_handler, get_transaction_handler,
}

abbrev pub SoundBank : Bank → Type 0
SoundBank b = Sound b.world

pub require-Keeps : (c : Bool) (e : Error) → Keeps SoundBank (require c e)
unfolding require
require-Keeps true e b v = v
require-Keeps false e b v = v

pub or_wrap-Keeps :
    {A : Type 0} (c : Code) (m : String) (call : Exec World A)
    → Keeps Sound call
    → Keeps SoundBank (or_wrap c m call)
unfolding or_wrap
or_wrap-Keeps c m call k b v = k b.world v

module _ {F : Type 0} (fl : Float64 F) (dec : Decimals) (d : Driver) where
  validate-Keeps : (req : CreateTransactionRequest) → Keeps SoundBank (validate dec req)
  unfolding validate require lift
  validate-Keeps req b v =
      let same : (validate dec req b).1 ≡ b = ground arith in subst SoundBank (sym same) v

  settle_plan-Keeps :
      (amount : ℤ) (from to : AccountDetails F)
      → Keeps SoundBank (settle_plan fl dec d amount from to)
  unfolding settle_plan require
  settle_plan-Keeps amount from to b v =
      let same : (settle_plan fl dec d amount from to b).1 ≡ b = ground arith in
      subst SoundBank (sym same) v

  read_receiver-Keeps :
      (req : CreateTransactionRequest) (amount : ℤ) (from : AccountDetails F)
      → Keeps SoundBank (read_receiver fl dec d req amount from)
  unfolding read_receiver
  read_receiver-Keeps req amount from =
      >>=-Keeps SoundBank (or_wrap _ _ (load_account fl d req.to_account_id)) _
        (or_wrap-Keeps _ _ (load_account fl d req.to_account_id)
          (get_account-Keeps fl d req.to_account_id))
        (settle_plan-Keeps amount from)

  pub plan-Keeps : (req : CreateTransactionRequest) → Keeps SoundBank (plan fl dec d req)
  unfolding plan read_sender
  plan-Keeps req = >>=-Keeps SoundBank (validate dec req) _ (validate-Keeps req) (λ amount.
      >>=-Keeps SoundBank (or_wrap _ _ (load_account fl d req.from_account_id)) _
        (or_wrap-Keeps _ _ (load_account fl d req.from_account_id)
          (get_account-Keeps fl d req.from_account_id))
        (read_receiver-Keeps req amount))

  pub submit-Keeps : (req : TransactionRequest) → Keeps Sound (submit fl dec d req)
  unfolding submit
  submit-Keeps req = create_transaction-Keeps d req

  pub announce-Keeps :
      (mq : Broker) (req : CreateTransactionRequest) → Keeps SoundBank (announce mq req)
  unfolding announce
  announce-Keeps mq req b v = elim (Bool-cases mq.connected) [ inl e ↦ rw e v | inr e ↦ rw e v ]

  pub create_transaction_handler-Keeps :
      (mq : Broker) (req : CreateTransactionRequest)
      → Keeps SoundBank (create_transaction_handler fl dec d mq req)
  unfolding create_transaction_handler
  create_transaction_handler-Keeps mq req =
      >>=-Keeps SoundBank (plan fl dec d req) _ (plan-Keeps req) (λ p.
        >>=-Keeps SoundBank (or_wrap _ _ (submit fl dec d (store_request fl dec d req p))) _
          (or_wrap-Keeps _ _ (submit fl dec d (store_request fl dec d req p))
            (submit-Keeps (store_request fl dec d req p)))
          (λ _. >>=-Keeps SoundBank (announce mq req) _ (announce-Keeps mq req) (λ _ b v. v)))

  pub get_transaction_handler-Keeps :
      (id : String) → Keeps SoundBank (get_transaction_handler dec d id)
  unfolding get_transaction_handler require
  get_transaction_handler-Keeps id =
      >>=-Keeps SoundBank (require (not (id == "")) _) _ (require-Keeps _ _) (λ _.
        >>=-Keeps SoundBank (or_wrap _ _ (load_transaction d id)) _
          (or_wrap-Keeps _ _ (load_transaction d id) (get_transaction-Keeps d id)) (λ t b v. v))
