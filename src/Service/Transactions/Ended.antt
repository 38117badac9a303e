-- ===== src/Service/Transactions/Ended.antt =====
-- How CreateTransaction of app/service/transactions.go ends: on every path, what it has written and
-- what it has published.
use mathlib.Core.Path.{subst, subst₂, ap}
use dbank.Prelude.{
  String, ◌≡◌, refl, sym, ◌∙◌, ◌⊎◌, inl, inr, ℕ, ◌&&◌, ◌++◌, [], ◌∷◌, arith, if◌then◌else◌,
}
use dbank.Status.{⊤, Result, ok, err, internal, continue, ◌>>◌, pure}
use dbank.Status.Keeps.{Keeps, >>=-Keeps}
use dbank.Prelude.Int.{ℤ}
use dbank.Sql.{Driver, World, Database, lost}
use dbank.Broker.{Broker, Exchange, transaction_exchange, transaction_success_route}
use dbank.Broker.Publish.{taken, message_of, publish_event-messages}
use dbank.Store.Requests.{Float64, AccountDetails, TransactionRequest}
use dbank.Store.Accounts.{get_account}
use dbank.Store.Accounts.Lookup.{DeliversOnly, get_account-reads}
use dbank.Store.Transactions.{create_transaction}
use dbank.Store.Transactions.Posted.{Posted}
use dbank.Store.Transactions.Settled.{Settled, create_transaction-Settled}
use dbank.Service.Bank.{Bank, wrap, or_wrap}
use dbank.Service.Transactions.{
  CreateTransactionRequest, CreateTransactionResponse, Decimals, Plan, validate, settle_plan,
  read_receiver, read_sender, plan, submit, store_request, announce, event_of, response_of,
  create_transaction_handler,
}
use dbank.Service.Transactions.Guards.{Planned, plan-Planned}

module _ {F : Type 0} (fl : Float64 F) (dec : Decimals) (d : Driver) where
  module _ (db : Database) (x : Exchange) where
    -- The handler has written nothing and published nothing.
    abbrev pub Untouched : Bank → Type 0
    Untouched b = (b.world.db ≡ db) × (b.exchange ≡ x)

    read-Untouched : (m id : String) → Keeps Untouched (or_wrap internal m (get_account fl d id))
    unfolding or_wrap
    read-Untouched m id b (same, kept) = (get_account-reads fl d id b.world ∙ same, kept)

    settle_plan-Untouched :
        (amount : ℤ) (f t : AccountDetails F) → Keeps Untouched (settle_plan fl dec d amount f t)
    unfolding settle_plan
    settle_plan-Untouched amount f t b h = ground arith

    validate-Untouched : (req : CreateTransactionRequest) → Keeps Untouched (validate dec req)
    unfolding validate
    validate-Untouched req b h = ground arith

    -- Planning writes nothing, whether it returns or fails.
    pub plan-Untouched : (req : CreateTransactionRequest) → Keeps Untouched (plan fl dec d req)
    unfolding plan read_sender read_receiver
    plan-Untouched req = >>=-Keeps Untouched (validate dec req) _ (validate-Untouched req) λ amount.
        >>=-Keeps Untouched (or_wrap internal _ (get_account fl d req.from_account_id)) _
          (read-Untouched _ _)
          λ f.
            >>=-Keeps Untouched (or_wrap internal _ (get_account fl d req.to_account_id)) _
              (read-Untouched _ _) λ t. settle_plan-Untouched amount f t

  -- A transfer that has been written: what was planned from the tables before, and what was posted.
  pub record Written (req : CreateTransactionRequest) (before after : Database) : Type 0 where
    pub planned : Plan F
    pub now : ℕ
    pub plan_is : Planned fl dec d req before planned
    pub posted : Posted d now (store_request fl dec d req planned) before after

  -- Some commit took place while its reply was lost.
  abbrev pub ReplyLost : Type 0
  ReplyLost = (n : ℕ) × (d.commit n ≡ lost)

  abbrev pub Submitted : TransactionRequest → ℕ → Database → Result ⊤ × World → Type 0
  Submitted r now db (ok _, w') = Posted d now r db w'.db
  Submitted r now db (err _, w') = (w'.db ≡ db) ⊎ (ReplyLost × Posted d now r db w'.db)

  pub submit-Submitted :
      (r : TransactionRequest) (w : World)
      → Submitted r (d.clock w.calls) w.db (submit fl dec d r w)
  unfolding submit
  submit-Submitted r w =
      let (res, r', w') = create_transaction d r w in
      by_result res r' w' (create_transaction-Settled d r w)
    where
      by_result :
          (res : Result ⊤) (r' : TransactionRequest) (w' : World)
          → Settled d r w (res, r', w')
          → Submitted r (d.clock w.calls) w.db (res, w')
      by_result (ok _) r' w' (posted, _) = posted
      by_result (err _) r' w' (outcome, _, _) = outcome

  module _ (mq : Broker) (req : CreateTransactionRequest) where
    -- The event of this request is published on the success route if there is a client and both of
    -- its calls succeed; nothing else is.
    abbrev pub Published : Exchange → Exchange → Type 0
    Published x x' = x'.messages ≡ (
        if mq.connected && taken mq x.calls
        then x.messages
          ++ message_of mq transaction_exchange transaction_success_route
              (event_of req (mq.unix_time x.calls))
            ∷ []
        else x.messages)

    pub announce-Published :
        (b : Bank)
        → ((announce mq req b).1.world ≡ b.world)
          × Published b.exchange (announce mq req b).1.exchange
    unfolding announce
    announce-Published b = ground (
      arith,
      publish_event-messages mq transaction_exchange transaction_success_route
          (event_of req (mq.unix_time b.exchange.calls)) b.exchange,
    )

    -- What a call that began at `b` has done, by its result.
    abbrev pub Ended : Bank → Result CreateTransactionResponse × Bank → Type 0
    Ended b (ok response, b') =
        Written req b.world.db b'.world.db
        × (response ≡ response_of req)
        × Published b.exchange b'.exchange
    Ended b (err _, b') =
        ((b'.world.db ≡ b.world.db) ⊎ (ReplyLost × Written req b.world.db b'.world.db))
        × (b'.exchange ≡ b.exchange)

    module _ (b : Bank) (p : Plan F) (v : Planned fl dec d req b.world.db p) where
      written :
          (now : ℕ) (before after after' : Database)
          → before ≡ b.world.db
          → after' ≡ after
          → Posted d now (store_request fl dec d req p) before after
          → Written req b.world.db after'
      written now before after after' e e' h = record {
        planned = p;
        now = now;
        plan_is = v;
        posted = subst₂ (Posted d now (store_request fl dec d req p)) e (sym e') h;
      }

      finish :
          (b₁ : Bank) (now : ℕ) (res : Result ⊤) (w' : World)
          → Untouched b.world.db b.exchange b₁
          → Submitted (store_request fl dec d req p) now b₁.world.db (res, w')
          → Ended b (
              continue
                (wrap internal "failed to create transaction" res)
                (λ _. announce mq req >> pure (response_of req))
                (record b₁ { world = w' }))
      unfolding announce
      finish b₁ now (ok _) w' (same, kept) h =
          let after : Exchange = (announce mq req (record b₁ { world = w' })).1.exchange in
          let (quiet, sent) = announce-Published (record b₁ { world = w' }) in
          (
            written now b₁.world.db w'.db _ same (ap (λ w. w.db) quiet) h,
            refl,
            subst (λ x. Published x after) kept sent,
          )
      finish b₁ now (err _) w' (same, kept) (inl unchanged) = (inl (unchanged ∙ same), kept)
      finish b₁ now (err _) w' (same, kept) (inr (gone, h)) =
          (inr (gone, written now b₁.world.db w'.db w'.db same refl h), kept)

    after_plan :
        (b : Bank) (r : Result (Plan F)) (b₁ : Bank)
        → plan fl dec d req b ≡ (r, b₁)
        → DeliversOnly d
        → Untouched b.world.db b.exchange b₁
        → Ended b (
            continue r
              (λ p.
                or_wrap internal "failed to create transaction"
                  (submit fl dec d (store_request fl dec d req p))
                >> (announce mq req >> pure (response_of req)))
              b₁)
    unfolding or_wrap
    after_plan b (ok p) b₁ h only same =
        let (v, _) = plan-Planned fl dec d only b.world.db b.exchange req b b₁ (refl, refl) h in
        finish b p v b₁ (d.clock b₁.world.calls)
          (submit fl dec d (store_request fl dec d req p) b₁.world).0
          (submit fl dec d (store_request fl dec d req p) b₁.world).1 same
          (submit-Submitted (store_request fl dec d req p) b₁.world)
    after_plan b (err e) b₁ h only same = (inl same.0, same.1)

    -- A transfer that returns has passed every check against the accounts that it read, has written
    -- the two balances and the transaction and nothing else, answers by the request's own fields,
    -- and publishes its event if there is a client and both of its calls succeed. One that fails
    -- publishes nothing, and has written nothing, unless the reply to its commit was lost, in which
    -- case all of it has been written. The condition is that a query delivers only its own rows.
    pub create_transaction_handler-Ended :
        (b : Bank) → DeliversOnly d → Ended b (create_transaction_handler fl dec d mq req b)
    unfolding create_transaction_handler
    create_transaction_handler-Ended b only =
        after_plan b (plan fl dec d req b).0 (plan fl dec d req b).1 refl only
          (plan-Untouched b.world.db b.exchange req b (refl, refl))
