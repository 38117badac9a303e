-- ===== src/Service/Interleaving/Stale.antt =====
-- What a request has written when it completes, by the tables that it was planned from.
use dbank.Prelude.{◌≡◌, ap, subst, sym, ◌∙◌}
use dbank.Status.{ok, internal}
use dbank.Sql.{Driver}
use dbank.Sql.Steps.{>>=-eq-ok}
use dbank.Broker.{Broker}
use dbank.Store.Requests.{Float64}
use dbank.Store.Transactions.Posted.{Posted}
use dbank.Service.Bank.{Bank, or_wrap}
use dbank.Service.Calls.{or_wrap-eq-ok}
use dbank.Service.Transactions.{
  CreateTransactionRequest, CreateTransactionResponse, Decimals, Plan, store_request, submit,
  announce,
}
use dbank.Service.Transactions.Ended.{Submitted, submit-Submitted, announce-Published}
use dbank.Service.Interleaving.{complete}

module _ {F : Type 0} (fl : Float64 F) (dec : Decimals) (d : Driver) (mq : Broker)
    (req : CreateTransactionRequest) (p : Plan F) where
  pub complete-Posted :
      (b b' : Bank) {response : CreateTransactionResponse}
      → complete fl dec d mq req p b ≡ (ok response, b')
      → Posted d (d.clock b.world.calls) (store_request fl dec d req p) b.world.db b'.world.db
  unfolding complete
  complete-Posted b b' h =
      let call = submit fl dec d (store_request fl dec d req p) in
      let (u, b₁, e, rest) =
        >>=-eq-ok (or_wrap internal "failed to create transaction" call) _ b b' h in
      let (v, b₂, said, last) = >>=-eq-ok (announce mq req) _ b₁ b' rest in
      let (submitted, _) = or_wrap-eq-ok internal "failed to create transaction" call b b₁ e in
      let posted : Posted d (d.clock b.world.calls) (store_request fl dec d req p) b.world.db
          b₁.world.db =
        subst (Submitted fl dec d (store_request fl dec d req p) (d.clock b.world.calls) b.world.db)
          submitted (submit-Submitted fl dec d (store_request fl dec d req p) b.world) in
      let quiet : b₂.world ≡ b₁.world =
        ap (λ r. r.1.world) (sym said) ∙ (announce-Published fl dec d mq req b₁).0 in
      subst (λ w. Posted d (d.clock b.world.calls) (store_request fl dec d req p) b.world.db w.db)
        (sym quiet ∙ ap (λ r. r.1.world) last) posted
