-- ===== src/Service/Transactions/Guards.antt =====
-- What CreateTransaction of app/service/transactions.go has established before it writes.
use dbank.Prelude.{String, ◌≡◌, sym, ◌∙◌, ◌≢◌, eq_iff, arith}
use dbank.Prelude.Int.{ℤ, pos, ◌≤ℤ◌, ◌<ℤ◌}
use dbank.Status.{ok, internal}
use dbank.Sql.{Driver, Database}
use dbank.Sql.Steps.{>>=-eq-ok}
use dbank.Store.Requests.{Float64, AccountDetails}
use dbank.Store.Accounts.{get_account}
use dbank.Store.Accounts.Lookup.{DeliversOnly, Answers, get_account-Answers}
use dbank.Broker.{Exchange}
use mathlib.Core.Path.{subst}
use dbank.Service.Bank.{Bank, or_wrap}
use dbank.Service.Calls.{or_wrap-eq-ok}
use dbank.Service.Transactions.{
  CreateTransactionRequest, Decimals, Plan, validate, settle_plan, read_receiver, read_sender, plan,
}

-- A request that passes the checks which need no database.
pub record Wellformed (dec : Decimals) (req : CreateTransactionRequest) (amount : ℤ) : Type 0 where
  pub sender_given : req.from_account_id ≢ ""
  pub receiver_given : req.to_account_id ≢ ""
  pub parsed : dec.new_from_string req.amount ≡ ok amount
  pub positive : pos 0 <ℤ amount
  pub currency_given : req.currency ≢ ""

validate-Wellformed :
    {S : Type 0} (dec : Decimals) (req : CreateTransactionRequest) (s s' : S) {amount : ℤ}
    → validate dec req s ≡ (ok amount, s')
    → Wellformed dec req amount × (s' ≡ s)
unfolding validate
validate-Wellformed dec req s s' h =
    ground
      (arith, eq_iff req.from_account_id "", eq_iff req.to_account_id "", eq_iff req.currency "")

module _ {F : Type 0} (fl : Float64 F) (dec : Decimals) (d : Driver) where
  -- What holds of a plan: both accounts were read from these tables, the sender's covers the
  -- amount, and they belong to two users.
  pub record Planned (req : CreateTransactionRequest) (db : Database) (p : Plan F) : Type 0 where
    pub request : Wellformed dec req p.amount
    pub sender : Answers fl d req.from_account_id db p.from_account
    pub receiver : Answers fl d req.to_account_id db p.to_account
    pub covered : p.amount ≤ℤ fl.new_from_float p.from_account.balance
    pub distinct : p.from_account.id ≢ p.to_account.id

module _ {F : Type 0} (fl : Float64 F) (dec : Decimals) (d : Driver) (only : DeliversOnly d)
    (db : Database) (x : Exchange) where
  -- The handler has not written yet.
  abbrev pub At : Bank → Type 0
  At b = (b.world.db ≡ db) × (b.exchange ≡ x)

  read-Answers :
      (m id : String) (b b' : Bank) {a : AccountDetails F}
      → At b
      → or_wrap internal m (get_account fl d id) b ≡ (ok a, b')
      → Answers fl d id db a × At b'
  read-Answers m id b b' {a} (same, kept) h =
      let (c, k) = or_wrap-eq-ok internal m (get_account fl d id) b b' h in
      let (found, s) = get_account-Answers fl d id b.world b'.world only c in
      (subst (λ db. Answers fl d id db a) same found, (s ∙ same, k ∙ kept))

  settle_plan-Planned :
      (req : CreateTransactionRequest) (amount : ℤ) (f t : AccountDetails F) (b b' : Bank)
      {p : Plan F}
      → Wellformed dec req amount
      → Answers fl d req.from_account_id db f
      → Answers fl d req.to_account_id db t
      → At b
      → settle_plan fl dec d amount f t b ≡ (ok p, b')
      → Planned fl dec d req db p × At b'
  unfolding settle_plan
  settle_plan-Planned req amount f t b b' v from to now h = ground (arith, eq_iff f.id t.id)

  read_receiver-Planned :
      (req : CreateTransactionRequest) (amount : ℤ) (f : AccountDetails F) (b b' : Bank)
      {p : Plan F}
      → Wellformed dec req amount
      → Answers fl d req.from_account_id db f
      → At b
      → read_receiver fl dec d req amount f b ≡ (ok p, b')
      → Planned fl dec d req db p × At b'
  unfolding read_receiver
  read_receiver-Planned req amount f b b' v from now h =
      let (t, b₁, e, rest) =
        >>=-eq-ok (or_wrap internal _ (get_account fl d req.to_account_id)) _ b b' h in
      let (to, now') = read-Answers _ req.to_account_id b b₁ now e in
      settle_plan-Planned req amount f t b₁ b' v from to now' rest

  read_sender-Planned :
      (req : CreateTransactionRequest) (amount : ℤ) (b b' : Bank) {p : Plan F}
      → Wellformed dec req amount
      → At b
      → read_sender fl dec d req amount b ≡ (ok p, b')
      → Planned fl dec d req db p × At b'
  unfolding read_sender
  read_sender-Planned req amount b b' v now h =
      let (f, b₁, e, rest) =
        >>=-eq-ok (or_wrap internal _ (get_account fl d req.from_account_id)) _ b b' h in
      let (from, now') = read-Answers _ req.from_account_id b b₁ now e in
      read_receiver-Planned req amount f b₁ b' v from now' rest

  pub plan-Planned :
      (req : CreateTransactionRequest) (b b' : Bank) {p : Plan F}
      → At b
      → plan fl dec d req b ≡ (ok p, b')
      → Planned fl dec d req db p × At b'
  unfolding plan
  plan-Planned req b b' now h =
      let (amount, b₁, e, rest) = >>=-eq-ok (validate dec req) _ b b' h in
      let (v, same) = validate-Wellformed dec req b b₁ e in
      read_sender-Planned req amount b₁ b' v (subst At (sym same) now) rest
