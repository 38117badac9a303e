-- ===== src/Ledger/Accounts.antt =====
-- CalculateAccountBalance of app/consumer/mongo_ledger.go before and after a message.
use dbank.Prelude.{
  ℕ, String, Bool, ◌&&◌, ◌≡◌, sym, ◌∙◌, ap, List, [], ◌∷◌, select, ◌==◌, if◌then◌else◌, Bool-cases,
  inl, inr, arith,
}
use dbank.Prelude.Int.{ℤ, pos, neg, ◌+ℤ◌, ◌-ℤ◌, int_laws}
use dbank.Prelude.Member.{select-append}
use dbank.Status.{ok}
use dbank.Broker.{TransactionEvent}
use dbank.Store.Queries.{is_null}
use dbank.Ledger.Entries.{
  MongoLedgerEntry, Mongo, written, debit_entry, credit_entry, entries_of, sum_balances,
}
use dbank.Ledger.Sums.{appended}
use dbank.Ledger.Balance.{KeepsDecimals, sum-append}

abbrev of_account : String → MongoLedgerEntry → Bool
of_account id e = e.account_id == id && is_null e.deleted_at

-- The sum of an account's entries; without entries it is 0.
abbrev pub account_balance : String → List MongoLedgerEntry → ℤ
account_balance id es = sum_balances (select (of_account id) es)

-- What an event means for the balance of an account.
abbrev pub movement : TransactionEvent → ℤ → String → ℤ
movement event amount id =
    (if event.to_account_id == id then amount else pos 0)
    -ℤ (if event.from_account_id == id then amount else pos 0)

module _ (m : Mongo) where
  entries_of-eq :
      (body : String) (n : ℕ) (event : TransactionEvent) (amount : ℤ)
      {pair : MongoLedgerEntry × MongoLedgerEntry}
      → m.unmarshal body ≡ ok event
      → m.new_from_string event.amount ≡ ok amount
      → entries_of m body n ≡ ok pair
      → (debit_entry m event amount n, credit_entry m event amount n) ≡ pair
  unfolding entries_of
  entries_of-eq body n event amount e f h = ground arith

  pair-movement :
      (event : TransactionEvent) (amount : ℤ) (n : ℕ) (id : String)
      → KeepsDecimals m
      → account_balance id (
          written m (debit_entry m event amount n) ∷ written m (credit_entry m event amount n) ∷ [])
        ≡ movement event amount id
  pair-movement event amount n id keep = elim (Bool-cases (event.from_account_id == id)) [
    | inl f ↦ elim (Bool-cases (event.to_account_id == id)) [
      | inl t ↦ rw (f, t, keep (neg amount), keep amount) (omega int_laws)
      | inr t ↦ rw (f, t, keep (neg amount)) (omega int_laws)
    ]
    | inr f ↦ elim (Bool-cases (event.to_account_id == id)) [
      | inl t ↦ rw (f, t, keep amount) (omega int_laws)
      | inr t ↦ rw (f, t) (omega int_laws)
    ]
  ]

  -- The entries of an event move the balance of an account by what the event means for it.
  pub account_balance-appended :
      (body id : String) (event : TransactionEvent) (amount : ℤ) (n : ℕ)
      (es es' : List MongoLedgerEntry) (pair : MongoLedgerEntry × MongoLedgerEntry)
      → KeepsDecimals m
      → m.unmarshal body ≡ ok event
      → m.new_from_string event.amount ≡ ok amount
      → entries_of m body n ≡ ok pair
      → es' ≡ appended m es pair
      → account_balance id es' ≡ account_balance id es +ℤ movement event amount id
  account_balance-appended body id event amount n es es' pair keep e f parsed grown =
      let two =
        written m (debit_entry m event amount n) ∷ written m (credit_entry m event amount n) ∷ [] in
      ap (account_balance id)
        (grown ∙ ap (appended m es) (sym (entries_of-eq body n event amount e f parsed)))
      ∙ ap sum_balances (select-append (of_account id) es two)
      ∙ sum-append (select (of_account id) es) (select (of_account id) two)
      ∙ ap (λ v. account_balance id es +ℤ v) (pair-movement event amount n id keep)
