-- ===== src/Tests/Conserved.antt =====
-- A sequence of transfers and reading requests to app/service on tables with money.
use mathlib.Core.Option.{some-injective}
use dbank.Prelude.{◌≡◌, refl, sym, List, [], ◌∷◌}
use dbank.Prelude.Int.{◌+ℤ◌, pos, int_laws}
use dbank.Service.Sessions.{Request, run}
use dbank.Service.Sessions.Conserved.{run-Solvent}
use dbank.Service.Transactions.Solvency.{Solvent, ExactUpTo}
use dbank.Store.Balances.{total}
use dbank.Tests.Sessions.{secrets}
use dbank.Tests.Transfers.{shared-IsUnique, shared-IdsShared}
use dbank.Tests.World.{
  floats, decimals, named_columns, healthy, driver_over-DeliversOnly, broker, shared, transfer,
}

abbrev payments : List Request
payments =
    Request.create_transaction transfer
    ∷ Request.list_accounts 1 10
    ∷ Request.create_transaction transfer
    ∷ Request.get_account "bob"
    ∷ []

shared-total : total shared.world.db.accounts ≡ pos 105
unfolding ◌+ℤ◌
shared-total = refl

pub shared-Solvent : Solvent (pos 105) shared.world.db
shared-Solvent = record {
  unique = shared-IsUnique;
  shared = shared-IdsShared;
  covered = (omega int_laws, (omega int_laws, tt));
  total_is = shared-total;
}

pub healthy-ExactUpTo : ExactUpTo (pos 105) floats healthy
healthy-ExactUpTo = record { floats = λ v _ _. refl; stores = λ v s e. sym (some-injective v s e) }

run-Solvent_example :
    Solvent (pos 105) (run floats decimals secrets healthy broker payments shared).world.db
run-Solvent_example =
    run-Solvent floats decimals secrets healthy broker (pos 105) healthy-ExactUpTo
      (driver_over-DeliversOnly named_columns) payments shared (tt, (tt, (tt, (tt, tt))))
      shared-Solvent
