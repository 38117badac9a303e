-- ===== src/Tests/InFlight.antt =====
-- A transfer, and its message on the way from app/service to app/consumer.
use dbank.Prelude.{[], ◌∷◌}
use dbank.Flow.InFlight.{System, taking}
use dbank.Tests.World.{floats, decimals, healthy, shared}
use dbank.Tests.Ledger.{mongo, channel}
use dbank.Tests.Flow.{still, done}

abbrev idle : System
idle = record { bank = shared; queue = []; channel = channel }

abbrev sent : System
sent = record { bank = done; queue = "30" ∷ []; channel = channel }

abbrev settled : System
settled = record sent {
  queue = [];
  channel = taking floats decimals healthy still mongo "30" channel;
}
