-- ===== src/Tests/Delivering.antt =====
-- One job for two subscribers, of which the first fails once, and a third that does not receive it.
use asynx.Base.Dict
use asynx.Dispatcher.Job.{Job, started}
use asynx.Dispatcher.Delivery.{
  Deliverer, Surroundings, Delivering, subscribers_for, fails, deliver, succeeds, DurableSub,
  panics, late, elapsed,
}
use asynx.Dispatcher.Delivery.Loops.{Ends}
use asynx.Dispatcher.Workers.{Pool, Turn, handle}
use asynx.Base.Dict.{empty}
use asynx.Base.{
  if◌then◌else◌, true, false, is_empty, String, ◌∷◌, ◌==◌, [], ◌≡◌, Bool, ◌&&◌, ℕ, not, arith, refl,
  ◌*◌, none, nat_eq,
}
use asynx.Dispatcher.Delivery.Held.{Stopped, deliver_holds_back}
use asynx.Dispatcher.Delivery.Serving.{Served, deliver_serves}
use asynx.Dispatcher.Delivery.Pacing.{PacedSince, deliver_paces}
use asynx.Dispatcher.Workers.Handling.{Handled, handle_acked}
use asynx.Models.Errors.{external}

abbrev shipped : Job
shipped = record {
  identity = 7;
  aggregate_id = "order-1";
  version = 3;
  event_name = "shipped";
  acked = true;
  forget = false;
  skip_live = false;
}

abbrev sub_named : String → Bool → ℕ → DurableSub
sub_named name matches timeout = record { name = name; match = λ _. matches; timeout = timeout }

abbrev mailer : Deliverer
mailer = record {
  subs = sub_named "mail" true 5 ∷ sub_named "audit" false 0 ∷ sub_named "ledger" true 0 ∷ [];
  retry_initial = 100;
  retry_max = 30_000;
  max_attempts = 3;
}

abbrev flaky : Surroundings
flaky = record {
  behaves = λ n sub. record {
    ends = if n == 1 && not (sub.timeout == 0) then panics "boom" else succeeds;
    pace = late;
  };
  wakes = λ _. elapsed;
  draws = λ n. n * 37;
  dead_letter = none;
  others = λ _ r. r;
}

abbrev idle : Delivering
idle = record {
  registry = record {
    records = Dict.empty;
    generation = 0;
    closed = false;
    hooks = record { spawn = true; admit = true };
    next = 2;
    closed_halts = [];
    signals = [];
    calls = [];
  };
  progress = started;
  acts = [];
}

someone : is_empty (subscribers_for shipped mailer.subs) ≡ false
unfolding subscribers_for
someone = refl

deliver_holds_back_example :
    Ends (Stopped "order-1" 1) (deliver 3 flaky mailer "order-1" 1 shipped idle)
deliver_holds_back_example =
    deliver_holds_back 3 flaky mailer "order-1" 1 shipped idle refl (omega arith) (omega arith)

deliver_serves_example :
    Ends
      (Served flaky mailer shipped (subscribers_for shipped mailer.subs) idle)
      (deliver 3 flaky mailer "order-1" 1 shipped idle)
deliver_serves_example =
    deliver_serves 3 flaky mailer "order-1" 1 shipped idle refl someone (omega arith) (omega arith)

deliver_paces_example :
    Ends (PacedSince mailer idle) (deliver 3 flaky mailer "order-1" 1 shipped idle)
deliver_paces_example =
    deliver_paces 3 flaky mailer "order-1" 1 shipped idle (omega arith) (omega arith) (omega arith)
      (omega arith)

abbrev pool : Pool
pool = record { bus = true; deliverer = mailer }

abbrev turn : Turn
turn = record { around = flaky; published = fails (external "closed"); acked_with = succeeds }

handle_acked_example :
    Ends (Handled pool turn "order-1" 1 shipped) (handle 3 pool turn "order-1" 1 shipped idle)
handle_acked_example =
    handle_acked 3 pool turn "order-1" 1 shipped idle refl refl (omega arith) (omega arith)
