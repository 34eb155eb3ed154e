-- ===== src/Processor/Lifecycle/Closing.antt =====
-- Nothing is in flight when the dispatcher and the bus are closed.
use asynx.Processor.Lifecycle.{
  shutdown_ends, shutdown_fails, advances, shuts_down, forget_returns, forgets_aggregate,
  command_returns, sends_command, sends_are_done, is_drained, forgets_are_done,
  dispatcher_is_closed, is_under_way, Advances, Error, new_lifecycle, Reaches, goes_on, sentinel,
  starts, err_shutting_down,
}
use asynx.Processor.Lifecycle.{
  Phase, ShutdownState, Lifecycle, begin_send, Bool, ◌≡◌, begin_forget, end_send, end_forget,
  begin_shutdown, no_shutdown, not_shut_down, end_shutdown, waits_for_sends, shutting_down_now,
  Step, drains, shutdown_failed, sends_command, waits_for_forgets, shut_down, command_returns,
  closes_dispatcher, closes_bus, forgets_aggregate, forget_returns, shuts_down, advances,
  shutdown_fails, shutdown_ends,
}
use asynx.Base.{
  ◌≡◌, false, ◌||◌, true, arith, sym, if_cases, refl, ◌∙◌, ap, Option, ◌≢◌, some, if◌then◌else◌,
}

abbrev sends_over : Phase → Bool
sends_over no_shutdown = false
sends_over waits_for_sends = false
sends_over drains = true
sends_over waits_for_forgets = true
sends_over closes_dispatcher = true
sends_over closes_bus = true

abbrev forgets_over : Phase → Bool
forgets_over no_shutdown = false
forgets_over waits_for_sends = false
forgets_over drains = false
forgets_over waits_for_forgets = false
forgets_over closes_dispatcher = true
forgets_over closes_bus = true

abbrev is_complete : ShutdownState → Bool
is_complete not_shut_down = false
is_complete shutting_down_now = false
is_complete shutdown_failed = false
is_complete shut_down = true

abbrev pub runs : Phase → Bool
runs no_shutdown = false
runs waits_for_sends = true
runs drains = true
runs waits_for_forgets = true
runs closes_dispatcher = true
runs closes_bus = true

abbrev is_running : ShutdownState → Bool
is_running not_shut_down = false
is_running shutting_down_now = true
is_running shutdown_failed = false
is_running shut_down = false

abbrev pub is_begun : ShutdownState → Bool
is_begun not_shut_down = false
is_begun shutting_down_now = true
is_begun shutdown_failed = true
is_begun shut_down = true

pub record IsOrderly (p : Lifecycle) : Type 0 where
  pub refuses : p.shutting_down ≡ is_begun p.shutdown
  pub one : runs p.phase ≡ is_running p.shutdown
  pub sends : (sends_over p.phase || is_complete p.shutdown) ≡ true → p.sends ≡ 0
  pub forgets : (forgets_over p.phase || is_complete p.shutdown) ≡ true → p.forgets ≡ 0

sends_over-runs : (ph : Phase) → sends_over ph ≡ true → runs ph ≡ true
sends_over-runs no_shutdown h = h
sends_over-runs waits_for_sends h = refl
sends_over-runs drains h = refl
sends_over-runs waits_for_forgets h = refl
sends_over-runs closes_dispatcher h = refl
sends_over-runs closes_bus h = refl

forgets_over-sends_over : (ph : Phase) → forgets_over ph ≡ true → sends_over ph ≡ true
forgets_over-sends_over no_shutdown h = h
forgets_over-sends_over waits_for_sends h = h
forgets_over-sends_over drains h = refl
forgets_over-sends_over waits_for_forgets h = refl
forgets_over-sends_over closes_dispatcher h = refl
forgets_over-sends_over closes_bus h = refl

-- A state of a shutdown that has not begun is neither running nor complete.
begun : (s : ShutdownState) → is_begun s ≡ false → (is_running s ≡ false) × (is_complete s ≡ false)
begun not_shut_down h = (refl, refl)
begun shutting_down_now h = cc h
begun shutdown_failed h = (refl, refl)
begun shut_down h = cc h

running : (s : ShutdownState) → is_running s ≡ true → s ≡ shutting_down_now
running not_shut_down h = cc h
running shutting_down_now h = refl
running shutdown_failed h = cc h
running shut_down h = cc h

busy-runs : (ph : Phase) → ph ≢ no_shutdown → runs ph ≡ true
busy-runs no_shutdown h = ground (arith, h refl)
busy-runs waits_for_sends h = refl
busy-runs drains h = refl
busy-runs waits_for_forgets h = refl
busy-runs closes_dispatcher h = refl
busy-runs closes_bus h = refl

-- Before a shutdown begins nothing is over.
unbegun :
    (p : Lifecycle)
    → IsOrderly p
    → p.shutting_down ≡ false
    → ((sends_over p.phase || is_complete p.shutdown) ≡ false)
      × ((forgets_over p.phase || is_complete p.shutdown) ≡ false)
unbegun p v accepting =
    let (idle, incomplete) = begun p.shutdown (sym v.refuses ∙ accepting) in
    (
      ground (arith, idle, incomplete, v.one, sends_over-runs p.phase),
      ground (
        arith,
        idle,
        incomplete,
        v.one,
        sends_over-runs p.phase,
        forgets_over-sends_over p.phase,
      ),
    )

-- While a shutdown runs the wait groups it has waited for are empty.
advanced-IsOrderly :
    (p : Lifecycle) (from to : Phase)
    → p.phase ≡ from
    → Advances from p to
    → IsOrderly p
    → IsOrderly (record p { phase = to })
advanced-IsOrderly p _ _ at (sends_are_done none_left) v = record {
  refuses = v.refuses;
  one = sym (ap runs at) ∙ v.one;
  sends = λ _. none_left;
  forgets = λ h. v.forgets (ground (arith, h));
}
advanced-IsOrderly p _ _ at is_drained v = record {
  refuses = v.refuses;
  one = sym (ap runs at) ∙ v.one;
  sends = λ _. v.sends (ground (arith, ap sends_over at));
  forgets = λ h. v.forgets (ground (arith, h));
}
advanced-IsOrderly p _ _ at (forgets_are_done none_left) v = record {
  refuses = v.refuses;
  one = sym (ap runs at) ∙ v.one;
  sends = λ _. v.sends (ground (arith, ap sends_over at));
  forgets = λ _. none_left;
}
advanced-IsOrderly p _ _ at dispatcher_is_closed v = record {
  refuses = v.refuses;
  one = sym (ap runs at) ∙ v.one;
  sends = λ _. v.sends (ground (arith, ap sends_over at));
  forgets = λ _. v.forgets (ground (arith, ap forgets_over at));
}

Step-IsOrderly : (p p' : Lifecycle) → Step p p' → IsOrderly p → IsOrderly p'
unfolding begin_send begin_forget end_send end_forget begin_shutdown end_shutdown
Step-IsOrderly _ _ (sends_command p) v =
    if_cases {A = Bool × Lifecycle} (λ q. IsOrderly q.1) p.shutting_down (λ _. v)
      (λ accepting. record {
        refuses = v.refuses;
        one = v.one;
        sends = λ h. ground (arith, h, (unbegun p v accepting).0);
        forgets = v.forgets;
      })
Step-IsOrderly _ _ (command_returns p busy) v = record {
  refuses = v.refuses;
  one = v.one;
  sends = λ h. omega (arith, v.sends h);
  forgets = v.forgets;
}
Step-IsOrderly _ _ (forgets_aggregate p) v =
    if_cases {A = Option Error × Lifecycle} (λ q. IsOrderly q.1) p.shutting_down (λ _. v)
      (λ accepting. record {
        refuses = v.refuses;
        one = v.one;
        sends = v.sends;
        forgets = λ h. ground (arith, h, (unbegun p v accepting).1);
      })
Step-IsOrderly _ _ (forget_returns p busy) v = record {
  refuses = v.refuses;
  one = v.one;
  sends = v.sends;
  forgets = λ h. omega (arith, v.forgets h);
}
Step-IsOrderly _ _ (shuts_down p) v =
    if_cases {A = Bool × Lifecycle} (λ q. IsOrderly q.1) (is_under_way p.shutdown) (λ _. v)
      (λ idle. record { refuses = refl; one = refl; sends = λ h. cc h; forgets = λ h. cc h })
Step-IsOrderly _ _ (advances p to step) v = advanced-IsOrderly p p.phase to refl step v
Step-IsOrderly _ _ (shutdown_fails p e busy) v = record {
  refuses = v.refuses ∙ ap is_begun (running p.shutdown (sym v.one ∙ busy-runs p.phase busy));
  one = refl;
  sends = λ h. cc h;
  forgets = λ h. cc h;
}
Step-IsOrderly _ _ (shutdown_ends p last) v = record {
  refuses = v.refuses ∙ ap is_begun (running p.shutdown (sym v.one ∙ ap runs last));
  one = refl;
  sends = λ _. v.sends (ground (arith, ap sends_over last));
  forgets = λ _. v.forgets (ground (arith, ap forgets_over last));
}

Reaches-IsOrderly : (p : Lifecycle) → Reaches p → IsOrderly p
unfolding new_lifecycle
Reaches-IsOrderly _ starts = record {
  refuses = refl;
  one = refl;
  sends = λ h. cc;
  forgets = λ h. cc;
}
Reaches-IsOrderly _ (goes_on p p' before step) =
    Step-IsOrderly p p' step (Reaches-IsOrderly p before)

taken : {A : Type 0} (b : Bool) (x y : A) → b ≡ true → (if b then x else y) ≡ x
taken b x y h = ap (λ z. if z then x else y) h

-- Whatever calls of Send, Forget and Shutdown run at once: a shutdown is run by one call at a time,
-- exactly while the state says so; no send is in flight while the pool is drained, nor any send or
-- forget while the dispatcher and then the bus are closed, nor after a shutdown that completed; and
-- new sends and forgets are refused as soon as a shutdown has begun, also after one that failed.
pub shutdown_lem :
    (p : Lifecycle)
    → Reaches p
    → IsOrderly p
      × (is_begun p.shutdown ≡ true
          → (begin_send p ≡ (false, p)) × (begin_forget p ≡ (some (sentinel err_shutting_down), p)))
      × (is_under_way p.shutdown ≡ true → begin_shutdown p ≡ (false, p))
unfolding begin_send begin_forget begin_shutdown
shutdown_lem p reached =
    let v = Reaches-IsOrderly p reached in
    (v, λ h. (taken _ _ _ (v.refuses ∙ h), taken _ _ _ (v.refuses ∙ h)), λ h. taken _ _ _ h)
