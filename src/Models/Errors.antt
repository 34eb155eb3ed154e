-- ===== src/Models/Errors.antt =====
-- models/errors.go, and the ways in which the code builds an error from others. What a format
-- verb prints of a value is not modelled, what `errors.Is` finds is.
use asynx.Base.{ℕ, String, Bool, false, ◌||◌, ◌≡◌, refl, ◌⊎◌, inl, inr, nat_eqb}

pub data Sentinel : Type 0 where
  err_not_found err_validation err_pipeline_failed err_queue_full err_shutting_down : Sentinel
  err_already_shutting_down err_context_cancelled err_bus_closed err_nil_handler : Sentinel
  err_empty_pattern err_missing_event_store err_missing_snapshot_store : Sentinel
  err_forget_failed err_dispatcher_closed err_duplicate_receipt err_sync_projection : Sentinel
  err_handler_panic err_handler_timeout err_fallback_unsupported err_delivery_parked : Sentinel
  err_forget_in_progress err_send_wait_from_handler err_forget_from_handler : Sentinel

-- The order of the declarations; two sentinels are one when their codes are.
abbrev code : Sentinel → ℕ
code err_not_found = 0
code err_validation = 1
code err_pipeline_failed = 2
code err_queue_full = 3
code err_shutting_down = 4
code err_already_shutting_down = 5
code err_context_cancelled = 6
code err_bus_closed = 7
code err_nil_handler = 8
code err_empty_pattern = 9
code err_missing_event_store = 10
code err_missing_snapshot_store = 11
code err_forget_failed = 12
code err_dispatcher_closed = 13
code err_duplicate_receipt = 14
code err_sync_projection = 15
code err_handler_panic = 16
code err_handler_timeout = 17
code err_fallback_unsupported = 18
code err_delivery_parked = 19
code err_forget_in_progress = 20
code err_send_wait_from_handler = 21
code err_forget_from_handler = 22

-- `external` is an error of code outside the repository, known by its text. `note` is
-- `fmt.Errorf("%w: ...", err)` and `wrap` is `fmt.Errorf("%w: %w", outer, cause)`.
pub data Error : Type 0 where
  sentinel : Sentinel → Error
  external : String → Error
  note : Error → String → Error
  wrap : Error → Error → Error
  subscriber_error : String → Error → Error

-- errors.Is(err, target)
unfoldable pub is : Error → Sentinel → Bool
is (sentinel s) t = nat_eqb (code s) (code t)
is (external _) t = false
is (note e _) t = is e t
is (wrap outer cause) t = is outer t || is cause t
is (subscriber_error _ e) t = is e t

-- A pair (value, error) of which one part counts.
pub data Result {ℓ} (A : Type ℓ) : Type ℓ where
  ok : A → Result A
  fail : Error → Result A

infixl 5 ◌>>=◌
abbrev pub ◌>>=◌ {ℓ κ} : {A : Type ℓ} {B : Type κ} → Result A → (A → Result B) → Result B
ok a >>= f = f a
fail e >>= f = fail e

pub Result-cases {ℓ} :
    {A : Type ℓ} (r : Result A) → ((a : A) × (r ≡ ok a)) ⊎ ((e : Error) × (r ≡ fail e))
Result-cases (ok a) = inl (a, refl)
Result-cases (fail e) = inr (e, refl)
