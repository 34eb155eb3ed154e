-- ===== src/Tests/Stores.antt =====
-- The in-memory store, with two records in one stream.
use asynx.Base.Dict
use asynx.Base.{
  ℕ, List, String, ◌≡◌, true, ◌∷◌, none, some, [], if_cases, ◌≢◌, string_eq, if◌then◌else◌, ◌==◌,
  arith, take, ◌&&◌, ◌⊎◌, nat_eq, refl,
}
use asynx.Store.Memory.{Memory, entries_of, read_from, to_blobs, or_nil, read_range}
use asynx.Models.Records.{Receipt}
use asynx.Store.Memory.Transaction.{
  Program, atomically, calls, appends, append_one, drops_deliveries, committed, returns,
  run_program,
}
use asynx.Store.Memory.Rollback.{SameContents, atomically_rolls_back}
use asynx.Store.Memory.Order.{IsOrdered, atomically-IsOrdered, Above}
use asynx.Store.Memory.Appends.{record_at, conflict, append_one_lem}
use asynx.Store.Memory.Slices.{Entry}
use asynx.Models.Errors.{ok, sentinel, err_sync_projection}
use asynx.Store.Memory.Receipts.{atomically_keeps_receipt}
use asynx.Store.Memory.Reads.{from_version, reads_lem}

abbrev first_two : List (Entry String)
first_two = record { version = 1; blob = "a" } ∷ record { version = 2; blob = "b" } ∷ []

abbrev receipt_of : Receipt
receipt_of = record {
  accepted = true;
  aggregate_id = "order-1";
  event_id = "event-2";
  version = 2;
  rejection = "";
}

abbrev two_records : Memory String
two_records = record {
  streams = Dict.put Dict.empty "orders" first_two;
  receipts = Dict.put Dict.empty "command-1" receipt_of;
  deliveries = record { aggregate_id = "order-1"; version = 2 } ∷ [];
  err_on = Dict.empty;
}

-- It appends, drops the deliveries, and then a projection fails.
abbrev doomed : Program String
doomed = calls (appends none "orders" 3 "c") (λ r₁.
    calls (drops_deliveries none "order-1") (λ r₂. returns (some (sentinel err_sync_projection))))

two_records-IsOrdered : IsOrdered two_records
unfolding entries_of
two_records-IsOrdered = record {
  ascending = λ id. rw (Dict.get-put (Dict.empty {V = List (Entry String)}) "orders" id _) (
      if_cases (λ o. Above {B = String} 0 (or_nil o)) ("orders" == id)
        (λ _. (omega arith, (omega arith, tt)))
        (λ _. rw (Dict.get-empty {V = List (Entry String)} id) tt));
}

two_records-clear : Dict.get two_records.err_on "orders" ≡ none
two_records-clear = Dict.get-empty "orders"

two_records-receipt : Dict.get two_records.receipts "command-1" ≡ some receipt_of
two_records-receipt =
    rw (Dict.get-put (Dict.empty {K = String} {V = Receipt}) "command-1" "command-1" receipt_of)
      refl

doomed-fails : (atomically none doomed two_records).0 ≢ committed
unfolding atomically run_program
doomed-fails h = cc h

atomically_rolls_back_example : SameContents (atomically none doomed two_records).1 two_records
atomically_rolls_back_example = atomically_rolls_back none doomed two_records doomed-fails

atomically-IsOrdered_example : IsOrdered (atomically none doomed two_records).1
atomically-IsOrdered_example = atomically-IsOrdered none doomed two_records two_records-IsOrdered

reads_example :
    (read_from none two_records "orders" 2
      ≡ ok (to_blobs (from_version 2 (entries_of two_records "orders"))))
    × (read_range none two_records "orders" 2 1
        ≡ ok (to_blobs (take 1 (from_version 2 (entries_of two_records "orders")))))
reads_example = reads_lem two_records "orders" 2 1 two_records-IsOrdered

append_one_example :
    ((record_at two_records "orders" 2 ≡ none)
      × ((append_one none two_records "orders" 2 "d").0 ≡ committed)
      × ((j : String) (w : ℕ)
          → record_at (append_one none two_records "orders" 2 "d").1 j w
            ≡ (if "orders" == j && 2 == w then some "d" else record_at two_records j w)))
    ⊎ ((old : String) × (record_at two_records "orders" 2 ≡ some old)
        × (append_one none two_records "orders" 2 "d" ≡ (conflict, two_records)))
append_one_example =
    append_one_lem two_records "orders" 2 "d" two_records-IsOrdered two_records-clear

keeps_receipt_example :
    Dict.get (atomically none doomed two_records).1.receipts "command-1" ≡ some receipt_of
keeps_receipt_example =
    atomically_keeps_receipt none doomed two_records "command-1" receipt_of two_records-receipt
