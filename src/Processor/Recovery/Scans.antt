-- ===== src/Processor/Recovery/Scans.antt =====
-- The scan of the delivery log ends, and gathers what stays in the log.
use asynx.Processor.Recovery.Scanning.{backlog_of}
use asynx.Base.Dict
use asynx.Base.Dict.{Dict}
use asynx.Store.Memory.{pending_deliveries}
use asynx.Processor.Recovery.{first_error, String, ℕ, Delivery, Error, note}
use asynx.Processor.Recovery.Scanning.{
  unseen_of, collect, scan_from, delivery_eq, Backlogs, LogRead, pending_by_aggregate,
  batch_or_default,
}
use asynx.Processor.Recovery.Gathering.{Gathered, unseen_of-Unseen}
use asynx.Base.{
  Bool, contains, length, ◌≤◌, take, ◌≡◌, Distinct, ◌∙◌, true, suc, arith, none, ap, zero, refl, [],
  ◌||◌, Option, ◌<◌, ◌+◌, is_some, ◌⊎◌, ◌^◌, some, Option-cases, inr, inl, min, Bool-cases, ltb,
  ◌*◌, ◌%◌, string_eq, ◌==◌, sym, take_all, contains-take, length-take,
}
use mathlib.Core.Path.{subst}
use asynx.Processor.Recovery.Visits.{collect_each-Gathered, empty-Gathered, Gathered-same}

module _ {D : Type 0} where
  -- What a scan, from what had been seen, says of the log that it read bit by bit.
  pub record Scanned (want : String → Bool) (reads : ℕ → LogRead D) (seen : Delivery → Bool)
      (q : Option Error × Backlogs) : Type 0 where
    pub visited : Delivery → Bool
    pub gathered : Gathered want visited q.1
    pub kept : (d : Delivery) → seen d ≡ true → visited d ≡ true
    pub complete :
        q.0 ≡ none
        → (d : Delivery) → ((k : ℕ) → contains d (reads k).store.deliveries ≡ true)
        → visited d ≡ true
    pub sound :
        (d : Delivery)
        → visited d ≡ true
        → (seen d ≡ true) ⊎ ((k : ℕ) × (contains d (reads k).store.deliveries ≡ true))
    pub succeeds : ((k : ℕ) → (reads k).at_read ≡ none) → q.0 ≡ none

  -- The fuel and the limit together cover the log, whose length stays below 2 ^ 62.
  abbrev Covers : (fuel limit bound : ℕ) → (ℕ → LogRead D) → Type 0
  Covers fuel limit bound reads =
      (1 ≤ limit)
      × (suc bound < fuel + limit)
      × (bound < 2 ^ 62)
      × ((k : ℕ) → length (reads k).store.deliveries ≤ bound)

  abbrev Finished :
      (String → Bool)
      → (ℕ → LogRead D)
      → (Delivery → Bool)
      → Option (Option Error × Backlogs)
      → Type 0
  Finished want reads seen o =
      (q : Option Error × Backlogs) × (o ≡ some q) × Scanned want reads seen q

  -- The first prefix that is shorter than its limit is the whole log.
  whole-Scanned :
      (limit : ℕ) (reads : ℕ → LogRead D) (want : String → Bool) (seen seen' : Delivery → Bool)
      (g : Backlogs)
      → let log = (reads 0).store.deliveries in
        let pending = take (min limit (length log)) log in
        (length pending < limit)
        → ((d : Delivery) → seen' d ≡ (seen d || contains d pending))
        → Gathered want seen' g
        → Scanned want reads seen (none, g)
  whole-Scanned limit reads want seen seen' g short marked p =
      let log = (reads 0).store.deliveries in
      record {
        visited = seen';
        gathered = p;
        kept = λ d h. ground (arith, marked d, h);
        complete = λ _ d there. ground (
          arith,
          marked d,
          there 0,
          ap (contains d) (
              take_all (min limit (length log)) log
                (omega (arith, short, length-take (min limit (length log)) log (omega arith)))),
        );
        sound = λ d h. elim (Bool-cases (seen d)) [
          | inl old ↦ inl old
          | inr new ↦
              inr
                (0, contains-take d (min limit (length log)) log (ground (arith, h, new, marked d)))
        ];
        succeeds = λ _. refl;
      }

  -- A prefix as long as its limit, and what the next reads see.
  prefix-Scanned :
      (limit : ℕ) (reads : ℕ → LogRead D) (want : String → Bool) (seen seen' : Delivery → Bool)
      (q : Option Error × Backlogs)
      → let log = (reads 0).store.deliveries in
        let pending = take (min limit (length log)) log in
        ((d : Delivery) → seen' d ≡ (seen d || contains d pending))
        → Scanned want (λ k. reads (suc k)) seen' q
        → Scanned want reads seen q
  prefix-Scanned limit reads want seen seen' q marked p =
      let log = (reads 0).store.deliveries in
      record {
        visited = p.visited;
        gathered = p.gathered;
        kept = λ d h. p.kept d (ground (arith, marked d, h));
        complete = λ fine d there. p.complete fine d (λ k. there (suc k));
        sound = λ d h. elim (p.sound d h) [
          | inr (k, there) ↦ inr (suc k, there)
          | inl old ↦ elim (Bool-cases (seen d)) [
            | inl older ↦ inl older
            | inr new ↦ inr (
              0,
              contains-take d (min limit (length log)) log (ground (arith, old, new, marked d)),
            )
          ]
        ];
        succeeds = λ clear. p.succeeds (λ k. clear (suc k));
      }

  ended-Scanned :
      (reads : ℕ → LogRead D) (want : String → Bool) (seen : Dict Delivery (Unit {0}))
      (g : Backlogs) (e : Error)
      → Gathered want (λ d. is_some (Dict.get seen d)) g
      → (reads 0).at_read ≡ some e
      → Scanned want reads (λ d. is_some (Dict.get seen d)) (some (note e "asynx: recovery"), g)
  ended-Scanned reads want seen g e p ended = record {
    visited = λ d. is_some (Dict.get seen d);
    gathered = p;
    kept = λ d h. h;
    complete = λ h. cc h;
    sound = λ d h. inl h;
    succeeds = λ clear. cc (clear 0, ended);
  }

  scan_from-Scanned :
      (fuel limit bound : ℕ) (reads : ℕ → LogRead D) (want : String → Bool)
      (seen : Dict Delivery (Unit {0})) (g : Backlogs)
      → 0 < fuel
      → Covers fuel limit bound reads
      → Gathered want (λ d. is_some (Dict.get seen d)) g
      → Finished want reads
          (λ d. is_some (Dict.get seen d))
          (scan_from fuel reads limit seen (collect want) g)
  unfolding scan_from pending_deliveries
  scan_from-Scanned zero limit bound reads want seen g f c p = ground (arith, f)
  scan_from-Scanned (suc fuel) limit bound reads want seen g f (l, b, small, logs) p =
      elim (Option-cases (reads 0).at_read) [
        | inr (e, ended) ↦
            rw (scan_from, ended)
              (
                (some (note e "asynx: recovery"), g),
                refl,
                ended-Scanned reads want seen g e p ended,
              )
        | inl clear ↦
            let log = (reads 0).store.deliveries in
            let pending = take (min limit (length log)) log in
            let u = unseen_of-Unseen pending seen in
            let q = unseen_of pending seen in
            let done =
              collect_each-Gathered want (λ d. is_some (Dict.get seen d)) q.0 g p u.once
                (λ d h. ground (arith, h, u.fresh d)) in
            let g' = (first_error (collect want) q.0 g).1 in
            let p' : Gathered want (λ d. is_some (Dict.get q.1 d)) g' =
              Gathered-same want _ _ g' (λ d. ground (arith, u.fresh d, u.marked d)) done.1 in
            elim (Bool-cases (ltb (length pending) limit)) [
              | inl last ↦
                  rw (scan_from, clear, done.0, last)
                    (
                      (none, g'),
                      refl,
                      whole-Scanned limit reads want _ _ g' (ground (arith, last)) u.marked p',
                    )
              | inr more ↦
                  let held : limit ≤ length log =
                    ground (arith, more, length-take (min limit (length log)) log (omega arith)) in
                  let doubles : (limit * 2) % 2 ^ 64 ≡ limit * 2 =
                    omega (arith, held, logs 0, small) in
                  let (result, runs, scanned) =
                    scan_from-Scanned fuel ((limit * 2) % 2 ^ 64) bound (λ k. reads (suc k)) want
                      q.1 g' (omega (arith, held, logs 0, b))
                      (rw doubles
                        (omega (arith, l), omega (arith, l, b), small, (λ k. logs (suc k))))
                      p' in
                  rw (scan_from, clear, done.0, more)
                    (result, runs, prefix-Scanned limit reads want _ _ result u.marked scanned)
            ]
      ]

  -- What the grouped backlogs say of the log, whose k-th read was `reads k`.
  pub record Grouped (want : String → Bool) (reads : ℕ → LogRead D) (failure : Option Error)
      (g : Backlogs) : Type 0 where
    pub succeeds : ((k : ℕ) → (reads k).at_read ≡ none) → failure ≡ none
    pub complete :
        failure ≡ none
        → (d : Delivery) → want d.aggregate_id ≡ true
        → ((k : ℕ) → contains d (reads k).store.deliveries ≡ true)
        → contains d (backlog_of g d.aggregate_id) ≡ true
    pub sound :
        (agg : String) (d : Delivery)
        → contains d (backlog_of g agg) ≡ true
        → ((d.aggregate_id == agg) ≡ true)
          × (want agg ≡ true)
          × (k : ℕ) × (contains d (reads k).store.deliveries ≡ true)
    pub once : (agg : String) → Distinct (backlog_of g agg)
    pub listed : (agg : String) → contains agg g.order ≡ is_some (Dict.get g.backlogs agg)
    pub listed_once : Distinct g.order

  abbrev pub Groups : (String → Bool) → (ℕ → LogRead D) → Option (Option Error × Backlogs) → Type 0
  Groups want reads none = ⊥
  Groups want reads (some (failure, g)) = Grouped want reads failure g

  Scanned-Grouped :
      (want : String → Bool) (reads : ℕ → LogRead D) (q : Option Error × Backlogs)
      → Scanned want reads (λ d. is_some (Dict.get (Dict.empty {K = Delivery} {V = Unit {0}}) d)) q
      → Grouped want reads q.0 q.1
  Scanned-Grouped want reads q s = record {
    succeeds = s.succeeds;
    complete = λ fine d wanted there. s.gathered.holds d wanted ∙ s.complete fine d there;
    sound = λ agg d h.
        let (same, wanted) = s.gathered.own agg d h in
        let alike : d.aggregate_id ≡ agg = (string_eq.beq_iff d.aggregate_id agg).0 same in
        let seen : s.visited d ≡ true =
          sym (s.gathered.holds d (ap want alike ∙ wanted))
          ∙ ap (λ a. contains d (backlog_of q.1 a)) alike
          ∙ h in
        let (k, there) : (k : ℕ) × (contains d (reads k).store.deliveries ≡ true) =
          elim (s.sound d seen) [
            | inr there ↦ there
            | inl old ↦ ground (arith, old, Dict.get-empty {K = Delivery} {V = Unit {0}} d)
          ] in
        (same, wanted, k, there);
    once = s.gathered.once;
    listed = s.gathered.listed;
    listed_once = s.gathered.listed_once;
  }

  -- Reading the delivery log in growing prefixes ends, however others change the log between the
  -- reads, if it never has more than `bound` entries, below 2 ^ 62: two more steps of fuel are enough.
  -- It fails only if a read fails. The backlog of an aggregate has deliveries of that aggregate only,
  -- each once and each of them in the log at some read. If it does not fail, the backlog of a wanted
  -- aggregate has all of its deliveries that stay in the log. The order lists the aggregates that
  -- have a backlog, each once.
  pub pending_by_aggregate_lem :
      (reads : ℕ → LogRead D) (bound batch : ℕ) (want : String → Bool)
      → ((k : ℕ) → length (reads k).store.deliveries ≤ bound)
      → bound < 2 ^ 62
      → Groups want reads
          (pending_by_aggregate (suc (suc bound)) reads (batch_or_default batch) want)
  unfolding pending_by_aggregate batch_or_default
  pending_by_aggregate_lem reads bound batch want logs small =
      let limit = batch_or_default batch in
      let positive : 1 ≤ limit = ground arith in
      let start : Backlogs = record { backlogs = Dict.empty; order = [] } in
      let (q, runs, scanned) =
        scan_from-Scanned (suc (suc bound)) limit bound reads want Dict.empty start (omega arith)
          (positive, omega (arith, positive), small, logs) (empty-Gathered want) in
      subst (Groups want reads) (sym runs) (Scanned-Grouped want reads q scanned)
