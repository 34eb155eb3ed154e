-- ===== src/Processor/Shard/Alone.antt =====
-- At most one worker executes the commands of an aggregate.
use asynx.Base.Dict
use asynx.Base.{
  ℕ, String, List, ◌≡◌, All, some, ◌++◌, is_some, if_cases, ◌∷◌, true, [], leb, length, ◌≤◌, nat_eq,
  string_eq, arith, Bool-cases, length-append, ◌==◌, Option-cases, refl, inl, false, inr, ◌≢◌,
  ==_refl, nat_eqb_iff, ap, sym, ◌∙◌, none,
}
use asynx.Processor.Shard.{
  Workers, new, file, CommandJob, start, take_job, Shard, claim, go_on_with, finish_job, moves,
  Move, next_of, next, takes, finishes,
}
use asynx.Base.Dict.{Dict}
use mathlib.Core.Path.{subst}

pub record IsAlone (p : Workers) : Type 0 where
  -- An aggregate that a worker runs has a mailbox.
  pub held :
      (w : ℕ) (job : CommandJob)
      → Dict.get p.busy w ≡ some job
      → is_some (Dict.get p.shard.mailboxes job.aggregate_id) ≡ true
  alone :
      (w w' : ℕ) (job job' : CommandJob)
      → Dict.get p.busy w ≡ some job
      → Dict.get p.busy w' ≡ some job'
      → job.aggregate_id ≡ job'.aggregate_id
      → w ≡ w'
  -- A mailbox holds commands of its aggregate, and no more than the limit.
  filed :
      (agg : String) (jobs : List CommandJob)
      → Dict.get p.shard.mailboxes agg ≡ some jobs
      → All (λ j. j.aggregate_id ≡ agg) jobs × (length jobs ≤ p.shard.mailbox_limit)

new-IsAlone : (limit : ℕ) → IsAlone (new limit)
unfolding new
new-IsAlone limit = record {
  held = λ w job h. cc (h, Dict.get-empty {V = CommandJob} w);
  alone = λ w w' job job' h _ _. cc (h, Dict.get-empty {V = CommandJob} w);
  filed = λ agg jobs h. cc (h, Dict.get-empty {V = List CommandJob} agg);
}

All-end :
    (agg : String) (jobs : List CommandJob) (job : CommandJob)
    → All (λ j. j.aggregate_id ≡ agg) jobs
    → job.aggregate_id ≡ agg
    → All (λ j. j.aggregate_id ≡ agg) (jobs ++ job ∷ [])
All-end agg [] job h e = (e, tt)
All-end agg (j ∷ jobs) job (h, hs) e = (h, All-end agg jobs job hs e)

-- What a mailbox may hold.
abbrev Fits : ℕ → String → List CommandJob → Type 0
Fits limit agg jobs = All (λ j. j.aggregate_id ≡ agg) jobs × (length jobs ≤ limit)

abbrev AllFit : ℕ → Dict String (List CommandJob) → Type 0
AllFit limit boxes =
    (agg : String) (jobs : List CommandJob) → Dict.get boxes agg ≡ some jobs → Fits limit agg jobs

AllFit-put :
    (limit : ℕ) (boxes : Dict String (List CommandJob)) (agg : String) (jobs : List CommandJob)
    → AllFit limit boxes
    → Fits limit agg jobs
    → AllFit limit (Dict.put boxes agg jobs)
AllFit-put limit boxes agg jobs h fits a js there = elim (Bool-cases (agg == a)) [
  | inl same ↦
      let e : some jobs ≡ some js = ground (arith, Dict.get-put boxes agg a jobs, there, same) in
      let e' : jobs ≡ js = cc e in
      subst (λ x. Fits limit x js) ((string_eq.beq_iff agg a).0 same)
        (subst (Fits limit agg) e' fits)
  | inr other ↦ h a js (ground (arith, Dict.get-put boxes agg a jobs, there, other))
]

AllFit-remove :
    (limit : ℕ) (boxes : Dict String (List CommandJob)) (agg : String)
    → AllFit limit boxes
    → AllFit limit (Dict.remove boxes agg)
AllFit-remove limit boxes agg h a js there =
    h a js (ground (arith, Dict.get-remove boxes agg a, there))

-- A mailbox is written, and no worker changes what it does.
file-IsAlone :
    (p : Workers) (job : CommandJob) (jobs : List CommandJob)
    → IsAlone p
    → Dict.get p.shard.mailboxes job.aggregate_id ≡ some jobs
    → IsAlone (record p { shard = file job.aggregate_id job jobs p.shard })
unfolding file
file-IsAlone p job jobs v there =
    if_cases (λ s. IsAlone (record p { shard = s })) (leb p.shard.mailbox_limit (length jobs))
      (λ _. record { held = v.held; alone = v.alone; filed = v.filed })
      (λ room.
        let old = v.filed job.aggregate_id jobs there in
        record {
          held = λ w j h. ground (
            arith,
            Dict.get-put p.shard.mailboxes job.aggregate_id j.aggregate_id (jobs ++ job ∷ []),
            v.held w j h,
          );
          alone = v.alone;
          filed =
              AllFit-put p.shard.mailbox_limit p.shard.mailboxes job.aggregate_id (jobs ++ job ∷ [])
                v.filed
                (
                  All-end job.aggregate_id jobs job old.0 refl,
                  ground (arith, length-append jobs (job ∷ [])),
                );
        })

-- A worker starts a command of an aggregate that no other worker runs.
start-IsAlone :
    (p : Workers) (w : ℕ) (job : CommandJob) (s : Shard)
    → IsAlone p
    → ((w' : ℕ) (j : CommandJob)
        → (w == w') ≡ false
        → Dict.get p.busy w' ≡ some j
        → j.aggregate_id ≢ job.aggregate_id)
    → ((agg : String)
        → is_some (Dict.get p.shard.mailboxes agg) ≡ true
        → is_some (Dict.get s.mailboxes agg) ≡ true)
    → is_some (Dict.get s.mailboxes job.aggregate_id) ≡ true
    → AllFit s.mailbox_limit s.mailboxes
    → IsAlone (start w job s p)
unfolding start
start-IsAlone p w job s v free kept mine fits = record {
  held = λ w' j h. elim (Bool-cases (w == w')) [
    | inl same ↦
        let e : some job ≡ some j = ground (arith, Dict.get-put p.busy w w' job, h, same) in
        let e' : job ≡ j = cc e in
        subst (λ x. is_some (Dict.get s.mailboxes x.aggregate_id) ≡ true) e' mine
    | inr other ↦
        kept j.aggregate_id (v.held w' j (ground (arith, Dict.get-put p.busy w w' job, h, other)))
  ];
  alone = λ a b j k ha hb e. elim (Bool-cases (w == a)) [
    | inl sa ↦ elim (Bool-cases (w == b)) [
      | inl sb ↦ omega (arith, (nat_eqb_iff w a).0 sa, (nat_eqb_iff w b).0 sb)
      | inr db ↦
          let ja : job.aggregate_id ≡ j.aggregate_id =
            ap (λ x. x.aggregate_id) (same_some (sym (got a sa) ∙ ha)) in
          absurd (free b k db (old b db hb) (sym (ja ∙ e)))
    ]
    | inr da ↦ elim (Bool-cases (w == b)) [
      | inl sb ↦
          let jb : job.aggregate_id ≡ k.aggregate_id =
            ap (λ x. x.aggregate_id) (same_some (sym (got b sb) ∙ hb)) in
          absurd (free a j da (old a da ha) (e ∙ sym jb))
      | inr db ↦ v.alone a b j k (old a da ha) (old b db hb) e
    ]
  ];
  filed = fits;
}
  where
    got : (a : ℕ) → (w == a) ≡ true → Dict.get (Dict.put p.busy w job) a ≡ some job
    got a h = ground (arith, Dict.get-put p.busy w a job, h)

    old :
        (a : ℕ) {j : CommandJob}
        → (w == a) ≡ false
        → Dict.get (Dict.put p.busy w job) a ≡ some j
        → Dict.get p.busy a ≡ some j
    old a h e = ground (arith, Dict.get-put p.busy w a job, h, e)

    same_some : {a b : CommandJob} → some a ≡ some b → a ≡ b
    same_some h = cc h

take_job-IsAlone : (w : ℕ) (job : CommandJob) (p : Workers) → IsAlone p → IsAlone (take_job w job p)
unfolding take_job claim
take_job-IsAlone w job p v = elim (Option-cases (Dict.get p.busy w)) [
  | inr (j, busy) ↦ rw (take_job, busy) v
  | inl idle ↦ elim (Option-cases (Dict.get p.shard.mailboxes job.aggregate_id)) [
    | inr (jobs, there) ↦ rw (take_job, idle, claim, there) (file-IsAlone p job jobs v there)
    | inl missing ↦
        rw (take_job, idle, claim, missing)
          (start-IsAlone p w job _ v
            (λ w' j d h e. ground (
              arith,
              subst (λ a. is_some (Dict.get p.shard.mailboxes a) ≡ true) e (v.held w' j h),
              missing,
            ))
            (λ agg h. ground (arith, Dict.get-put p.shard.mailboxes job.aggregate_id agg [], h))
            (ground (
              arith,
              Dict.get-put p.shard.mailboxes job.aggregate_id job.aggregate_id [],
              ==_refl job.aggregate_id,
            ))
            (AllFit-put p.shard.mailbox_limit p.shard.mailboxes job.aggregate_id [] v.filed
              (tt, omega arith)))
  ]
]

-- The worker of an aggregate is done with its mailbox, or goes on with the next command.
next-IsAlone :
    (w : ℕ) (job : CommandJob) (p : Workers) (jobs : List CommandJob)
    → IsAlone p
    → Dict.get p.busy w ≡ some job
    → Dict.get p.shard.mailboxes job.aggregate_id ≡ some jobs
    → IsAlone (go_on_with w (next_of job.aggregate_id jobs p.shard) p)
unfolding go_on_with next_of
next-IsAlone w job p [] v runs there = record {
  held = λ w' j h. elim (Bool-cases (w == w')) [
    | inl same ↦ cc (h, gone w' same)
    | inr other ↦ elim (Bool-cases (job.aggregate_id == j.aggregate_id)) [
      | inl shared ↦
          let e =
            v.alone w w' job j runs (old w' other h)
              ((string_eq.beq_iff job.aggregate_id j.aggregate_id).0 shared) in
          cc (other, (nat_eqb_iff w w').1 e)
      | inr apart ↦ ground (
        arith,
        Dict.get-remove p.shard.mailboxes job.aggregate_id j.aggregate_id,
        v.held w' j (old w' other h),
        apart,
      )
    ]
  ];
  alone = λ a b j k ha hb e. v.alone a b j k (kept a ha) (kept b hb) e;
  filed = AllFit-remove p.shard.mailbox_limit p.shard.mailboxes job.aggregate_id v.filed;
}
  where
    gone : (a : ℕ) → (w == a) ≡ true → Dict.get (Dict.remove p.busy w) a ≡ none
    gone a h = ground (arith, Dict.get-remove p.busy w a, h)

    old :
        (a : ℕ) {j : CommandJob}
        → (w == a) ≡ false
        → Dict.get (Dict.remove p.busy w) a ≡ some j
        → Dict.get p.busy a ≡ some j
    old a h e = ground (arith, Dict.get-remove p.busy w a, h, e)

    kept :
        (a : ℕ) {j : CommandJob}
        → Dict.get (Dict.remove p.busy w) a ≡ some j
        → Dict.get p.busy a ≡ some j
    kept a e = ground (arith, Dict.get-remove p.busy w a, e)
next-IsAlone w job p (j ∷ rest) v runs there =
    let mine = v.filed job.aggregate_id (j ∷ rest) there in
    start-IsAlone p w j _ v
      (λ w' k other h e.
        cc (other, (nat_eqb_iff w w').1 (v.alone w w' job k runs h (sym (e ∙ mine.0.0)))))
      (λ agg h. ground (arith, Dict.get-put p.shard.mailboxes job.aggregate_id agg rest, h))
      (ground (
        arith,
        Dict.get-put p.shard.mailboxes job.aggregate_id j.aggregate_id rest,
        (string_eq.beq_iff job.aggregate_id j.aggregate_id).1 (sym mine.0.0),
      ))
      (AllFit-put p.shard.mailbox_limit p.shard.mailboxes job.aggregate_id rest v.filed
        (mine.0.1, omega (arith, mine.1)))

finish_job-IsAlone : (w : ℕ) (p : Workers) → IsAlone p → IsAlone (finish_job w p)
unfolding finish_job next
finish_job-IsAlone w p v = elim (Option-cases (Dict.get p.busy w)) [
  | inl idle ↦ rw (finish_job, idle) v
  | inr (job, runs) ↦ elim (Option-cases (Dict.get p.shard.mailboxes job.aggregate_id)) [
    | inl missing ↦ absurd (ground (arith, v.held w job runs, missing))
    | inr (jobs, there) ↦
        rw (finish_job, runs, next, there) (next-IsAlone w job p jobs v runs there)
  ]
]

moves-from : (ms : List Move) (p : Workers) → IsAlone p → IsAlone (moves ms p)
unfolding moves
moves-from [] p v = v
moves-from (takes w job ∷ ms) p v = moves-from ms (take_job w job p) (take_job-IsAlone w job p v)
moves-from (finishes w ∷ ms) p v = moves-from ms (finish_job w p) (finish_job-IsAlone w p v)

-- However the workers of a shard take commands from its queue and finish them: no two workers run
-- the same aggregate at once, an aggregate that is run has a mailbox, and a mailbox holds commands
-- of its aggregate only, never more than the limit.
pub moves-IsAlone : (limit : ℕ) (ms : List Move) → IsAlone (moves ms (new limit))
moves-IsAlone limit ms = moves-from ms (new limit) (new-IsAlone limit)
