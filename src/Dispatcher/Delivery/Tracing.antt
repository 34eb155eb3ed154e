-- ===== src/Dispatcher/Delivery/Tracing.antt =====
-- What an attempt, a wait and a surrender leave of a delivery: the handlers called, and the job.
use asynx.Base.{
  List, String, ℕ, ◌++◌, ◌∷◌, ◌≡◌, map, ◌∙◌, Option, [], ap, sym, refl, if◌then◌else◌, is_some,
  some, none, if_cases, Bool, true, ◌==◌, false, nat_eq,
}
use asynx.Dispatcher.Delivery.{
  timeout_reports, run_durable, Act, DurableSub, try_all, Surroundings, Delivering, Behaviour,
  Failures, handles, Error, reports_panic, does, after_try, reports_delivery, reports_publish,
  sleeps, dead_letters, subscriber_error, publishes, acks, Ended, error_of, attempt_all,
  park_current, wait, Job, dead_lettered, Pace, Wake, slept, dead_letters_to, late_reports, in_time,
  woken, jittered, reports_of, timed_out, taken, interrupted, fails, is_closed, halted, panics,
  elapsed, succeeds, late, panics_while_late, letter_answered, give_up, note, wrap, parked_error,
  let_others, dead_lettering, letter_sent, Point, attempting, waiting,
}
use asynx.Dispatcher.Delivery.Loops.{failed_in}
use mathlib.Core.List.{append_assoc, append-nil}

abbrev pub handled : List Act → List (String × ℕ)
handled [] = []
handled (handles name n ∷ acts) = (name, n) ∷ handled acts
handled (reports_panic _ ∷ acts) = handled acts
handled (reports_delivery _ _ ∷ acts) = handled acts
handled (reports_publish _ ∷ acts) = handled acts
handled (sleeps _ ∷ acts) = handled acts
handled (dead_letters _ ∷ acts) = handled acts
handled (publishes ∷ acts) = handled acts
handled (acks ∷ acts) = handled acts

handled-append : (xs ys : List Act) → handled (xs ++ ys) ≡ handled xs ++ handled ys
handled-append [] ys = refl
handled-append (handles name n ∷ xs) ys = ap (λ zs. (name, n) ∷ zs) (handled-append xs ys)
handled-append (reports_panic _ ∷ xs) ys = handled-append xs ys
handled-append (reports_delivery _ _ ∷ xs) ys = handled-append xs ys
handled-append (reports_publish _ ∷ xs) ys = handled-append xs ys
handled-append (sleeps _ ∷ xs) ys = handled-append xs ys
handled-append (dead_letters _ ∷ xs) ys = handled-append xs ys
handled-append (publishes ∷ xs) ys = handled-append xs ys
handled-append (acks ∷ xs) ys = handled-append xs ys

-- What tells the pace: a call of a handler in an attempt, and a wait.
pub data Beat : Type 0 where
  calls_in rests : ℕ → Beat

abbrev pub beats : List Act → List Beat
beats [] = []
beats (handles _ n ∷ acts) = calls_in n ∷ beats acts
beats (sleeps d ∷ acts) = rests d ∷ beats acts
beats (reports_panic _ ∷ acts) = beats acts
beats (reports_delivery _ _ ∷ acts) = beats acts
beats (reports_publish _ ∷ acts) = beats acts
beats (dead_letters _ ∷ acts) = beats acts
beats (publishes ∷ acts) = beats acts
beats (acks ∷ acts) = beats acts

beats-append : (xs ys : List Act) → beats (xs ++ ys) ≡ beats xs ++ beats ys
beats-append [] ys = refl
beats-append (sleeps d ∷ xs) ys = ap (λ zs. rests d ∷ zs) (beats-append xs ys)
beats-append (handles _ n ∷ xs) ys = ap (λ zs. calls_in n ∷ zs) (beats-append xs ys)
beats-append (reports_panic _ ∷ xs) ys = beats-append xs ys
beats-append (reports_delivery _ _ ∷ xs) ys = beats-append xs ys
beats-append (reports_publish _ ∷ xs) ys = beats-append xs ys
beats-append (dead_letters _ ∷ xs) ys = beats-append xs ys
beats-append (publishes ∷ xs) ys = beats-append xs ys
beats-append (acks ∷ xs) ys = beats-append xs ys

abbrev pub calls_of : ℕ → List DurableSub → List (String × ℕ)
calls_of n = map λ sub. (sub.name, n)

abbrev pub beats_of : ℕ → List DurableSub → List Beat
beats_of n = map λ sub. calls_in n

-- The state after calls of handlers and waits.
pub record Called (calls : List (String × ℕ)) (ds : List Beat) (s s' : Delivering) : Type 0 where
  pub handled' : handled s'.acts ≡ handled s.acts ++ calls
  pub beats' : beats s'.acts ≡ beats s.acts ++ ds
  pub progress' : s'.progress ≡ s.progress

pub unmoved : (s s' : Delivering) → s'.acts ≡ s.acts → s'.progress ≡ s.progress → Called [] [] s s'
unmoved s s' e p = record {
  handled' = ap handled e ∙ sym (append-nil (handled s.acts));
  beats' = ap beats e ∙ sym (append-nil (beats s.acts));
  progress' = p;
}

late_reports-handled :
    (e : Ended) (p : Pace) (err : Error) (n : ℕ)
    → let acts = late_reports (reports_of e) (reports_delivery err n) p in
      (handled acts ≡ []) × (beats acts ≡ [])
late_reports-handled succeeds in_time err n = (refl, refl)
late_reports-handled succeeds late err n = (refl, refl)
late_reports-handled succeeds panics_while_late err n = (refl, refl)
late_reports-handled (fails _) in_time err n = (refl, refl)
late_reports-handled (fails _) late err n = (refl, refl)
late_reports-handled (fails _) panics_while_late err n = (refl, refl)
late_reports-handled (panics _) in_time err n = (refl, refl)
late_reports-handled (panics _) late err n = (refl, refl)
late_reports-handled (panics _) panics_while_late err n = (refl, refl)

timeout_reports-handled :
    (sub : DurableSub) (n : ℕ) (b : Behaviour)
    → let acts = timeout_reports sub n b in (handled acts ≡ []) × (beats acts ≡ [])
unfolding timeout_reports
timeout_reports-handled sub n b =
    if_cases {A = List Act} (λ acts. (handled acts ≡ []) × (beats acts ≡ [])) (sub.timeout == 0)
      (λ _. late_reports-handled b.ends in_time (timed_out sub) n)
      (λ _. late_reports-handled b.ends b.pace (timed_out sub) n)

run_durable-Called :
    (x : Surroundings) (sub : DurableSub) (n : ℕ) (s : Delivering)
    → Called ((sub.name, n) ∷ []) (calls_in n ∷ []) s (run_durable x sub n s).1
unfolding run_durable
run_durable-Called x sub n s =
    let acts = timeout_reports sub n (x.behaves n sub) in
    let none' = timeout_reports-handled sub n (x.behaves n sub) in
    record {
      handled' =
          handled-append s.acts (handles sub.name n ∷ acts)
          ∙ ap (λ zs. handled s.acts ++ (sub.name, n) ∷ zs) none'.0;
      beats' =
          beats-append s.acts (handles sub.name n ∷ acts)
          ∙ ap (λ zs. beats s.acts ++ calls_in n ∷ zs) none'.1;
      progress' = refl;
    }

does-Called :
    (a : Act) (s : Delivering) → handled (a ∷ []) ≡ [] → Called [] (beats (a ∷ [])) s (does a s)
does-Called a s e = record {
  handled' = handled-append s.acts (a ∷ []) ∙ ap (λ zs. handled s.acts ++ zs) e;
  beats' = beats-append s.acts (a ∷ []);
  progress' = refl;
}

-- What others do to the registry is left out.
let_others-Called :
    {calls : List (String × ℕ)} {ds : List Beat} (x : Surroundings) (p : Point) (s t : Delivering)
    → Called calls ds s t
    → Called calls ds s (let_others x p t)
let_others-Called x p s t c = record {
  handled' = c.handled';
  beats' = c.beats';
  progress' = c.progress';
}

Called-trans :
    {xs ys : List (String × ℕ)} {ds es : List Beat} {s t u : Delivering}
    → Called xs ds s t
    → Called ys es t u
    → Called (xs ++ ys) (ds ++ es) s u
Called-trans {xs} {ys} {ds} {es} {s} {t} {u} p q = record {
  handled' = q.handled' ∙ ap (λ zs. zs ++ ys) p.handled' ∙ append_assoc (handled s.acts) xs ys;
  beats' = q.beats' ∙ ap (λ zs. zs ++ es) p.beats' ∙ append_assoc (beats s.acts) ds es;
  progress' = q.progress' ∙ p.progress';
}

-- One subscriber of an attempt.
after_try-lem :
    (sub : DurableSub) (n : ℕ) (o : Option Error) (f : Failures) (s : Delivering)
    → ((after_try sub n o f s).0.failed ≡ f.failed ++ (if is_some o then sub ∷ [] else []))
      × Called [] [] s (after_try sub n o f s).1
after_try-lem sub n none f s = (sym (append-nil f.failed), unmoved s _ refl refl)
after_try-lem sub n (some e) f s =
    (refl, does-Called (reports_delivery (subscriber_error sub.name e) n) s refl)

first_if {ℓ} :
    {A : Type ℓ} (b : Bool) (a : A) (as' : List A)
    → (if b then a ∷ [] else []) ++ as' ≡ (if b then a ∷ as' else as')
first_if true a as' = refl
first_if false a as' = refl

try_all-lem :
    (x : Surroundings) (n : ℕ) (subs : List DurableSub) (f : Failures) (s : Delivering)
    → ((try_all x n subs f s).0.failed ≡ f.failed ++ failed_in x n subs)
      × Called (calls_of n subs) (beats_of n subs) s (try_all x n subs f s).1
unfolding try_all
try_all-lem x n [] f s = (sym (append-nil f.failed), unmoved s _ refl refl)
try_all-lem x n (sub ∷ subs) f s =
    let o = error_of (x.behaves n sub).ends in
    let t = (run_durable x sub n s).1 in
    let a = after_try-lem sub n o f t in
    let done = after_try sub n o f t in
    let rest = try_all-lem x n subs done.0 done.1 in
    (
      rest.0
          ∙ ap (λ zs. zs ++ failed_in x n subs) a.0
          ∙ append_assoc f.failed (if is_some o then sub ∷ [] else []) (failed_in x n subs)
          ∙ ap (λ zs. f.failed ++ zs) (first_if (is_some o) sub (failed_in x n subs)),
      Called-trans (run_durable-Called x sub n s) (Called-trans a.1 rest.1),
    )

pub attempt_all-lem :
    (x : Surroundings) (n : ℕ) (subs : List DurableSub) (s : Delivering)
    → ((attempt_all x n subs s).0.0 ≡ failed_in x n subs)
      × Called (calls_of n subs) (beats_of n subs) s (attempt_all x n subs s).1
unfolding attempt_all
attempt_all-lem x n subs s =
    let none_yet : Failures = record { failed = []; errs = [] } in
    let t = try_all-lem x n subs none_yet s in
    (t.0, let_others-Called x (attempting n) s (try_all x n subs none_yet s).1 t.1)

woken-Called :
    (agg : String) (halt : ℕ) (job : Job) (s : Delivering) (w : Wake)
    → Called [] [] s (woken agg halt job s w).1
woken-Called agg halt job s interrupted = unmoved s _ refl refl
woken-Called agg halt job s halted = unmoved s _ refl refl
woken-Called agg halt job s elapsed = unmoved s _ refl refl

pub wait-Called :
    (x : Surroundings) (agg : String) (halt : ℕ) (job : Job) (n backoff : ℕ) (s : Delivering)
    → Called [] (rests (jittered (x.draws n) backoff) ∷ []) s (wait x agg halt job n backoff s).1
unfolding wait
wait-Called x agg halt job n backoff s =
    let s' = slept x n backoff s in
    let nap = sleeps (jittered (x.draws n) backoff) in
    Called-trans {t = s'} (let_others-Called x (waiting n) s (does nap s) (does-Called nap s refl))
      (woken-Called agg halt job s' (taken (x.wakes n) (is_closed halt s')))

-- The dead-letter handler took the event.
abbrev pub DeadLettered : Surroundings → Job → Type 0
DeadLettered x job =
    (handler : Error → Ended) × (dead_letters_to x job ≡ some handler)
    × (last : Error) × (error_of (handler last) ≡ none)

letter_answered-Called :
    (o : Option Error) (last : Error) (n : ℕ) (s : Delivering)
    → Called [] [] s (letter_answered o last n s).1
      × ((letter_answered o last n s).0 ≡ true → o ≡ none)
letter_answered-Called none last n s =
    (does-Called (reports_delivery (note last "dead-lettered") n) s refl, λ _. refl)
letter_answered-Called (some e) last n s =
    (does-Called (reports_delivery (note e "dead-letter handler") n) s refl, λ h. cc)

letter_sent-Called :
    (x : Surroundings) (o : Option (Error → Ended)) (last : Error) (n : ℕ) (s : Delivering)
    → Called [] [] s (letter_sent x o last n s).1
      × ((letter_sent x o last n s).0 ≡ true
          → (handler : Error → Ended) × (o ≡ some handler)
            × (last : Error) × (error_of (handler last) ≡ none))
letter_sent-Called x none last n s = (unmoved s _ refl refl, λ h. cc)
letter_sent-Called x (some handler) last n s =
    let s' = let_others x dead_lettering (does (dead_letters last) s) in
    let answer = letter_answered-Called (error_of (handler last)) last n s' in
    let sent = does (dead_letters last) s in
    (
      Called-trans {t = s'}
          (let_others-Called x dead_lettering s sent (does-Called (dead_letters last) s refl))
          answer.0,
      λ accepted. (handler, refl, last, answer.1 accepted),
    )

dead_lettered-Called :
    (x : Surroundings) (job : Job) (last : Error) (n : ℕ) (s : Delivering)
    → Called [] [] s (dead_lettered x job last n s).1
      × ((dead_lettered x job last n s).0 ≡ true → DeadLettered x job)
unfolding dead_lettered
dead_lettered-Called x job = letter_sent-Called x (dead_letters_to x job)

pub give_up-Called :
    (x : Surroundings) (agg : String) (halt : ℕ) (job : Job) (last : Error) (n : ℕ) (s : Delivering)
    → Called [] [] s (give_up x agg halt job last n s).1
      × ((give_up x agg halt job last n s).0 ≡ none → DeadLettered x job)
unfolding give_up
give_up-Called x agg halt job last n s =
    let d = dead_lettered-Called x job last n s in
    let s' = (dead_lettered x job last n s).1 in
    let parked = wrap parked_error last in
    let r = does-Called (reports_delivery parked n) (park_current agg halt job parked s') refl in
    if_cases {A = Option Error × Delivering}
      (λ g. Called [] [] s g.1 × (g.0 ≡ none → DeadLettered x job)) (is_closed halt s)
      (λ _. (unmoved s _ refl refl, λ h. cc))
      (λ _.
        if_cases {A = Option Error × Delivering}
          (λ g. Called [] [] s g.1 × (g.0 ≡ none → DeadLettered x job))
          (dead_lettered x job last n s).0 (λ accepted. (d.0, λ _. d.1 accepted))
          (λ _. (
            Called-trans d.0
                (record { handled' = r.handled'; beats' = r.beats'; progress' = refl }),
            λ h. cc,
          )))
