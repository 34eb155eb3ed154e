-- ===== src/Processor/Recovery/Visits.antt =====
-- The visits of one read of the delivery log.
use asynx.Processor.Recovery.Scanning.{backlog_of}
use asynx.Base.Dict
use asynx.Base.Dict.{Dict}
use asynx.Processor.Recovery.{first_error, String, Delivery}
use asynx.Processor.Recovery.Scanning.{collect, delivery_eq, Backlogs, delivery_eqb_iff}
use asynx.Processor.Recovery.Gathering.{Gathered, collect-Collected, collect-Gathered}
use asynx.Base.{
  Bool, List, contains, ◌≡◌, Distinct, ◌∙◌, true, ◌∷◌, false, arith, none, ap, refl, [], ◌||◌,
  ==_refl, is_some, string_eq,
}
use asynx.Models.Records.{delivery_eqb}

pub Gathered-same :
    (want : String → Bool) (v v' : Delivery → Bool) (g : Backlogs)
    → ((d : Delivery) → v d ≡ v' d)
    → Gathered want v g
    → Gathered want v' g
Gathered-same want v v' g e p = record {
  holds = λ d wanted. p.holds d wanted ∙ e d;
  own = p.own;
  once = p.once;
  listed = p.listed;
  listed_once = p.listed_once;
}

contains_alike :
    (ds : List Delivery) (x d : Delivery) → delivery_eqb x d ≡ true → contains x ds ≡ contains d ds
contains_alike ds x d h = ap (λ z. contains z ds) ((delivery_eqb_iff x d).0 h)

pub collect_each-Gathered :
    (want : String → Bool) (visited : Delivery → Bool) (ds : List Delivery) (g : Backlogs)
    → Gathered want visited g
    → Distinct ds
    → ((d : Delivery) → contains d ds ≡ true → visited d ≡ false)
    → let q = first_error (collect want) ds g in
      (q.0 ≡ none) × Gathered want (λ d. visited d || contains d ds) q.1
unfolding first_error
collect_each-Gathered want visited [] g p once new =
    (refl, Gathered-same want visited _ g (λ d. ground arith) p)
collect_each-Gathered want visited (x ∷ ds) g p (fresh, once) new =
    let q = collect-Collected want x g in
    let g' = (collect want x g).1 in
    let step = collect-Gathered want visited x g p (new x (ground (arith, ==_refl x))) in
    let rest =
      collect_each-Gathered want (λ d. visited d || delivery_eqb x d) ds g' step once
        (λ d h. ground (arith, new d, h, fresh, contains_alike ds x d)) in
    rw q.fine (rest.0, Gathered-same want _ _ _ (λ d. ground arith) rest.1)

pub empty-Gathered :
    (want : String → Bool)
    → Gathered want
        (λ d. is_some (Dict.get (Dict.empty {K = Delivery} {V = Unit {0}}) d))
        (record { backlogs = Dict.empty; order = [] })
empty-Gathered want =
    let nothing : (agg : String)
        → Dict.get (Dict.empty {K = String} {V = List Delivery}) agg ≡ none =
      λ agg. Dict.get-empty agg in
    record {
      holds = λ d wanted.
          ground (arith, nothing d.aggregate_id, Dict.get-empty {K = Delivery} {V = Unit {0}} d);
      own = λ agg d h. ground (arith, h, nothing agg);
      once = λ agg. rw (nothing agg, backlog_of) tt;
      listed = λ agg. ground (arith, nothing agg);
      listed_once = tt;
    }
