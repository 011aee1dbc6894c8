-- ===== src/Backfill/Workers/Accounts.antt =====
-- backfillers/workers.go: no job is lost or answered twice, and how many run at once.
use margin_offer_system.Base.{
  ℕ, suc, ◌+◌, ◌≤◌, ◌≡◌, refl, ap, Bool, Option, none, some, List, [], ◌∷◌, ◌++◌, length,
  length-append, arith, if◌then◌else◌, inl, inr, String,
}
use margin_offer_system.Base.GoMap.{put, delete}
use margin_offer_system.Base.Run.{done, Run-cases}
use margin_offer_system.Types.Time.{Time}
use margin_offer_system.Types.Pool.{Solana}
use margin_offer_system.Backfill.Requests.{BackfillRequest}
use margin_offer_system.Backfill.Fetch.{ChainClient}
use margin_offer_system.Backfill.Jobs.{
  Progress, Backfiller, Overwrite, begin, process_source, finish_job, process_job,
}
use margin_offer_system.Backfill.Service.{start_service, stop_service}
use margin_offer_system.Backfill.Workers.{
  BackfillJob, BackfillService, job_queue_capacity, Step, starts, stops, cancels, submits, takes,
  finishes, syncs_pools, syncs_positions, quits, Reach, fresh, later,
}

-- How many jobs of a list pass a test.
abbrev pub passing : (BackfillJob → Bool) → List BackfillJob → ℕ
passing test [] = 0
passing test (job ∷ jobs) = let rest = passing test jobs in if test job then suc rest else rest

abbrev pub passing_answers : (BackfillJob → Bool) → List (BackfillJob × Option String) → ℕ
passing_answers test [] = 0
passing_answers test ((job, _) ∷ answers) =
    let rest = passing_answers test answers in if test job then suc rest else rest

passing-append :
    (test : BackfillJob → Bool) (xs ys : List BackfillJob)
    → passing test (xs ++ ys) ≡ passing test xs + passing test ys
passing-append test [] ys = omega arith
passing-append test (x ∷ xs) ys = ground (arith, passing-append test xs ys)

passing_answers-append :
    (test : BackfillJob → Bool) (xs ys : List (BackfillJob × Option String))
    → passing_answers test (xs ++ ys) ≡ passing_answers test xs + passing_answers test ys
passing_answers-append test [] ys = omega arith
passing_answers-append test ((x, _) ∷ xs) ys = ground (arith, passing_answers-append test xs ys)

-- The goroutines that `Start` has made and that can be left: five, or ten when the backfiller was
-- started again.
abbrev pub worker_limit : Backfiller → ℕ
worker_limit b =
    if b.is_running then (if b.stop_closed then 10 else 5) else (if b.stop_closed then 5 else 0)

-- What a job does to the backfiller's own fields.
abbrev Counts : Backfiller → Backfiller → Type 0
Counts b left =
    (left.completed_jobs + left.failed_jobs ≡ suc (b.completed_jobs + b.failed_jobs))
    × (left.is_running ≡ b.is_running)
    × (left.stop_closed ≡ b.stop_closed)

module _ {S : Type 0} (overwrite : Overwrite S) (cancelled : ℕ → Option String) (lib : Solana)
    (chain : ChainClient) (now : ℕ → Time) where
  finish_job-Counts :
      (ended : S × Progress × Option String) (b : Backfiller)
      → Counts b (finish_job overwrite cancelled lib chain now ended b).1
  unfolding finish_job
  finish_job-Counts (s, p, some e) b = (omega arith, refl, refl)
  finish_job-Counts (s, p, none) b = (omega arith, refl, refl)

  process_job-Counts :
      (id : String) (start : Time) (req : BackfillRequest) (b : Backfiller) (s : S)
      (out : S × Backfiller × Progress × Option String)
      → process_job overwrite cancelled lib chain now id start req b s ≡ done out
      → Counts b out.1
  unfolding process_job
  process_job-Counts id start req b s out ran =
      let begun : Progress = begin id start in
      elim (Run-cases (put id begun b.active_jobs)) [
        | inr stop ↦ ground (arith, ran, stop)
        | inl (active, kept) ↦
            elim (Run-cases (process_source overwrite cancelled lib chain now req begun s)) [
              | inr stop ↦ ground (arith, ran, kept, stop)
              | inl (ended, did) ↦ ground (
                arith,
                ran,
                kept,
                did,
                finish_job-Counts ended (record b { active_jobs = delete id active }),
              )
            ]
      ]

-- The counters and the limit.
pub record IsAccounted {S : Type 0} (s : BackfillService S) : Type 0 where
  pub in_one_place :
      (test : BackfillJob → Bool)
      → passing test s.submitted
        ≡ passing test s.job_queue + passing test s.running + passing_answers test s.answered
  pub counted : s.backfiller.completed_jobs + s.backfiller.failed_jobs ≡ length s.answered
  pub queue_bounded : length s.job_queue ≤ job_queue_capacity
  pub workers_bounded : s.waiting + length s.running ≤ worker_limit s.backfiller
  pub unstarted : worker_limit s.backfiller ≡ 0 → s.answered ≡ []

module _ {S : Type 0} (overwrite : Overwrite S) (lib : Solana) where
  Step-IsAccounted :
      {p q : BackfillService S} → Step overwrite lib p q → IsAccounted p → IsAccounted q
  unfolding start_service stop_service
  Step-IsAccounted {p} (starts b ran) h = record {
    in_one_place = h.in_one_place;
    counted = ground (arith, ran, h.counted);
    queue_bounded = h.queue_bounded;
    workers_bounded = ground (arith, ran, h.workers_bounded);
    unstarted = λ none_made. absurd (ground (arith, ran, none_made));
  }
  Step-IsAccounted {p} (stops b ran) h = record {
    in_one_place = h.in_one_place;
    counted = ground (arith, ran, h.counted);
    queue_bounded = h.queue_bounded;
    workers_bounded = ground (arith, ran, h.workers_bounded);
    unstarted = λ none_made. absurd (ground (arith, ran, none_made));
  }
  Step-IsAccounted {p} cancels h = record {
    in_one_place = h.in_one_place;
    counted = h.counted;
    queue_bounded = h.queue_bounded;
    workers_bounded = h.workers_bounded;
    unstarted = h.unstarted;
  }
  Step-IsAccounted {p} (submits given job accepted room) h = record {
    in_one_place = λ test.
        rw (passing-append test p.submitted (job ∷ []), passing-append test p.job_queue (job ∷ []))
          (omega (arith, h.in_one_place test));
    counted = h.counted;
    queue_bounded = omega (arith, room, length-append p.job_queue (job ∷ []));
    workers_bounded = h.workers_bounded;
    unstarted = h.unstarted;
  }
  Step-IsAccounted {p} (takes n job rest idle at) h = record {
    in_one_place = λ test. ground (arith, h.in_one_place test, ap (passing test) at);
    counted = h.counted;
    queue_bounded = omega (arith, h.queue_bounded, ap length at);
    workers_bounded = omega (arith, h.workers_bounded, idle);
    unstarted = h.unstarted;
  }
  Step-IsAccounted {p} (finishes before after job chain cancelled now start out at ran) h =
      let (counts, run, closed) =
        process_job-Counts overwrite cancelled lib chain now job.id start job.request p.backfiller
          p.store out ran in
      record {
        in_one_place = λ test.
            rw
              (
                passing-append test before after,
                passing_answers-append test p.answered ((job, out.3) ∷ []),
              )
              (ground (
                arith,
                h.in_one_place test,
                ap (passing test) at,
                passing-append test before (job ∷ after),
              ));
        counted = omega (arith, counts, h.counted, length-append p.answered ((job, out.3) ∷ []));
        queue_bounded = h.queue_bounded;
        workers_bounded =
            rw (run, closed, length-append before after)
              (omega (arith, h.workers_bounded, ap length at, length-append before (job ∷ after)));
        unstarted = λ none_made. absurd (
            ground (
              arith,
              none_made,
              run,
              closed,
              h.workers_bounded,
              ap length at,
              length-append before (job ∷ after),
            ));
      }
  Step-IsAccounted {p} (syncs_pools replace chain now out ran) h = record {
    in_one_place = h.in_one_place;
    counted = h.counted;
    queue_bounded = h.queue_bounded;
    workers_bounded = h.workers_bounded;
    unstarted = h.unstarted;
  }
  Step-IsAccounted {p} (syncs_positions replace chain now out ran) h = record {
    in_one_place = h.in_one_place;
    counted = h.counted;
    queue_bounded = h.queue_bounded;
    workers_bounded = h.workers_bounded;
    unstarted = h.unstarted;
  }
  Step-IsAccounted {p} (quits n told idle) h = record {
    in_one_place = h.in_one_place;
    counted = h.counted;
    queue_bounded = h.queue_bounded;
    workers_bounded = omega (arith, h.workers_bounded, idle);
    unstarted = h.unstarted;
  }

  -- In every state that the calls of a backfiller and its workers can come to, a job that was
  -- queued is in the queue, with a worker or answered, as often as it was queued; the completed
  -- and the failed jobs together are as many as the answers; the queue holds at most 100 jobs; at
  -- most five workers wait or run a job, or ten if the backfiller was started again after a stop;
  -- and a backfiller that was never started has answered nothing. A worker's job is one step.
  pub Reach-IsAccounted : {s : S} {q : BackfillService S} → Reach overwrite lib s q → IsAccounted q
  Reach-IsAccounted fresh = record {
    in_one_place = λ test. refl;
    counted = refl;
    queue_bounded = omega arith;
    workers_bounded = omega arith;
    unstarted = λ none_made. refl;
  }
  Reach-IsAccounted (later run step) = Step-IsAccounted step (Reach-IsAccounted run)
