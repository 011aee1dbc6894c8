-- ===== src/Backfill/Workers/Liveness.antt =====
-- backfillers/workers.go: while a worker is left, the jobs that are queued get their answers.
use margin_offer_system.Base.{
  ℕ, zero, suc, ◌+◌, ◌*◌, ◌<◌, ◌≡◌, refl, ap, Bool, Option, [], ◌∷◌, ◌++◌, length, arith,
  List-cases, inl, inr, String,
}
use margin_offer_system.Base.Run.{done}
use margin_offer_system.Types.Time.{Time}
use margin_offer_system.Types.Pool.{Solana}
use margin_offer_system.Backfill.Fetch.{ChainClient}
use margin_offer_system.Backfill.Jobs.{Progress, Backfiller, Overwrite, process_job}
use margin_offer_system.Backfill.Workers.{
  BackfillJob, BackfillService, Step, takes, finishes, Reach, later, Onward, here, onward,
}
use margin_offer_system.Backfill.Workers.Accounts.{passing, passing_answers, Reach-IsAccounted}

suc_of : (n : ℕ) → 0 < n → (m : ℕ) × (n ≡ suc m)
suc_of zero h = absurd (omega arith)
suc_of (suc m) h = (m, refl)

module _ {S : Type 0} (overwrite : Overwrite S) (lib : Solana) (chain : ChainClient)
    (cancelled : ℕ → Option String) (now : ℕ → Time) where
  -- A property of the backfiller and the store under which a job ends, and which it keeps.
  abbrev pub Returns : (Backfiller → S → Type 0) → Type 0
  Returns Holds =
      (job : BackfillJob) (b : Backfiller) (s : S)
      → Holds b s
      → (out : S × Backfiller × Progress × Option String) × (process_job overwrite cancelled lib
            chain now job.id (now 0) job.request b s
          ≡ done out)
        × Holds out.1 out.0

  -- A state that `p` can go on to, where no job is left and those that were queued are answered.
  abbrev pub Empties : S → BackfillService S → Type 0
  Empties s p =
      (q : BackfillService S) × Onward overwrite lib p q
      × Reach overwrite lib s q
      × (q.job_queue ≡ [])
      × (q.running ≡ [])
      × (q.submitted ≡ p.submitted)

  -- A step that submits nothing comes before.
  goes_on :
      (s : S) (p next : BackfillService S)
      → Step overwrite lib p next
      → (q : BackfillService S) × Onward overwrite lib next q
        × Reach overwrite lib s q
        × (q.job_queue ≡ [])
        × (q.running ≡ [])
        × (q.submitted ≡ p.submitted)
      → Empties s p
  goes_on s p next step (q, path, run, empty, idle, same) =
      (q, onward step path, run, empty, idle, same)

  empties :
      (Holds : Backfiller → S → Type 0)
      → Returns Holds
      → (fuel : ℕ) (s : S) (p : BackfillService S) → Reach overwrite lib s p
      → Holds p.backfiller p.store
      → 0 < p.waiting + length p.running
      → 2 * length p.job_queue + length p.running < fuel
      → Empties s p
  empties Holds returns zero s p run holds staffed enough = absurd (omega arith)
  empties Holds returns (suc fuel) s p run holds staffed enough = elim (List-cases p.running) [
    | inr (job, rest, at) ↦
        let (out, ran, kept) = returns job p.backfiller p.store holds in
        let next : BackfillService S = record p {
          store = out.0;
          backfiller = out.1;
          waiting = suc p.waiting;
          running = rest;
          answered = p.answered ++ (job, out.3) ∷ [];
        } in
        let step : Step overwrite lib p next =
          finishes [] rest job chain cancelled now (now 0) out at ran in
        goes_on s p next step (
          empties Holds returns fuel s next (later run step) kept (omega arith)
            (omega (arith, enough, ap length at)))
    | inl idle ↦ elim (List-cases p.job_queue) [
      | inl empty ↦ (p, here, run, empty, idle, refl)
      | inr (job, rest, at) ↦
          let (n, one) = suc_of p.waiting (omega (arith, staffed, ap length idle)) in
          let next : BackfillService S = record p {
            waiting = n;
            job_queue = rest;
            running = job ∷ p.running;
          } in
          let step : Step overwrite lib p next = takes n job rest one at in
          goes_on s p next step (
            empties Holds returns fuel s next (later run step) holds (omega arith)
              (omega (arith, enough, ap length at, ap length idle)))
    ]
  ]

  -- If jobs end under a property of the backfiller and its store, and keep it, then from a state
  -- that the backfiller can come to, that has the property and in which a worker waits or runs a
  -- job, there are steps to a state with no job queued or running, in which the submitted jobs
  -- are still the same and each is answered as often as it was submitted.
  pub emptied :
      (Holds : Backfiller → S → Type 0)
      → Returns Holds
      → (s : S) (p : BackfillService S) → Reach overwrite lib s p
      → Holds p.backfiller p.store
      → 0 < p.waiting + length p.running
      → (q : BackfillService S) × Onward overwrite lib p q
        × (q.job_queue ≡ [])
        × (q.running ≡ [])
        × (q.submitted ≡ p.submitted)
        × ((test : BackfillJob → Bool) → passing_answers test q.answered ≡ passing test p.submitted)
  emptied Holds returns s p run holds staffed =
      let (q, path, last, empty, idle, same) =
        empties Holds returns (suc (2 * length p.job_queue + length p.running)) s p run holds
          staffed (omega arith) in
      (
        q,
        path,
        empty,
        idle,
        same,
        λ test. omega (
          arith,
          (Reach-IsAccounted overwrite lib last).in_one_place test,
          ap (passing test) empty,
          ap (passing test) idle,
          ap (passing test) same,
        ),
      )
