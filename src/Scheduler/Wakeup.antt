-- ===== src/Scheduler/Wakeup.antt =====
-- The notifications of src/sched/scheduler.cpp: a worker's wait on `batch_cv_`, beside `stop`. The wait
-- tests its predicate and blocks under `batch_mutex_`, which it releases as it blocks; `stop` stores
-- `shutdown_` under `lifecycle_mutex_` and notifies under none, so that it may act between the two.
-- `queue_cv_` and `batch_space_cv_` are waited for and notified in the same way. The other threads are
-- at rest, and a blocked thread does not wake by itself.
mod Tests
use gpu_batch_inference_sche.Common.{Bool, true, false, ◌||◌, ◌≡◌, refl, arith}

pub data Waiter : Type 0 where
  tests : Waiter  -- before the test of the predicate, with the mutex
  will_block : Waiter  -- the predicate did not hold
  blocked : Waiter  -- without the mutex
  passed : Waiter  -- the wait has returned

pub data Stopper : Type 0 where
  before_store : Stopper
  before_notify : Stopper
  joining : Stopper  -- in `w.join()`

pub record Wait : Type 0 where
  pub waiter : Waiter
  pub stopper : Stopper
  pub shutdown : Bool
  pub has_batch : Bool  -- `!batch_queue_.empty()`

-- The predicate of the wait.
unfoldable pub may_pass : Wait → Bool
may_pass x = x.shutdown || x.has_batch

-- `notify_all`
unfoldable pub notify_all : Waiter → Waiter
notify_all blocked = tests
notify_all w = w

pub data WaitStep (x : Wait) : Wait → Type 0 where
  passes : x.waiter ≡ tests → may_pass x ≡ true → WaitStep x (record x { waiter = passed })
  refuses : x.waiter ≡ tests → may_pass x ≡ false → WaitStep x (record x { waiter = will_block })
  blocks : x.waiter ≡ will_block → WaitStep x (record x { waiter = blocked })
  stores :
      x.stopper ≡ before_store → WaitStep x (record x { stopper = before_notify; shutdown = true })
  notifies :
      x.stopper ≡ before_notify
      → WaitStep x (record x { stopper = joining; waiter = notify_all x.waiter })

pub data WaitRun (x : Wait) : Wait → Type 0 where
  waits : WaitRun x x
  then_steps : {y z : Wait} → WaitRun x y → WaitStep y z → WaitRun x z

-- The waiting thread is blocked, though its predicate holds, and no thread can make a step.
pub record IsStuck (x : Wait) : Type 0 where
  pub asleep : x.waiter ≡ blocked
  pub joins : x.stopper ≡ joining
  pub wanted : may_pass x ≡ true
  pub no_step : (y : Wait) → ¬ WaitStep x y

stuck_step : (x : Wait) → x.waiter ≡ blocked → x.stopper ≡ joining → (y : Wait) → ¬ WaitStep x y
stuck_step x w s y (passes e p) = absurd (cc (e, w))
stuck_step x w s y (refuses e p) = absurd (cc (e, w))
stuck_step x w s y (blocks e) = absurd (cc (e, w))
stuck_step x w s y (stores e) = absurd (cc (e, s))
stuck_step x w s y (notifies e) = absurd (cc (e, s))

-- `stop` may miss a worker: wherever a worker is about to test its predicate with no batch to take, and
-- `stop` has not stored `shutdown_` yet, the two can go on so that the notification comes between the
-- test and the block; the worker then sleeps although its predicate holds, and the join of `stop` does
-- not return.
pub stop_may_hang :
    (x : Wait)
    → x.waiter ≡ tests
    → x.stopper ≡ before_store
    → x.shutdown ≡ false
    → x.has_batch ≡ false
    → (y : Wait) × WaitRun x y × IsStuck y
unfolding may_pass notify_all
stop_may_hang x w s d b =
    let refused = refuses w (ground arith) in
    let run =
      then_steps (then_steps (then_steps (then_steps waits refused) (stores s)) (notifies refl))
        (blocks refl) in
    (
      _,
      run,
      record { asleep = refl; joins = refl; wanted = refl; no_step = stuck_step _ refl refl },
    )
