-- ===== src/Jobs/Delegate.antt =====
-- V8JobDelegate (libs/jsRuntime/src/V8Jobs.cc), what a task sees of its job: the task id that it keeps
-- and gives back, and whether it should yield.
use v8app.Base.{ℕ, ◌≡◌, Bool, false, ◌||◌, List, arith, length, if◌then◌else◌, ◌==◌, inl, inr}
use v8app.Jobs.{JobState}
use v8app.Jobs.TaskIds.{
  Phase, entered, returned, alone, five, invalid_job_id, task_bits, release_task_id,
}
use v8app.Jobs.TaskIds.Acquire.{acquire_alone}

pub record Delegate : Type 0 where
  pub task_id : ℕ
  pub joining_thread : Bool
  pub yielded : Bool

pub new_delegate : Bool → Delegate
new_delegate joining = record {
  task_id = invalid_job_id;
  joining_thread = joining;
  yielded = false;
}

-- `AcquireTaskId` of a thread that is alone: five accesses are always enough. An exchange can fail where
-- the words agree.
abbrev id_of : Phase → ℕ
id_of (returned id) = id
id_of _ = invalid_job_id

pub get_task_id : Bool → Bool → List Bool → Delegate → ℕ × List Bool × Delegate
unfolding alone
get_task_id spurious later word d =
    if d.task_id == invalid_job_id
    then (let (word', p) = alone (five spurious later) word entered in
        (id_of p, word', record d { task_id = id_of p }))
    else (d.task_id, word, d)

-- The destructor.
pub delete_delegate : List Bool → Delegate → List Bool
delete_delegate word d =
    if d.task_id == invalid_job_id then word else release_task_id word d.task_id

should_yield : JobState → Delegate → Bool × Delegate
should_yield s d = let yields = d.yielded || s.canceled in (yields, record d { yielded = yields })

-- With no other thread in between, a new delegate gives the same id whenever it is asked, and changes the
-- word the first time at most; its destructor gives the word back as it was before, whether an id was free
-- or not and whether or not an exchange failed where the words agree.
pub delegate_keeps_id :
    (word : List Bool) (joining spurious later again : Bool)
    → length word ≡ task_bits
    → (get_task_id again again
          (get_task_id spurious later word (new_delegate joining)).1
          (get_task_id spurious later word (new_delegate joining)).2
        ≡ get_task_id spurious later word (new_delegate joining))
      × (delete_delegate
            (get_task_id spurious later word (new_delegate joining)).1
            (get_task_id spurious later word (new_delegate joining)).2
          ≡ word)
unfolding get_task_id delete_delegate new_delegate release_task_id
delegate_keeps_id word joining spurious later again size =
    elim (acquire_alone word spurious later size) [
      | inl (id, f, e, back) ↦ ground (arith, f.in_word, e, back)
      | inr (all, e) ↦ ground (arith, e)
    ]
