-- ===== src/Jobs/TaskIds.antt =====
-- Task ids: `AcquireTaskId`, `ReleaseTaskID` and `FindFirstFreeTaskId`. The atomic word
-- `m_AssignedTaskIds` is the list of its bits, lowest first. `AcquireTaskId` is cut into its atomic
-- accesses: the first load, the choice with the second load, and the compare-and-exchange.
pub mod Acquire
pub mod Race
use v8app.Base.{
  ℕ, zero, suc, ◌+◌, ◌≡◌, ◌≢◌, ◌<◌, ◌≤◌, ◌⊎◌, inl, inr, refl, ap, Bool, true, false, ◌&&◌, not,
  List, [], ◌∷◌, ◌++◌, arith, ltb, leb, ◌==◌, set, get_elem?, if◌then◌else◌, length, Option, some,
  none, Bool-cases,
}

abbrev pub invalid_job_id : ℕ
invalid_job_id = 255

-- `V8JobTaskBits`: the word is a `uint32_t`.
abbrev pub task_bits : ℕ
task_bits = 32

unfoldable pub find_first_free_task_id : ℕ → List Bool → ℕ
find_first_free_task_id idx [] = invalid_job_id
find_first_free_task_id idx (taken ∷ ids) =
    if taken then find_first_free_task_id (idx + 1) ids else idx

-- `assigned | (1 << id)` and `assigned & ~(1 << id)`.
abbrev pub with_id : List Bool → ℕ → List Bool
with_id ids id = set ids id true

abbrev pub without_id : List Bool → ℕ → List Bool
without_id ids id = set ids id false

abbrev pub same_word : List Bool → List Bool → Bool
same_word [] [] = true
same_word [] (b ∷ bs) = false
same_word (a ∷ as') [] = false
same_word (true ∷ as') (b ∷ bs) = b && same_word as' bs
same_word (false ∷ as') (b ∷ bs) = not b && same_word as' bs

-- A thread inside `AcquireTaskId`.
pub data Phase : Type 0 where
  entered : Phase
  -- `assignedTaskIds` is loaded: the loop body comes next.
  loaded : List Bool → Phase
  -- `assignedTaskIds`, `taskID` and `newTaskIds` are set: the exchange comes next.
  chosen : List Bool → ℕ → List Bool → Phase
  returned : ℕ → Phase

-- The next atomic access of a thread, with the shared word. The loop goes on while the exchange
-- succeeds; a weak exchange can also fail where the words agree, which `spurious` says of it.
pub access : Bool → List Bool → Phase → List Bool × Phase
unfolding find_first_free_task_id
access spurious word entered = (word, loaded word)
access spurious word (loaded expected) =
    let id = find_first_free_task_id 0 expected in
    if id == invalid_job_id
    then (word, returned id)
    else (word, chosen expected id (with_id word id))
access spurious word (chosen expected id new) =
    if same_word word expected && not spurious then (new, loaded expected) else (word, returned id)
access spurious word (returned id) = (word, returned id)

-- The accesses of a thread that is alone.
unfoldable pub alone : List Bool → List Bool → Phase → List Bool × Phase
unfolding access
alone [] word p = (word, p)
alone (spurious ∷ rest) word p = let (word', p') = access spurious word p in alone rest word' p'

-- Five accesses, the third and the fifth of which can be exchanges: `spurious` and `later` say of them
-- whether they fail where the words agree.
abbrev pub five : Bool → Bool → List Bool
five spurious later = false ∷ false ∷ spurious ∷ false ∷ later ∷ []

unfoldable pub release_task_id : List Bool → ℕ → List Bool
release_task_id word id = without_id word id
