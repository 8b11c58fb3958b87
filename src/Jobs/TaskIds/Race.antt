-- ===== src/Jobs/TaskIds/Race.antt =====
-- Two threads that acquire a task id at the same time. The loop goes on while the exchange succeeds, so
-- a thread whose exchange fails returns an id that it did not mark.
use v8app.Base.{ℕ, ◌≡◌, ◌<◌, Bool, true, false, List, [], ◌∷◌, arith, get_elem?, some, length}
use v8app.Jobs.TaskIds.{
  find_first_free_task_id, with_id, Phase, entered, returned, access, task_bits,
}
use v8app.Jobs.TaskIds.Acquire.{same_word_refl, same_word-with_id}

-- The shared word with both threads.
pub record Pair : Type 0 where
  pub word : List Bool
  pub one : Phase
  pub other : Phase

-- `true` lets the first thread make its next access, `false` the other. No exchange fails that need not.
turn : Bool → Pair → Pair
turn true s = let (w, p) = access false s.word s.one in record s { word = w; one = p }
turn false s = let (w, p) = access false s.word s.other in record s { word = w; other = p }

pub interleave : List Bool → Pair → Pair
unfolding turn
interleave [] s = s
interleave (b ∷ bs) s = interleave bs (turn b s)

-- Both choose before either exchanges.
abbrev pub both_choose : List Bool
both_choose = true ∷ true ∷ false ∷ false ∷ true ∷ true ∷ true ∷ false ∷ []

-- From every word with a free id the two threads can interleave so that both return the same id, marked
-- once.
pub duplicate_ids :
    (word : List Bool) (id : ℕ)
    → length word ≡ task_bits
    → find_first_free_task_id 0 word ≡ id
    → get_elem? word id ≡ some false
    → id < task_bits
    → interleave both_choose (record { word = word; one = entered; other = entered })
      ≡ record { word = with_id word id; one = returned id; other = returned id }
unfolding interleave access
duplicate_ids word id size e free small =
    ground (arith, same_word_refl word, same_word-with_id word id free)
