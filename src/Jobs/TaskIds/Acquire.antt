-- ===== src/Jobs/TaskIds/Acquire.antt =====
-- A thread that acquires and releases a task id with no other thread in between.
use v8app.Base.{
  ℕ, zero, suc, ◌+◌, ◌≡◌, ◌<◌, ◌⊎◌, inl, inr, refl, ap, Bool, true, false, List, [], ◌∷◌, arith,
  get_elem?, length, some, All, if◌then◌else◌,
}
use v8app.Jobs.TaskIds.{
  find_first_free_task_id, invalid_job_id, task_bits, with_id, without_id, same_word, entered,
  returned, alone, five, release_task_id,
}

-- The id is free, and all lower ones are taken.
pub record FirstFree (word : List Bool) (id : ℕ) : Type 0 where
  pub in_word : id < length word
  pub free : get_elem? word id ≡ some false
  pub lower : (j : ℕ) → j < id → get_elem? word j ≡ some true

abbrev pub IsTaken : Bool → Type 0
IsTaken b = b ≡ true

-- What the scan from position `idx` on finds.
scan_cases :
    (idx : ℕ) (ids : List Bool)
    → ((k : ℕ) × (find_first_free_task_id idx ids ≡ idx + k) × FirstFree ids k)
      ⊎ ((find_first_free_task_id idx ids ≡ invalid_job_id) × All IsTaken ids)
unfolding find_first_free_task_id
scan_cases idx [] = inr (refl, tt)
scan_cases idx (false ∷ ids) = inl (
  0,
  omega arith,
  record { in_word = omega arith; free = refl; lower = λ j h. absurd (omega arith) },
)
scan_cases idx (true ∷ ids) = elim (scan_cases (idx + 1) ids) [
  | inr (e, all) ↦ inr (e, (refl, all))
  | inl (k, e, f) ↦ inl (
    k + 1,
    omega (arith, e),
    record {
      in_word = omega (arith, f.in_word);
      free = next_free k f;
      lower = λ j h. next_lower k f j h;
    },
  )
]
  where
    next_free : (k : ℕ) → FirstFree ids k → get_elem? (true ∷ ids) (k + 1) ≡ some false
    next_free k f = let e : k + 1 ≡ suc k = omega arith in rw e f.free

    next_lower :
        (k : ℕ) → FirstFree ids k → (j : ℕ) → j < k + 1 → get_elem? (true ∷ ids) j ≡ some true
    next_lower k f zero h = refl
    next_lower k f (suc j) h = f.lower j (omega arith)

free_id_cases :
    (word : List Bool)
    → ((id : ℕ) × (find_first_free_task_id 0 word ≡ id) × FirstFree word id)
      ⊎ ((find_first_free_task_id 0 word ≡ invalid_job_id) × All IsTaken word)
free_id_cases word = elim (scan_cases 0 word) [
  | inl (k, e, f) ↦ inl (k, omega (arith, e), f)
  | inr h ↦ inr h
]

pub same_word_refl : (word : List Bool) → same_word word word ≡ true
same_word_refl [] = refl
same_word_refl (true ∷ word) = same_word_refl word
same_word_refl (false ∷ word) = same_word_refl word

pub same_word-with_id :
    (word : List Bool) (id : ℕ)
    → get_elem? word id ≡ some false
    → same_word (with_id word id) word ≡ false
same_word-with_id [] id h = cc
same_word-with_id (b ∷ word) zero h = ground arith
same_word-with_id (true ∷ word) (suc id) h = same_word-with_id word id h
same_word-with_id (false ∷ word) (suc id) h = same_word-with_id word id h

set_back :
    (word : List Bool) (id : ℕ)
    → get_elem? word id ≡ some false
    → without_id (with_id word id) id ≡ word
set_back [] id h = refl
set_back (b ∷ word) zero h = ground arith
set_back (b ∷ word) (suc id) h = ap (λ l. b ∷ l) (set_back word id h)

set_free : (word : List Bool) (id : ℕ) → get_elem? word id ≡ some false → without_id word id ≡ word
set_free [] id h = refl
set_free (b ∷ word) zero h = ground arith
set_free (b ∷ word) (suc id) h = ap (λ l. b ∷ l) (set_free word id h)

-- The word after a thread got an id: marked, if its first exchange did not fail.
abbrev pub marked : Bool → List Bool → ℕ → List Bool
marked spurious word id = if spurious then word else with_id word id

pub acquire_alone :
    (word : List Bool) (spurious later : Bool)
    → length word ≡ task_bits
    → ((id : ℕ) × FirstFree word id
        × (alone (five spurious later) word entered ≡ (marked spurious word id, returned id))
        × (release_task_id (alone (five spurious later) word entered).0 id ≡ word))
      ⊎ (All IsTaken word
          × (alone (five spurious later) word entered ≡ (word, returned invalid_job_id)))
unfolding alone release_task_id
acquire_alone word spurious later size = elim (free_id_cases word) [
  | inr (e, all) ↦ inr (all, rw e)
  | inl (id, e, f) ↦
      inl (id, f, path spurious id e f, rw (path spurious id e f) (back spurious id f.free))
]
  where
    path :
        (s : Bool) (id : ℕ)
        → find_first_free_task_id 0 word ≡ id
        → FirstFree word id
        → alone (five s later) word entered ≡ (marked s word id, returned id)
    path false id e f =
        ground (arith, f.in_word, same_word_refl word, same_word-with_id word id f.free)
    path true id e f = ground (arith, f.in_word, same_word_refl word)

    back :
        (s : Bool) (id : ℕ)
        → get_elem? word id ≡ some false
        → without_id (marked s word id) id ≡ word
    back false id free = set_back word id free
    back true id free = set_free word id free
