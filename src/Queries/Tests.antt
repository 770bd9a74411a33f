-- ===== src/Queries/Tests.antt =====
-- An invalidation while a list waits for its first page, and the theorem at this run.
use byom.Prelude.{
  ℕ, ◌+◌, ◌≡◌, refl, Text, text_eq, codes, List, [], ◌∷◌, length, ok, err, false, arith,
  if◌then◌else◌,
}
use byom.Pagination.{
  Page, World, new_world, mount, load_more, entry_for, start_fetch, key_effect, show_entry, resolve,
  reject, store_page, store_error, finish_call, when_current,
}
use byom.Pagination.Late.{Ending, end_call, end_calls}
use byom.Pagination.Late.Rounds.{late_round, late_rounds}
use byom.Pagination.Progress.{answer}
use byom.Pagination.Steps.{Reach, start, next, mounts}
use byom.Pagination.Walk.{walk, advance}
use byom.Queries.{invalidate_library}
use byom.Queries.Invalidation.{invalidate_library-fresh}

program : Unit {0}
unfolding mount load_more entry_for start_fetch key_effect show_entry resolve reject store_page
    store_error finish_call when_current end_call end_calls late_round late_rounds answer walk
    advance invalidate_library text_eq
program = tt

abbrev key : Text
key = codes "albums:"

-- What the server has before and after a scan.
abbrev before : Text → Text → Page ℕ
before k token = record { items = 1 ∷ []; next_page_token = codes "t" }

abbrev now : Text → Text → Page ℕ
now k token =
    if text_eq token []
    then record { items = 2 ∷ 3 ∷ []; next_page_token = codes "u" }
    else record { items = 4 ∷ []; next_page_token = [] }

abbrev waiting : World ℕ
waiting = mount key new_world

waiting-Reach : Reach before waiting
waiting-Reach = next start (mounts key)

abbrev late_page : List (Ending ℕ)
late_page = (0, ok (before key [])) ∷ []

abbrev invalidated : List Text × World ℕ
invalidated = invalidate_library (λ names cache. names) ([], waiting)

abbrev ended : World ℕ
ended =
    late_rounds now 1 ((late_page) ∷ [])
      (answer now 1 (end_calls ((0, err (codes "gone")) ∷ late_page) (mount key invalidated.1)))

-- The new list has the new pages; the old one has none of them.
ended_test : ((ended.lists 1).items ≡ 2 ∷ 3 ∷ 4 ∷ []) × ((ended.lists 0).items ≡ [])
unfolding program
ended_test = (refl, refl)

invalidated_test : invalidated.0 ≡ codes "album" ∷ codes "artist" ∷ codes "tracks" ∷ []
unfolding program
invalidated_test = refl

invalidate_library-fresh_example :
    let w1 = (invalidate_library (λ names cache. names) ([], waiting)).1 in
    let w2 =
      answer now waiting.issued (end_calls ((0, err (codes "gone")) ∷ late_page) (mount key w1)) in
    let s = (late_rounds now waiting.mounted (late_page ∷ []) w2).lists waiting.mounted in
    (s.items ≡ (walk (now key) (length (late_page ∷ []) + 1)).items)
    × (s.done ≡ (walk (now key) (length (late_page ∷ []) + 1)).done)
    × (s.loading ≡ false)
invalidate_library-fresh_example =
    invalidate_library-fresh before waiting-Reach (λ names cache. names) [] now key
      ((0, err (codes "gone")) ∷ late_page) (late_page ∷ [])
      (unfold program in omega arith, (unfold program in omega arith, tt))
      ((unfold program in omega arith, tt), tt)
