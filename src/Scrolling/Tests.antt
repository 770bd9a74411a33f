-- ===== src/Scrolling/Tests.antt =====
-- The sentinel and the sections of ui/src on a listing of two pages, and the theorems at this run.
use byom.Prelude.{ℕ, ◌+◌, ◌≡◌, refl, Text, codes, text_eq, true, false, [], ◌∷◌, none, some, arith}
use byom.Pagination.{
  Page, Call, World, new_world, entry_for, start_fetch, load_more, show_entry, key_effect, mount,
  store_page, store_error, finish_call, when_current, resolve, reject, set_scroll_y,
}
use byom.Pagination.Walk.{walk, advance}
use byom.Pagination.Steps.{Reach, start, next, mounts, resolves, loads_more}
use byom.Pagination.Progress.{answer}
use byom.Scrolling.{
  Sentinel, new_sentinel, observe, disabled, wants, settle, shows_empty_note, shows_retry,
  section_shown, button_shown, button_label, restored_offset, on_scroll, grid_request,
  artists_request,
}
use byom.Scrolling.Loading.{
  in_view, settle_round, settle_rounds, mount-settle_rounds, mount-settle_rounds_end,
}

program : Unit {0}
unfolding entry_for start_fetch load_more show_entry key_effect mount store_page store_error
    finish_call when_current resolve reject set_scroll_y text_eq answer walk advance observe
    disabled wants settle shows_empty_note shows_retry section_shown button_shown button_label
    restored_offset on_scroll settle_round settle_rounds grid_request artists_request
program = tt

abbrev albums : Text
albums = codes "albums:"

abbrev pages : Text → Text → Page ℕ
pages k [] = record { items = 1 ∷ 2 ∷ []; next_page_token = codes "p2" }
pages k (c ∷ t) = record { items = 3 ∷ []; next_page_token = [] }

abbrev opening : Call
opening = record { list = 0; key = albums; entry = 0; token = [] }

abbrev second : Call
second = record { list = 0; key = albums; entry = 0; token = codes "p2" }

-- A list mounted; its first page; and the sentinel that has come into view.
abbrev w1 : World ℕ
w1 = mount albums new_world

abbrev w2 : World ℕ
w2 = resolve 0 (pages albums []) w1

abbrev seen : Sentinel × World ℕ
seen = settle 0 (observe (some true) new_sentinel) w2

w1-Reach : Reach pages w1
w1-Reach = next start (mounts albums)

w2-Reach : Reach pages w2
unfolding program
w2-Reach = next w1-Reach (resolves 0 opening refl)

sentinel_tests :
    (seen.1.calls 1 ≡ some second)
    × (seen.0.should_load ≡ false)
    × ((settle 0 (observe none seen.0) w2).1.calls 1 ≡ none)
    × ((settle 0 (record { intersecting = true; should_load = true }) w2).1.calls 1 ≡ none)
    × (((settle_rounds pages 1 0 in_view w2).1.lists 0).items ≡ 1 ∷ 2 ∷ 3 ∷ [])
unfolding program
sentinel_tests = (refl, refl, refl, refl, refl)

view_tests :
    (shows_empty_note (w2.lists 0) ≡ false)
    × (section_shown (w1.lists 0) ≡ true)
    × (button_shown (w1.lists 0) ≡ false)
    × (button_shown (w2.lists 0) ≡ true)
    × (button_label (w2.lists 0) ≡ codes "LOAD MORE")
    × (button_label ((reject 1 (codes "boom") seen.1).lists 0) ≡ codes "FAILED — RETRY")
    × (restored_offset (w2.lists 0) ≡ none)
    × (restored_offset ((on_scroll 0 40 w2).lists 0) ≡ some 40)
    × ((grid_request (codes "p2")).page_token ≡ codes "p2")
    × ((artists_request (codes "p2")).page_token ≡ codes "p2")
unfolding program
view_tests = (refl, refl, refl, refl, refl, refl, refl, refl, refl, refl)

mount-settle_rounds_example :
    let w' = (settle_rounds pages 1 0 in_view (answer pages 0 (mount albums new_world))).1 in
    ((w'.lists 0).items ≡ (walk (pages albums) (1 + 1)).items)
    × ((w'.lists 0).done ≡ (walk (pages albums) (1 + 1)).done)
    × ((w'.lists 0).loading ≡ false)
mount-settle_rounds_example = mount-settle_rounds pages albums start refl 1

mount-settle_rounds_end_example :
    let (s', w') = settle_rounds pages 1 0 in_view (answer pages 0 (mount albums new_world)) in
    settle_rounds pages 3 0 s' w' ≡ (s', w')
unfolding program
mount-settle_rounds_end_example = mount-settle_rounds_end pages albums start refl 1 3 refl

abbrev seen_world : World ℕ
seen_world = load_more 0 w2

seen-Reach : Reach pages seen_world
unfolding program
seen-Reach = next w2-Reach (loads_more 0 (omega arith))
