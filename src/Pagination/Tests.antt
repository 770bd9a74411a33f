-- ===== src/Pagination/Tests.antt =====
-- Runs of ui/src/lib/pagination.ts on two listings of two pages, and the theorems at these runs.
use byom.Prelude.{ℕ, ◌≡◌, refl, Text, codes, text_eq, true, false, [], ◌∷◌, some, arith}
use byom.Pagination.{
  Page, Call, World, new_world, entry_for, start_fetch, load_more, show_entry, key_effect, mount,
  change_key, store_page, store_error, finish_call, when_current, resolve, reject, set_scroll_y,
  clear_list_cache,
}
use byom.Pagination.Walk.{walk, advance, IsShown}
use byom.Pagination.Steps.{Reach, start, next, mounts, resolves, loads_more}
use byom.Pagination.Listing.{Reach-IsShown, Reach-one_fetch}
use byom.Pagination.Progress.{answer, load_round, load_rounds}

program : Unit {0}
unfolding entry_for start_fetch load_more show_entry key_effect mount change_key store_page
    store_error finish_call when_current resolve reject set_scroll_y clear_list_cache text_eq answer
    load_round load_rounds walk advance
program = tt

abbrev albums : Text
albums = codes "albums:"

abbrev artists : Text
artists = codes "artists:"

abbrev first_page : Page ℕ
first_page = record { items = 1 ∷ 2 ∷ []; next_page_token = codes "p2" }

abbrev last_page : Page ℕ
last_page = record { items = 3 ∷ []; next_page_token = [] }

abbrev pages : Text → Text → Page ℕ
pages k [] = first_page
pages k (c ∷ t) = last_page

abbrev opening : Call
opening = record { list = 0; key = albums; entry = 0; token = [] }

-- A list mounted; its first page; the second one asked for, and arrived.
abbrev w1 : World ℕ
w1 = mount albums new_world

abbrev w2 : World ℕ
w2 = resolve 0 first_page w1

abbrev w3 : World ℕ
w3 = load_more 0 w2

abbrev w4 : World ℕ
w4 = resolve 1 last_page w3

abbrev second : Call
second = record { list = 0; key = albums; entry = 0; token = codes "p2" }

w1-Reach : Reach pages w1
w1-Reach = next start (mounts albums)

w2-Reach : Reach pages w2
unfolding program
w2-Reach = next w1-Reach (resolves 0 opening refl)

w3-Reach : Reach pages w3
unfolding program
w3-Reach = next w2-Reach (loads_more 0 (omega arith))

w4-Reach : Reach pages w4
unfolding program
w4-Reach = next w3-Reach (resolves 1 second refl)

run_tests :
    ((w1.lists 0).loading ≡ true)
    × ((w2.lists 0).items ≡ 1 ∷ 2 ∷ [])
    × ((w2.lists 0).done ≡ false)
    × ((w4.lists 0).items ≡ 1 ∷ 2 ∷ 3 ∷ [])
    × ((w4.lists 0).done ≡ true)
    × ((w4.lists 0).loading ≡ false)
unfolding program
run_tests = (refl, refl, refl, refl, refl, refl)

-- A failed load keeps the items and records the error.
failure_tests :
    (((reject 1 (codes "boom") w3).lists 0).items ≡ 1 ∷ 2 ∷ [])
    × (((reject 1 (codes "boom") w3).lists 0).error ≡ some (codes "boom"))
unfolding program
failure_tests = (refl, refl)

-- A new key during a fetch loads its own list, and the old page does not leak into it.
key_change_tests :
    let w = resolve 0 first_page (resolve 1 last_page (change_key 0 artists w1)) in
    ((w.lists 0).items ≡ 3 ∷ []) × ((w.lists 0).loading ≡ false)
unfolding program
key_change_tests = (refl, refl)

Reach-IsShown_example : IsShown pages (w4.lists 0)
unfolding program
Reach-IsShown_example = Reach-IsShown pages w4-Reach 0 (omega arith)

Reach-one_fetch_example :
    (second.token ≡ (w3.heap 0).page_token)
    × ((w3.heap 0).done ≡ false)
    × ((w3.heap 0).inflight ≡ true)
    × ((id' : ℕ) (c' : Call) → w3.calls id' ≡ some c' → c'.entry ≡ 0 → id' ≡ 1)
unfolding program
Reach-one_fetch_example = Reach-one_fetch pages w3-Reach 1 second refl

-- The list has shown both keys, and loads more of the first when the second comes back.
abbrev w5 : World ℕ
w5 = resolve 1 first_page (change_key 0 artists w2)

abbrev w6 : World ℕ
w6 = load_more 0 (change_key 0 albums w5)

only_second : (id' : ℕ) (c' : Call) → w6.calls id' ≡ some c' → c'.list ≡ 0 → id' ≡ 2
unfolding program
only_second id' c' h l = ground arith
