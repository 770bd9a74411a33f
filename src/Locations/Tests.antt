-- ===== src/Locations/Tests.antt =====
-- The statements on locations while one of two is scanned.
use byom.Prelude.{◌≡◌, refl, List, [], ◌∷◌, true, false, codes, ok, err, arith, text_eq}
use byom.Locations.{
  StoredLocation, LocationError, insert_location, stored_location, err_if_scan_running,
  update_location, delete_location,
}
use byom.Locations.Guards.{Reach-update_location}
use byom.Locations.Listing.{LocationCursor, locations, run-locations}
use byom.Locations.Deletions.{DeletionOutcome, update_location-delete_location}
use byom.Locations.Updates.{UpdateOutcome}
use byom.Locations.Uniqueness.{LocationOp, inserts, updates, deletes, run}
use byom.Pagination.Walk.{walk, advance}
use byom.Paging.{Codec, page_size, cut_page, fetch, resume, list_page}
use byom.Paging.Codecs.{nat_serial, via, codec_of}
use byom.Paging.Orders.{nat_order}
use byom.Paging.Sorting.{insert_row, order_by, IsAscending}
use byom.Paging.Walks.{page_of}
use byom.Scanner.{Scanner, new_scanner, claim, add_run, begin_scan, register}
use byom.Scanner.Reach.{Reach, now', next, claims, begins, registers}
use byom.Scanner.Rows.{rows_below}
use mathlib.Core.List.{Perm}

program : Unit {0}
unfolding insert_location stored_location err_if_scan_running update_location delete_location run
    claim add_run begin_scan register rows_below text_eq locations walk advance page_size cut_page
    fetch resume list_page insert_row order_by
program = tt

abbrev music : StoredLocation
music = record { id = 7; uri = codes "/music"; available = true }

abbrev tapes : StoredLocation
tapes = record { id = 8; uri = codes "/tapes"; available = false }

abbrev tapes_moved : StoredLocation
tapes_moved = record { id = 8; uri = codes "/old"; available = false }

-- The location 7 is scanned.
abbrev scanned : Scanner
scanned = register 0 0 (begin_scan 100 0 (add_run 7 new_scanner))

scanned-Reach : Reach scanned
unfolding program
scanned-Reach =
    next (next (next now' (claims 7 refl)) (begins 100 0 (omega arith) refl))
      (registers 0 0 (omega arith) refl)

abbrev ops : List LocationOp
ops =
    inserts music
    ∷ inserts tapes
    ∷ inserts (record tapes { id = 9 })
    ∷ updates scanned tapes_moved
    ∷ deletes scanned 7
    ∷ []

abbrev after_ops : List StoredLocation
after_ops = record tapes_moved { available = true } ∷ music ∷ []

run_test : run ops [] ≡ after_ops
unfolding program
run_test = refl

-- A known ID is not reported as a location that exists.
insert_location_id_test :
    insert_location (record tapes { id = 7 }) (music ∷ []) ≡ err LocationError.other
unfolding program
insert_location_id_test = refl

insert_location_uri_test :
    insert_location (record music { id = 9 }) (music ∷ []) ≡ err LocationError.exists
unfolding program
insert_location_uri_test = refl

update_location_test :
    update_location scanned (record tapes { uri = codes "/music" }) (music ∷ tapes ∷ [])
    ≡ err LocationError.exists
unfolding program
update_location_test = refl

delete_location_test : delete_location new_scanner 9 (music ∷ []) ≡ err LocationError.not_exists
unfolding program
delete_location_test = refl

stored_location_test : stored_location 8 (music ∷ tapes ∷ []) ≡ ok tapes
unfolding program
stored_location_test = refl

update_location-delete_location_example :
    UpdateOutcome scanned tapes_moved
      (music ∷ tapes ∷ [])
      (update_location scanned tapes_moved (music ∷ tapes ∷ []))
    × DeletionOutcome scanned 8
        (music ∷ tapes ∷ [])
        (delete_location scanned 8 (music ∷ tapes ∷ []))
update_location-delete_location_example =
    update_location-delete_location scanned-Reach tapes_moved 8 (music ∷ tapes ∷ [])

Reach-update_location_example :
    (update_location scanned music after_ops ≡ err LocationError.scan_running)
    × (delete_location scanned 7 after_ops ≡ err LocationError.scan_running)
unfolding program
Reach-update_location_example =
    Reach-update_location scanned-Reach 0 0 (omega arith) refl refl music after_ops refl

abbrev location_codec : Codec LocationCursor
location_codec = codec_of (via nat_serial (λ c. c.id) (λ n. record { id = n }) (λ c. refl))

-- Two pages of one location each.
locations_test :
    (walk (λ token. page_of (locations location_codec after_ops token 1)) 2).items
    ≡ music ∷ record tapes_moved { available = true } ∷ []
unfolding program
locations_test = refl

run-locations_example :
    let followed = walk (λ token. page_of (locations location_codec (run ops []) token 1)) 2 in
    (followed.done ≡ true)
    × Perm followed.items (run ops [])
    × IsAscending nat_order (λ (loc : StoredLocation). loc.id) followed.items
run-locations_example = run-locations location_codec ops 1 1 (unfold program in omega arith)
