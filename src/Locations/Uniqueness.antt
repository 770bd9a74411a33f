-- ===== src/Locations/Uniqueness.antt =====
-- The locations have IDs and URIs of their own, whatever is asked of the table in whatever order:
-- sqlite/location.go.
use byom.Prelude.{
  ℕ, ◌≡◌, ◌≢◌, Bool, false, List, [], ◌∷◌, map, text_eq_iff, Result, ok, err, keep, All, arith, sym,
  Bool-cases, inl, inr,
}
use byom.Import.{any}
use byom.Locations.Guards.{err_if_scan_running_cases}
use byom.Scanner.{Scanner}
use byom.Locations.{
  StoredLocation, LocationError, has_id, has_uri, insert_location, set_uri, is_taken_by,
  update_location, is_other, delete_location,
}

abbrev pub Differs : StoredLocation → StoredLocation → Type 0
Differs loc row = (row.id ≢ loc.id) × (row.uri ≢ loc.uri)

abbrev pub IsDistinct : List StoredLocation → Type 0
IsDistinct [] = Unit
IsDistinct (row ∷ rows) = All (Differs row) rows × IsDistinct rows

-- The statements that write the table; those that look at scans have the scanner of their moment.
pub data LocationOp : Type 0 where
  inserts : StoredLocation → LocationOp
  updates : Scanner → StoredLocation → LocationOp
  deletes : Scanner → ℕ → LocationOp

abbrev pub answer : LocationOp → List StoredLocation → Result LocationError (List StoredLocation)
answer (inserts loc) rows = insert_location loc rows
answer (updates w loc) rows = update_location w loc rows
answer (deletes w id) rows = delete_location w id rows

-- A statement that fails changes nothing.
abbrev pub or_same :
    List StoredLocation → Result LocationError (List StoredLocation) → List StoredLocation
or_same rows (ok later) = later
or_same rows (err e) = rows

unfoldable pub run : List LocationOp → List StoredLocation → List StoredLocation
run [] rows = rows
run (op ∷ ops) rows = run ops (or_same rows (answer op rows))

free-Differs :
    (loc : StoredLocation) (rows : List StoredLocation)
    → any (has_id loc.id) rows ≡ false
    → any (has_uri loc.uri) rows ≡ false
    → All (Differs loc) rows
free-Differs loc [] h k = tt
free-Differs loc (row ∷ rows) h k = elim (Bool-cases (has_id loc.id row)) [
  | inl same ↦ absurd (ground arith)
  | inr differs ↦ elim (Bool-cases (has_uri loc.uri row)) [
    | inl same ↦ absurd (ground arith)
    | inr differs' ↦ (
      (λ e. ground arith, λ e. grind (arith, (text_eq_iff row.uri loc.uri).1 e)),
      free-Differs loc rows (ground arith) (ground arith),
    )
  ]
]

insert_location-IsDistinct :
    (loc : StoredLocation) (rows : List StoredLocation)
    → IsDistinct rows
    → IsDistinct (or_same rows (insert_location loc rows))
unfolding insert_location
insert_location-IsDistinct loc rows h = elim (Bool-cases (any (has_id loc.id) rows)) [
  | inl known ↦ rw known h
  | inr new ↦ elim (Bool-cases (any (has_uri loc.uri) rows)) [
    | inl used ↦ rw (new, used) h
    | inr unused ↦ rw (new, unused) (free-Differs loc rows new unused, h)
  ]
]

set_uri-Differs :
    (loc row other : StoredLocation)
    → is_taken_by loc row ≡ false
    → is_taken_by loc other ≡ false
    → Differs row other
    → Differs (set_uri loc row) (set_uri loc other)
set_uri-Differs loc row other h k (ids, uris) =
    let same_uri = text_eq_iff row.uri loc.uri in
    let same_uri' = text_eq_iff other.uri loc.uri in
    elim (Bool-cases (has_id loc.id row)) [
      | inl at ↦ elim (Bool-cases (has_id loc.id other)) [
        | inl at' ↦ absurd (ground arith)
        | inr off' ↦ rw (at, off') (ids, λ e. grind (arith, same_uri'.1 e))
      ]
      | inr off ↦ elim (Bool-cases (has_id loc.id other)) [
        | inl at' ↦ rw (off, at') (ids, λ e. grind (arith, same_uri.1 (sym e)))
        | inr off' ↦ rw (off, off') (ids, uris)
      ]
    ]

map-Differs :
    (loc row : StoredLocation) (rows : List StoredLocation)
    → is_taken_by loc row ≡ false
    → any (is_taken_by loc) rows ≡ false
    → All (Differs row) rows
    → All (Differs (set_uri loc row)) (map (set_uri loc) rows)
map-Differs loc row [] h k differs = tt
map-Differs loc row (other ∷ rows) h k differs = (
  set_uri-Differs loc row other h (ground arith) differs.0,
  map-Differs loc row rows h (ground arith) differs.1,
)

map-IsDistinct :
    (loc : StoredLocation) (rows : List StoredLocation)
    → any (is_taken_by loc) rows ≡ false
    → IsDistinct rows
    → IsDistinct (map (set_uri loc) rows)
map-IsDistinct loc [] h distinct = tt
map-IsDistinct loc (row ∷ rows) h distinct = (
  map-Differs loc row rows (ground arith) (ground arith) distinct.0,
  map-IsDistinct loc rows (ground arith) distinct.1,
)

update_location-IsDistinct :
    (w : Scanner) (loc : StoredLocation) (rows : List StoredLocation)
    → IsDistinct rows
    → IsDistinct (or_same rows (update_location w loc rows))
unfolding update_location
update_location-IsDistinct w loc rows h = elim (err_if_scan_running_cases loc.id w) [
  | inr busy ↦ rw busy h
  | inl idle ↦ elim (Bool-cases (any (has_id loc.id) rows)) [
    | inr unknown ↦ rw (idle, unknown) h
    | inl known ↦ elim (Bool-cases (any (is_taken_by loc) rows)) [
      | inl taken ↦ rw (idle, known, taken) h
      | inr free ↦ rw (idle, known, free) (map-IsDistinct loc rows free h)
    ]
  ]
]

keep-All {κ} :
    (P : StoredLocation → Type κ) (p : StoredLocation → Bool) (rows : List StoredLocation)
    → All P rows
    → All P (keep p rows)
keep-All P p [] h = tt
keep-All P p (row ∷ rows) h = elim (Bool-cases (p row)) [
  | inl kept ↦ rw kept (h.0, keep-All P p rows h.1)
  | inr dropped ↦ rw dropped (keep-All P p rows h.1)
]

keep-IsDistinct :
    (p : StoredLocation → Bool) (rows : List StoredLocation)
    → IsDistinct rows
    → IsDistinct (keep p rows)
keep-IsDistinct p [] h = tt
keep-IsDistinct p (row ∷ rows) h = elim (Bool-cases (p row)) [
  | inl kept ↦ rw kept (keep-All (Differs row) p rows h.0, keep-IsDistinct p rows h.1)
  | inr dropped ↦ rw dropped (keep-IsDistinct p rows h.1)
]

delete_location-IsDistinct :
    (w : Scanner) (id : ℕ) (rows : List StoredLocation)
    → IsDistinct rows
    → IsDistinct (or_same rows (delete_location w id rows))
unfolding delete_location
delete_location-IsDistinct w id rows h = elim (err_if_scan_running_cases id w) [
  | inr busy ↦ rw busy h
  | inl idle ↦ elim (Bool-cases (any (has_id id) rows)) [
    | inl known ↦ rw (idle, known) (keep-IsDistinct (is_other id) rows h)
    | inr unknown ↦ rw (idle, unknown) h
  ]
]

or_same-IsDistinct :
    (op : LocationOp) (rows : List StoredLocation)
    → IsDistinct rows
    → IsDistinct (or_same rows (answer op rows))
or_same-IsDistinct (inserts loc) rows h = insert_location-IsDistinct loc rows h
or_same-IsDistinct (updates w loc) rows h = update_location-IsDistinct w loc rows h
or_same-IsDistinct (deletes w id) rows h = delete_location-IsDistinct w id rows h

-- If no two locations have one ID or one URI, this still holds after any sequence of insertions,
-- updates and deletions, whichever of them are refused and whatever scans run meanwhile.
pub run-IsDistinct :
    (ops : List LocationOp) (rows : List StoredLocation)
    → IsDistinct rows
    → IsDistinct (run ops rows)
unfolding run
run-IsDistinct [] rows h = h
run-IsDistinct (op ∷ ops) rows h =
    run-IsDistinct ops (or_same rows (answer op rows)) (or_same-IsDistinct op rows h)
