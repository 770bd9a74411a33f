-- ===== src/Locations/Deletions.antt =====
-- Every branch of the statement that deletes a location: sqlite/location.go on Scanner.
use byom.Prelude.{
  ℕ, ◌≡◌, ◌≢◌, refl, false, List, [], ◌∷◌, arith, All, Result, ok, err, ◌⊎◌, inl, inr, Bool-cases,
  keep,
}
use byom.Import.{any}
use byom.Locations.{
  StoredLocation, LocationError, has_id, update_location, is_other, delete_location,
  stored_location,
}
use byom.Locations.Guards.{HasRunning, err_if_scan_running_lem}
use byom.Scanner.{Scanner}
use byom.Scanner.Reach.{Reach}
use byom.Locations.Updates.{UpdateOutcome, lacks_id, stored_location-any, update_location_lem}

stored_location-keep :
    (id : ℕ) (rows : List StoredLocation)
    → stored_location id (keep (is_other id) rows) ≡ err LocationError.not_exists
unfolding stored_location
stored_location-keep id [] = refl
stored_location-keep id (row ∷ rows) = elim (Bool-cases (has_id id row)) [
  | inl its ↦ rw its (stored_location-keep id rows)
  | inr other ↦ rw (other, other) (stored_location-keep id rows)
]

stored_location-keep_other :
    (gone id : ℕ) (rows : List StoredLocation)
    → id ≢ gone
    → stored_location id (keep (is_other gone) rows) ≡ stored_location id rows
unfolding stored_location
stored_location-keep_other gone id [] h = refl
stored_location-keep_other gone id (row ∷ rows) h =
    let rest = stored_location-keep_other gone id rows h in
    elim (Bool-cases (has_id gone row)) [
      | inl its ↦ let apart : has_id id row ≡ false = ground arith in rw (its, apart) rest
      | inr other ↦ elim (Bool-cases (has_id id row)) [
        | inl here ↦ rw (other, here) refl
        | inr there ↦ rw (other, there) rest
      ]
    ]

-- What a deletion may answer, and when.
abbrev pub DeletionOutcome :
    Scanner → ℕ → List StoredLocation → Result LocationError (List StoredLocation) → Type 0
DeletionOutcome w id rows answer =
    (HasRunning w id × (answer ≡ err LocationError.scan_running))
    ⊎ ((¬ HasRunning w id)
        × ((All (λ (row : StoredLocation). row.id ≢ id) rows
              × (answer ≡ err LocationError.not_exists))
            ⊎ ((old : StoredLocation) × (later : List StoredLocation) × (stored_location id rows
                  ≡ ok old)
                × (answer ≡ ok later)
                × (stored_location id later ≡ err LocationError.not_exists)
                × ((other : ℕ)
                    → other ≢ id
                    → stored_location other later ≡ stored_location other rows))))

delete_location_lem :
    {w : Scanner}
    → Reach w
    → (id : ℕ) (rows : List StoredLocation) → DeletionOutcome w id rows (delete_location w id rows)
unfolding delete_location
delete_location_lem reach id rows = elim (err_if_scan_running_lem reach id) [
  | inl (running, busy) ↦ inl (running, rw busy refl)
  | inr (none', idle) ↦ inr (
    none',
    elim (Bool-cases (any (has_id id) rows)) [
      | inr unknown ↦ inl (lacks_id id rows unknown, rw (idle, unknown) refl)
      | inl known ↦
          let (old, stored, _) = stored_location-any id rows known in
          inr (
            old,
            keep (is_other id) rows,
            stored,
            rw (idle, known) refl,
            stored_location-keep id rows,
            λ other apart. stored_location-keep_other id other rows apart,
          )
    ],
  )
]

-- In every reachable state of the scanner an update and a deletion of a location are refused, as a scan
-- is running, if the store has a running scan of it; else, as no such location exists, if no row has
-- its ID. Else an update is refused, as the URI exists, if another row has it, and otherwise sets the
-- URI of the ID's location; a deletion leaves the ID with no location. Every other ID keeps the one
-- that it had.
pub update_location-delete_location :
    {w : Scanner}
    → Reach w
    → (loc : StoredLocation) (id : ℕ) (rows : List StoredLocation)
    → UpdateOutcome w loc rows (update_location w loc rows)
      × DeletionOutcome w id rows (delete_location w id rows)
update_location-delete_location reach loc id rows =
    (update_location_lem reach loc rows, delete_location_lem reach id rows)
