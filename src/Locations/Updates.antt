-- ===== src/Locations/Updates.antt =====
-- Every branch of the statement that changes a location: sqlite/location.go on Scanner.
use byom.Prelude.{
  ℕ, ◌≡◌, ◌≢◌, refl, true, false, ==_iff, List, [], ◌∷◌, map, arith, All, Result, ok, err, ◌⊎◌, inl,
  inr, Bool-cases, text_eq_iff,
}
use byom.Import.{any}
use byom.Locations.{
  StoredLocation, LocationError, has_id, set_uri, is_taken_by, update_location, stored_location,
}
use byom.Locations.Guards.{HasRunning, err_if_scan_running_lem}
use byom.Scanner.{Scanner}
use byom.Scanner.Reach.{Reach}
use mathlib.Core.List.{Mem, mem-cons_self, mem-cons_of_mem}

pub lacks_id :
    (id : ℕ) (rows : List StoredLocation)
    → any (has_id id) rows ≡ false
    → All (λ (row : StoredLocation). row.id ≢ id) rows
lacks_id id [] h = tt
lacks_id id (row ∷ rows) h = (λ same. ground arith, lacks_id id rows (ground arith))

pub stored_location-any :
    (id : ℕ) (rows : List StoredLocation)
    → any (has_id id) rows ≡ true
    → (old : StoredLocation) × (stored_location id rows ≡ ok old) × (old.id ≡ id)
unfolding stored_location
stored_location-any id [] h = absurd (ground arith)
stored_location-any id (row ∷ rows) h = elim (Bool-cases (has_id id row)) [
  | inl its ↦ (row, rw its refl, (==_iff row.id id).0 its)
  | inr other ↦
      let (old, found, same) = stored_location-any id rows (ground arith) in
      (old, rw other found, same)
]

stored_location-map :
    (loc old : StoredLocation) (rows : List StoredLocation)
    → stored_location loc.id rows ≡ ok old
    → stored_location loc.id (map (set_uri loc) rows) ≡ ok (record old { uri = loc.uri })
unfolding stored_location
stored_location-map loc old [] h = absurd (ground arith)
stored_location-map loc old (row ∷ rows) h = elim (Bool-cases (has_id loc.id row)) [
  | inl its ↦ let same : row ≡ old = ground arith in rw⁻¹ same (rw (its, its) refl)
  | inr other ↦ rw (other, other) (stored_location-map loc old rows (ground arith))
]

stored_location-map_other :
    (loc : StoredLocation) (id : ℕ) (rows : List StoredLocation)
    → id ≢ loc.id
    → stored_location id (map (set_uri loc) rows) ≡ stored_location id rows
unfolding stored_location
stored_location-map_other loc id [] h = refl
stored_location-map_other loc id (row ∷ rows) h =
    let rest = stored_location-map_other loc id rows h in
    elim (Bool-cases (has_id loc.id row)) [
      | inl its ↦ let apart : has_id id row ≡ false = ground arith in rw (its, apart) rest
      | inr other ↦ elim (Bool-cases (has_id id row)) [
        | inl here ↦ rw (other, here) refl
        | inr there ↦ rw (other, there) rest
      ]
    ]

taken_by_other :
    (loc : StoredLocation) (rows : List StoredLocation)
    → any (is_taken_by loc) rows ≡ true
    → (other : StoredLocation) × Mem other rows × (other.id ≢ loc.id) × (other.uri ≡ loc.uri)
taken_by_other loc [] h = absurd (ground arith)
taken_by_other loc (row ∷ rows) h = elim (Bool-cases (is_taken_by loc row)) [
  | inl taken ↦
      (row, mem-cons_self, λ same. ground arith, (text_eq_iff row.uri loc.uri).0 (ground arith))
  | inr free ↦
      let (other, within, apart, same) = taken_by_other loc rows (ground arith) in
      (other, mem-cons_of_mem row within, apart, same)
]

free_of_others :
    (loc : StoredLocation) (rows : List StoredLocation)
    → any (is_taken_by loc) rows ≡ false
    → All (λ (row : StoredLocation). row.uri ≡ loc.uri → row.id ≡ loc.id) rows
free_of_others loc [] h = tt
free_of_others loc (row ∷ rows) h = (
  λ same. grind (arith, (text_eq_iff row.uri loc.uri).1 same),
  free_of_others loc rows (ground arith),
)

-- What an update may answer, and when.
abbrev pub UpdateOutcome :
    Scanner
    → StoredLocation
    → List StoredLocation
    → Result LocationError (List StoredLocation)
    → Type 0
UpdateOutcome w loc rows answer =
    (HasRunning w loc.id × (answer ≡ err LocationError.scan_running))
    ⊎ ((¬ HasRunning w loc.id)
        × ((All (λ (row : StoredLocation). row.id ≢ loc.id) rows
              × (answer ≡ err LocationError.not_exists))
            ⊎ (((old : StoredLocation) × (stored_location loc.id rows ≡ ok old)
                  × (other : StoredLocation) × Mem other rows
                  × (other.id ≢ loc.id)
                  × (other.uri ≡ loc.uri)
                  × (answer ≡ err LocationError.exists))
                ⊎ ((old : StoredLocation) × (later : List StoredLocation) × (stored_location loc.id
                        rows
                      ≡ ok old)
                    × All (λ (row : StoredLocation). row.uri ≡ loc.uri → row.id ≡ loc.id) rows
                    × (answer ≡ ok later)
                    × (stored_location loc.id later ≡ ok (record old { uri = loc.uri }))
                    × ((id : ℕ)
                        → id ≢ loc.id
                        → stored_location id later ≡ stored_location id rows)))))

pub update_location_lem :
    {w : Scanner}
    → Reach w
    → (loc : StoredLocation) (rows : List StoredLocation)
    → UpdateOutcome w loc rows (update_location w loc rows)
unfolding update_location
update_location_lem reach loc rows = elim (err_if_scan_running_lem reach loc.id) [
  | inl (running, busy) ↦ inl (running, rw busy refl)
  | inr (none', idle) ↦ inr (
    none',
    elim (Bool-cases (any (has_id loc.id) rows)) [
      | inr unknown ↦ inl (lacks_id loc.id rows unknown, rw (idle, unknown) refl)
      | inl known ↦
          let (old, stored, _) = stored_location-any loc.id rows known in
          inr (elim (Bool-cases (any (is_taken_by loc) rows)) [
            | inl taken ↦
                let (other, within, apart, same) = taken_by_other loc rows taken in
                inl (old, stored, other, within, apart, same, rw (idle, known, taken) refl)
            | inr free ↦ inr (
              old,
              map (set_uri loc) rows,
              stored,
              free_of_others loc rows free,
              rw (idle, known, free) refl,
              stored_location-map loc old rows stored,
              λ id apart. stored_location-map_other loc id rows apart,
            )
          ])
    ],
  )
]
