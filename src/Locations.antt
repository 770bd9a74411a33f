-- ===== src/Locations.antt =====
-- The table of the locations of libraries: `LocationStore` of sqlite/location.go on the tables
-- `locations` and `scans`, whose rows Scanner keeps. Each function is one statement or one
-- transaction. The table makes IDs and URIs unique; the database reports another code for the key of
-- the table than for a unique column. A row that violates both is taken to violate the key. What a
-- deletion takes with it from other tables is not modelled.
pub mod Uniqueness
pub mod Guards
pub mod Updates
pub mod Deletions
pub mod Listing
mod Tests
use byom.Prelude.{
  ℕ, ◌≡◌, refl, ◌≢◌, Bool, true, false, not, ◌&&◌, List, [], ◌∷◌, map, ◌==◌, Text, text_eq, Result,
  ok, err, ◌>>=◌, if◌then◌else◌, keep,
}
use byom.Import.{any}
use byom.Scanner.{Scanner, is_running}
use byom.Scanner.Rows.{ScanRow, rows_below}

-- `storage.Location`.
pub record StoredLocation : Type 0 where
  pub id : ℕ
  pub uri : Text
  pub available : Bool

pub data LocationError : Type 0 where
  exists not_exists scan_running other : LocationError

abbrev pub has_id : ℕ → StoredLocation → Bool
has_id id row = row.id == id

abbrev pub has_uri : Text → StoredLocation → Bool
has_uri uri row = text_eq row.uri uri

unfoldable pub insert_location :
    StoredLocation → List StoredLocation → Result LocationError (List StoredLocation)
insert_location loc rows =
    if any (has_id loc.id) rows
    then err other
    else if any (has_uri loc.uri) rows
    then err exists
    else ok (record loc { available = true } ∷ rows)

unfoldable pub stored_location : ℕ → List StoredLocation → Result LocationError StoredLocation
stored_location id [] = err not_exists
stored_location id (row ∷ rows) = if has_id id row then ok row else stored_location id rows

abbrev pub is_scan_of : ℕ → ScanRow → Bool
is_scan_of id row = row.1.location_id == id && is_running row.1.state

unfoldable pub err_if_scan_running : ℕ → Scanner → Result LocationError (Unit {0})
err_if_scan_running id w =
    if any (is_scan_of id) (rows_below w.issued w.scans) then err scan_running else ok tt

abbrev pub set_uri : StoredLocation → StoredLocation → StoredLocation
set_uri loc row = if has_id loc.id row then record row { uri = loc.uri } else row

-- The unique column refuses a URI that another row has.
abbrev pub is_taken_by : StoredLocation → StoredLocation → Bool
is_taken_by loc row = not (has_id loc.id row) && has_uri loc.uri row

unfoldable pub update_location :
    Scanner → StoredLocation → List StoredLocation → Result LocationError (List StoredLocation)
update_location w loc rows = do
  _ ← err_if_scan_running loc.id w
  if any (has_id loc.id) rows
      then (if any (is_taken_by loc) rows then err exists else ok (map (set_uri loc) rows))
      else err not_exists

abbrev pub is_other : ℕ → StoredLocation → Bool
is_other id row = not (has_id id row)

unfoldable pub delete_location :
    Scanner → ℕ → List StoredLocation → Result LocationError (List StoredLocation)
delete_location w id rows = do
  _ ← err_if_scan_running id w
  if any (has_id id) rows then ok (keep (is_other id) rows) else err not_exists
