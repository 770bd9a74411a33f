-- ===== src/Sync/Files.antt =====
-- The rows of a directory's files after its sync, each by its name: what `syncDir` of scan/sync.go
-- makes of the file that was walked and of the row that was stored.
use byom.Prelude.{
  ℕ, ◌<◌, ◌≡◌, refl, Text, Bool, true, false, ◌&&◌, Option, none, some, List, map, ◌==◌, arith,
  if◌then◌else◌,
}
use byom.Storage.{File, lookup, without_missing, mark_file, issue_ids, insert_files}
use byom.Storage.Tables.{
  AreNamed, each, each-some, lookup-map, map-AreNamed, inserted, lookup-insert_files, place,
  issued_file, issue_ids-AreNamed, lookup-issue_ids,
}
use byom.Sync.{WalkEntry, FileInfo, compare_files, find_entry}
use byom.Sync.Changes.{AreEntries, changed_of, changed_for, changed-AreNamed, lookup-changed}
use byom.Sync.Missing.{HaveIds, missing_for, stat_fails, elem-missing}

-- What a sync is to leave of a name: a walked file that is new or has changed is stored as walked, one
-- with the stored size and time is left as it is, and a row whose file is gone or gives no
-- information is marked missing.
abbrev pub new_file : ℕ → WalkEntry → FileInfo → File
new_file new f info = record {
  id = new;
  name = f.name;
  kind = f.kind;
  size = info.size;
  mod_time = info.mod_time;
  missing = false;
}

abbrev pub has_info : File → FileInfo → Bool
has_info row info = row.size == info.size && row.mod_time == info.mod_time

abbrev pub mark_gone : Option File → Option File
mark_gone none = none
mark_gone (some row) = some (record row { missing = true })

abbrev pub store_walked : ℕ → WalkEntry → Option FileInfo → Option File → Option File
store_walked new f none row = mark_gone row
store_walked new f (some info) none =
    if info.size == 0 && info.mod_time == 0 then none else some (new_file new f info)
store_walked new f (some info) (some row) =
    if has_info row info
    then some row
    else some
        (record row { kind = f.kind; size = info.size; mod_time = info.mod_time; missing = false })

abbrev pub synced_file : ℕ → Option WalkEntry → Option File → Option File
synced_file new none row = mark_gone row
synced_file new (some f) row = store_walked new f f.info row

-- The rows of one directory before and after.
unfoldable pub sync_rows : ℕ → List WalkEntry → List File → List File
sync_rows new fs rows =
    let (changed, missing) = compare_files fs (map without_missing rows) in
    insert_files (issue_ids new changed) (map (mark_file missing) rows)

pub HaveIds-known : (rows : List File) → HaveIds rows → HaveIds (map without_missing rows)
HaveIds-known rows h n m f g a b same =
    let (f', found_f, is_f) =
      each-some without_missing (lookup n rows) f
        (rw (← lookup-map without_missing n rows (λ f. refl)) a) in
    let (g', found_g, is_g) =
      each-some without_missing (lookup m rows) g
        (rw (← lookup-map without_missing m rows (λ f. refl)) b) in
    h n m f' g' found_f found_g (grind arith)

abbrev mark_if : Bool → File → File
mark_if b g = if b then record g { missing = true } else g

-- Every row of a name is marked or left as the name's entry tells.
lookup-marked :
    (name : Text) (fs : List WalkEntry) (rows : List File)
    → AreNamed rows
    → HaveIds rows
    → lookup name (map (mark_file (compare_files fs (map without_missing rows)).1) rows)
      ≡ each (mark_if (missing_for (find_entry name fs))) (lookup name rows)
lookup-marked name fs rows named ids =
    rw (lookup-map (mark_file ms) name rows (λ f. ground arith)) (go (lookup name rows) refl)
  where
    ms : List ℕ
    ms = (compare_files fs (map without_missing rows)).1

    go :
        (o : Option File)
        → lookup name rows ≡ o
        → each (mark_file ms) o ≡ each (mark_if (missing_for (find_entry name fs))) o
    go none h = refl
    go (some g) h =
        rw
          (elem-missing name fs (map without_missing rows) (without_missing g)
            (map-AreNamed without_missing rows (λ f. refl) named) (HaveIds-known rows ids)
            (rw (lookup-map without_missing name rows (λ f. refl), h) refl))
          refl

-- The ID that a sync gives to the file of a name, when it is new.
abbrev pub new_id : Text → ℕ → List WalkEntry → List File → ℕ
new_id name new fs rows = place name new (compare_files fs (map without_missing rows)).0

combine :
    (new : ℕ) (e : Option WalkEntry) (row : Option File)
    → ((g : File) → row ≡ some g → 0 < g.id)
    → inserted
        (issued_file new (changed_for e (each without_missing row)))
        (each (mark_if (missing_for e)) row)
      ≡ synced_file new e row
combine new none none pos = refl
combine new none (some g) pos = refl
combine new (some f) row pos = stat f.info row pos
  where
    stat :
        (i : Option FileInfo) (row : Option File)
        → ((g : File) → row ≡ some g → 0 < g.id)
        → inserted
            (issued_file new (changed_of i f (each without_missing row)))
            (each (mark_if (stat_fails i)) row)
          ≡ store_walked new f i row
    stat none none p = refl
    stat none (some g) p = refl
    stat (some info) none p = ground arith
    stat (some info) (some g) p = grind (arith, p g refl)

pub lookup-sync_rows :
    (new : ℕ) (fs : List WalkEntry) (rows : List File)
    → AreEntries fs
    → AreNamed rows
    → HaveIds rows
    → ((name : Text) (g : File) → lookup name rows ≡ some g → 0 < g.id)
    → (name : Text)
    → lookup name (sync_rows new fs rows)
      ≡ synced_file (new_id name new fs rows) (find_entry name fs) (lookup name rows)
unfolding sync_rows
lookup-sync_rows new fs rows entries named ids pos name =
    let known = map without_missing rows in
    rw
      (
        lookup-insert_files name (issue_ids new (compare_files fs known).0) _
            (issue_ids-AreNamed new _ (changed-AreNamed fs known entries)),
        lookup-issue_ids name new (compare_files fs known).0,
        lookup-changed name fs known entries,
        lookup-map without_missing name rows (λ f. refl),
        lookup-marked name fs rows named ids,
      )
      (combine (new_id name new fs rows) (find_entry name fs) (lookup name rows) (pos name))
