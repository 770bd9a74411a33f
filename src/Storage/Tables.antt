-- ===== src/Storage/Tables.antt =====
-- How the statements on the rows of files answer a lookup by name.
use byom.Prelude.{
  ℕ, suc, ◌+◌, ◌≤◌, ◌<◌, ◌≡◌, refl, Text, text_eq, text_eq→eq, text_eq_refl, true, false, Option,
  none, some, List, [], ◌∷◌, map, All, arith, Bool-cases, inl, inr, length, if◌then◌else◌,
}
use byom.Storage.{
  RelPath, path_eq, File, lookup, with_id, issue_ids, overwrite, upsert_file, insert_files,
}

pub path_eq→eq : (p q : RelPath) → path_eq p q ≡ true → p ≡ q
unfolding path_eq
path_eq→eq [] [] h = refl
path_eq→eq [] (b ∷ q) h = absurd (ground arith)
path_eq→eq (a ∷ p) [] h = absurd (ground arith)
path_eq→eq (a ∷ p) (b ∷ q) h = ground (arith, text_eq→eq a b, path_eq→eq p q)

pub path_eq_refl : (p : RelPath) → path_eq p p ≡ true
unfolding path_eq
path_eq_refl [] = refl
path_eq_refl (a ∷ p) = rw (text_eq_refl a, path_eq_refl p) refl

-- No two rows have one name: the table's UNIQUE constraint.
abbrev pub AreNamed : List File → Type 0
AreNamed [] = Unit
AreNamed (f ∷ fs) = All (λ (g : File). text_eq g.name f.name ≡ false) fs × AreNamed fs

pub text_eq_sym : (s t : Text) → text_eq s t ≡ text_eq t s
text_eq_sym s t = ground (arith, text_eq→eq s t, text_eq→eq t s, text_eq_refl s)

pub text_eq_trans : (s t u : Text) → text_eq s t ≡ true → text_eq t u ≡ text_eq s u
text_eq_trans s t u h = rw (text_eq→eq s t h) refl

-- A name that no row has is not found, and a row that is found has the name.
pub lookup-none :
    (name : Text) (fs : List File)
    → All (λ (g : File). text_eq g.name name ≡ false) fs
    → lookup name fs ≡ none
lookup-none name [] h = refl
lookup-none name (f ∷ fs) h = ground (arith, lookup-none name fs h.1)

pub lookup-name :
    (name : Text) (fs : List File) (f : File) → lookup name fs ≡ some f → text_eq f.name name ≡ true
lookup-name name [] f h = absurd (ground arith)
lookup-name name (g ∷ fs) f h = ground (arith, lookup-name name fs f)

-- Rows that keep their names are found by them.
abbrev pub each : (File → File) → Option File → Option File
each p none = none
each p (some f) = some (p f)

pub each-some :
    (p : File → File) (o : Option File) (f : File)
    → each p o ≡ some f
    → (row : File) × (o ≡ some row) × (p row ≡ f)
each-some p none f h = absurd (ground arith)
each-some p (some row) f h = (row, refl, grind arith)

pub lookup-map :
    (p : File → File) (name : Text) (fs : List File)
    → ((f : File) → (p f).name ≡ f.name)
    → lookup name (map p fs) ≡ each p (lookup name fs)
lookup-map p name [] same = refl
lookup-map p name (f ∷ fs) same = ground (arith, same f, lookup-map p name fs same)

pub map-AreNamed :
    (p : File → File) (fs : List File)
    → ((f : File) → (p f).name ≡ f.name)
    → AreNamed fs
    → AreNamed (map p fs)
map-AreNamed p [] same h = tt
map-AreNamed p (f ∷ fs) same h = (rw (same f) (others fs h.0), map-AreNamed p fs same h.1)
  where
    others :
        (gs : List File)
        → All (λ (g : File). text_eq g.name f.name ≡ false) gs
        → All (λ (g : File). text_eq g.name f.name ≡ false) (map p gs)
    others [] k = tt
    others (g ∷ gs) k = (rw (same g) k.0, others gs k.1)

-- What an upsert leaves of the row with its name.
abbrev pub upserted : File → Option File → File
upserted f none = record f { missing = false }
upserted f (some row) = overwrite f row

pub lookup-upsert_file_self :
    (f : File) (rows : List File)
    → lookup f.name (upsert_file f rows) ≡ some (upserted f (lookup f.name rows))
unfolding upsert_file
lookup-upsert_file_self f [] = rw (text_eq_refl f.name) refl
lookup-upsert_file_self f (row ∷ rows) = ground (arith, lookup-upsert_file_self f rows)

pub lookup-upsert_file_ne :
    (name : Text) (f : File) (rows : List File)
    → text_eq f.name name ≡ false
    → lookup name (upsert_file f rows) ≡ lookup name rows
unfolding upsert_file
lookup-upsert_file_ne name f [] ne = ground arith
lookup-upsert_file_ne name f (row ∷ rows) ne =
    grind (arith, lookup-upsert_file_ne name f rows ne, text_eq_trans row.name f.name name)

upsert_file-ne :
    (name : Text) (f : File) (rows : List File)
    → text_eq f.name name ≡ false
    → All (λ (g : File). text_eq g.name name ≡ false) rows
    → All (λ (g : File). text_eq g.name name ≡ false) (upsert_file f rows)
unfolding upsert_file
upsert_file-ne name f [] ne h = (ne, tt)
upsert_file-ne name f (row ∷ rows) ne h = elim (Bool-cases (text_eq row.name f.name)) [
  | inl same ↦ rw same h
  | inr other ↦ rw other (h.0, upsert_file-ne name f rows ne h.1)
]

pub upsert_file-AreNamed :
    (f : File) (rows : List File) → AreNamed rows → AreNamed (upsert_file f rows)
unfolding upsert_file
upsert_file-AreNamed f [] h = (tt, tt)
upsert_file-AreNamed f (row ∷ rows) h = elim (Bool-cases (text_eq row.name f.name)) [
  | inl same ↦ rw same h
  | inr other ↦ rw other (
    upsert_file-ne row.name f rows (rw (text_eq_sym f.name row.name) other) h.0,
    upsert_file-AreNamed f rows h.1,
  )
]

pub insert_files-AreNamed : (fs rows : List File) → AreNamed rows → AreNamed (insert_files fs rows)
unfolding insert_files
insert_files-AreNamed [] rows h = h
insert_files-AreNamed (f ∷ fs) rows h =
    insert_files-AreNamed fs (upsert_file f rows) (upsert_file-AreNamed f rows h)

-- What an insert of files with names of their own leaves under each name.
abbrev pub inserted : Option File → Option File → Option File
inserted none row = row
inserted (some f) row = some (upserted f row)

pub lookup-insert_files :
    (name : Text) (fs rows : List File)
    → AreNamed fs
    → lookup name (insert_files fs rows) ≡ inserted (lookup name fs) (lookup name rows)
unfolding insert_files
lookup-insert_files name [] rows h = refl
lookup-insert_files name (f ∷ fs) rows h = elim (Bool-cases (text_eq f.name name)) [
  | inl same ↦
      let at : f.name ≡ name = text_eq→eq f.name name same in
      let gone : lookup name fs ≡ none = rw (← at) (lookup-none f.name fs h.0) in
      let here : lookup name (upsert_file f rows) ≡ some (upserted f (lookup name rows)) =
        rw (← at) (lookup-upsert_file_self f rows) in
      rw (lookup-insert_files name fs (upsert_file f rows) h.1, gone, same) here
  | inr other ↦
      rw (lookup-insert_files name fs (upsert_file f rows) h.1, other)
        (rw (lookup-upsert_file_ne name f rows other) refl)
]

-- The ID that the insert gives to the new file of a name.
abbrev pub place : Text → ℕ → List File → ℕ
place name new [] = new
place name new (f ∷ fs) = if text_eq f.name name then new else place name (suc new) fs

pub place-bounds :
    (name : Text) (new : ℕ) (fs : List File) (f : File)
    → lookup name fs ≡ some f
    → (new ≤ place name new fs) × (place name new fs < new + length fs)
place-bounds name new [] f h = absurd (ground arith)
place-bounds name new (g ∷ gs) f h = elim (Bool-cases (text_eq g.name name)) [
  | inl same ↦ rw same (omega arith, omega arith)
  | inr other ↦ rw other (
      let (low, high) = place-bounds name (suc new) gs f (grind arith) in
      (omega arith, omega arith))
]

pub place_apart :
    (a b : Text) (new : ℕ) (fs : List File) (f g : File)
    → lookup a fs ≡ some f
    → lookup b fs ≡ some g
    → place a new fs ≡ place b new fs
    → text_eq a b ≡ true
place_apart a b new [] f g ea eb h = absurd (ground arith)
place_apart a b new (x ∷ xs) f g ea eb h = grind (
  arith,
  place-bounds a (suc new) xs f,
  place-bounds b (suc new) xs g,
  place_apart a b (suc new) xs f g,
  text_eq_trans a x.name b,
  text_eq_sym a x.name,
)

with_id-name : (n : ℕ) (g : File) → (with_id n g).name ≡ g.name
with_id-name n g = ground arith

issue_ids-ne :
    (name : Text) (new : ℕ) (fs : List File)
    → All (λ (g : File). text_eq g.name name ≡ false) fs
    → All (λ (g : File). text_eq g.name name ≡ false) (issue_ids new fs)
unfolding issue_ids
issue_ids-ne name new [] h = tt
issue_ids-ne name new (f ∷ fs) h = (rw (with_id-name new f) h.0, issue_ids-ne name (suc new) fs h.1)

pub issue_ids-AreNamed : (new : ℕ) (fs : List File) → AreNamed fs → AreNamed (issue_ids new fs)
unfolding issue_ids
issue_ids-AreNamed new [] h = tt
issue_ids-AreNamed new (f ∷ fs) h = (
  rw (with_id-name new f) (issue_ids-ne f.name (suc new) fs h.0),
  issue_ids-AreNamed (suc new) fs h.1,
)

abbrev pub issued_file : ℕ → Option File → Option File
issued_file new none = none
issued_file new (some f) = some (with_id new f)

pub lookup-issue_ids :
    (name : Text) (new : ℕ) (fs : List File)
    → lookup name (issue_ids new fs) ≡ issued_file (place name new fs) (lookup name fs)
unfolding issue_ids
lookup-issue_ids name new [] = refl
lookup-issue_ids name new (f ∷ fs) = elim (Bool-cases (text_eq f.name name)) [
  | inl same ↦ rw same (rw (with_id-name new f) (rw same refl))
  | inr other ↦ rw other (rw (with_id-name new f) (rw other (lookup-issue_ids name (suc new) fs)))
]
