-- ===== src/Sync/Changes.antt =====
-- Which files a change set names: each walked or known name answers for itself.
use byom.Prelude.{
  ℕ, ◌≡◌, refl, Text, text_eq, text_eq→eq, text_eq_refl, false, Option, none, some, List, [], ◌∷◌,
  All, arith, Bool-cases, inl, inr, if◌then◌else◌,
}
use byom.Storage.{File, lookup}
use byom.Storage.Tables.{AreNamed, lookup-none, text_eq_trans}
use byom.Sync.{
  WalkEntry, FileInfo, file_or_zero, remove_name, walked_file, is_unchanged, add_changes,
  compare_files, find_entry,
}

-- The entries of one directory have names of their own.
abbrev pub AreEntries : List WalkEntry → Type 0
AreEntries [] = Unit
AreEntries (f ∷ fs) = All (λ (g : WalkEntry). text_eq g.name f.name ≡ false) fs × AreEntries fs

-- What one entry puts into the two lists.
abbrev pub changed_of : Option FileInfo → WalkEntry → Option File → Option File
changed_of none f old = none
changed_of (some info) f old =
    if is_unchanged (file_or_zero old) info
    then none
    else some (walked_file (file_or_zero old) f info)

abbrev pub missing_of : Option FileInfo → Option File → Option ℕ
missing_of none none = none
missing_of none (some o) = some o.id
missing_of (some info) old = none

abbrev pub before {ℓ} : {A : Type ℓ} → Option A → List A → List A
before none xs = xs
before (some x) xs = x ∷ xs

add_changes-changed :
    (old : Option File) (f : WalkEntry) (p : List File × List ℕ)
    → (add_changes old f p).0 ≡ before (changed_of f.info f old) p.0
unfolding add_changes
add_changes-changed old f p = ground arith

pub add_changes-missing :
    (old : Option File) (f : WalkEntry) (p : List File × List ℕ)
    → (add_changes old f p).1 ≡ before (missing_of f.info old) p.1
unfolding add_changes
add_changes-missing old f p = ground arith

pub lookup-remove_name :
    (name gone : Text) (known : List File)
    → text_eq gone name ≡ false
    → lookup name (remove_name gone known) ≡ lookup name known
lookup-remove_name name gone [] ne = refl
lookup-remove_name name gone (f ∷ fs) ne =
    grind (arith, lookup-remove_name name gone fs ne, text_eq_trans f.name gone name)

keep-others :
    (name gone : Text) (known : List File)
    → All (λ (g : File). text_eq g.name name ≡ false) known
    → All (λ (g : File). text_eq g.name name ≡ false) (remove_name gone known)
keep-others name gone [] h = tt
keep-others name gone (f ∷ fs) h = ground (arith, keep-others name gone fs h.1)

pub remove_name-gone :
    (gone : Text) (known : List File)
    → All (λ (g : File). text_eq g.name gone ≡ false) (remove_name gone known)
remove_name-gone gone [] = tt
remove_name-gone gone (f ∷ fs) = ground (arith, remove_name-gone gone fs)

pub remove_name-AreNamed :
    (gone : Text) (known : List File) → AreNamed known → AreNamed (remove_name gone known)
remove_name-AreNamed gone [] h = tt
remove_name-AreNamed gone (f ∷ fs) h =
    ground (arith, remove_name-AreNamed gone fs h.1, keep-others f.name gone fs h.0)

-- The file that the change set has for a name.
abbrev pub changed_for : Option WalkEntry → Option File → Option File
changed_for none old = none
changed_for (some f) old = changed_of f.info f old

changed_none :
    (name : Text) (fs : List WalkEntry) (known : List File)
    → All (λ (g : WalkEntry). text_eq g.name name ≡ false) fs
    → All (λ (g : File). text_eq g.name name ≡ false) (compare_files fs known).0
unfolding compare_files
changed_none name [] known h = tt
changed_none name (f ∷ fs) known h =
    rw (add_changes-changed (lookup f.name known) f (compare_files fs (remove_name f.name known)))
      (ground (arith, changed_none name fs (remove_name f.name known) h.1))

before-AreNamed :
    (i : Option FileInfo) (f : WalkEntry) (old : Option File) (rest : List File)
    → All (λ (g : File). text_eq g.name f.name ≡ false) rest
    → AreNamed rest
    → AreNamed (before (changed_of i f old) rest)
before-AreNamed none f old rest h v = v
before-AreNamed (some info) f old rest h v =
    elim (Bool-cases (is_unchanged (file_or_zero old) info)) [
      | inl same ↦ rw same v
      | inr other ↦ rw other (h, v)
    ]

lookup-before_self :
    (i : Option FileInfo) (f : WalkEntry) (old : Option File) (rest : List File)
    → lookup f.name rest ≡ none
    → lookup f.name (before (changed_of i f old) rest) ≡ changed_of i f old
lookup-before_self none f old rest h = h
lookup-before_self (some info) f old rest h =
    elim (Bool-cases (is_unchanged (file_or_zero old) info)) [
      | inl same ↦ rw same h
      | inr other ↦ rw other (rw (text_eq_refl f.name) refl)
    ]

lookup-before_ne :
    (name : Text) (i : Option FileInfo) (f : WalkEntry) (old : Option File) (rest : List File)
    → text_eq f.name name ≡ false
    → lookup name (before (changed_of i f old) rest) ≡ lookup name rest
lookup-before_ne name none f old rest ne = refl
lookup-before_ne name (some info) f old rest ne =
    elim (Bool-cases (is_unchanged (file_or_zero old) info)) [
      | inl same ↦ rw same refl
      | inr other ↦ rw other (rw ne refl)
    ]

pub changed-AreNamed :
    (fs : List WalkEntry) (known : List File) → AreEntries fs → AreNamed (compare_files fs known).0
unfolding compare_files
changed-AreNamed [] known h = tt
changed-AreNamed (f ∷ fs) known h =
    let known' = remove_name f.name known in
    rw (add_changes-changed (lookup f.name known) f (compare_files fs known')) (
      before-AreNamed f.info f (lookup f.name known) _ (changed_none f.name fs known' h.0)
        (changed-AreNamed fs known' h.1))

find_entry-none :
    (name : Text) (fs : List WalkEntry)
    → All (λ (g : WalkEntry). text_eq g.name name ≡ false) fs
    → find_entry name fs ≡ none
unfolding find_entry
find_entry-none name [] h = refl
find_entry-none name (f ∷ fs) h = ground (arith, find_entry-none name fs h.1)

pub lookup-changed :
    (name : Text) (fs : List WalkEntry) (known : List File)
    → AreEntries fs
    → lookup name (compare_files fs known).0 ≡ changed_for (find_entry name fs) (lookup name known)
unfolding compare_files find_entry
lookup-changed name [] known h = refl
lookup-changed name (f ∷ fs) known h =
    let known' = remove_name f.name known in
    rw (add_changes-changed (lookup f.name known) f (compare_files fs known'))
      (elim (Bool-cases (text_eq f.name name)) [
        | inl same ↦
            let at : f.name ≡ name = text_eq→eq f.name name same in
            rw (same, ← at)
              (lookup-before_self f.info f (lookup f.name known) _
                (lookup-none f.name _ (changed_none f.name fs known' h.0)))
        | inr other ↦
            rw
              (
                lookup-before_ne name f.info f (lookup f.name known) _ other,
                other,
                lookup-changed name fs known' h.1,
                lookup-remove_name name f.name known other,
              )
              refl
      ])
