-- ===== src/Sync/Missing.antt =====
-- Which known files a change set names as missing: scan/sync.go.
use byom.Prelude.{
  ℕ, ◌≡◌, refl, Text, text_eq, text_eq→eq, text_eq_refl, Bool, true, false, Option, none, some,
  List, [], ◌∷◌, map, ◌==◌, All, arith, Bool-cases, inl, inr,
}
use byom.Storage.{File, lookup, elem}
use byom.Storage.Tables.{AreNamed, lookup-none, text_eq_trans, text_eq_sym, lookup-name}
use byom.Sync.{WalkEntry, FileInfo, remove_name, compare_files, find_entry}
use byom.Sync.Changes.{
  missing_of, before, add_changes-missing, lookup-remove_name, remove_name-gone,
  remove_name-AreNamed,
}

-- Files that are found under different names have different IDs: the table's PRIMARY KEY.
abbrev pub HaveIds : List File → Type 0
HaveIds known =
    (n m : Text) (f g : File)
    → lookup n known ≡ some f
    → lookup m known ≡ some g
    → (f.id == g.id) ≡ true
    → text_eq n m ≡ true

elem-before :
    (id : ℕ) (i : Option FileInfo) (old : Option File) (rest : List ℕ)
    → ((o : File) → old ≡ some o → (id == o.id) ≡ false)
    → elem id (before (missing_of i old) rest) ≡ elem id rest
elem-before id none none rest h = refl
elem-before id none (some o) rest h = rw (h o refl) refl
elem-before id (some info) old rest h = refl

lookup-All {κ} :
    (P : File → Type κ) (name : Text) (known : List File) (f : File)
    → All P known
    → lookup name known ≡ some f
    → P f
lookup-All P name [] f h e = absurd (ground arith)
lookup-All P name (g ∷ gs) f h e = elim (Bool-cases (text_eq g.name name)) [
  | inl same ↦ let at : g ≡ f = grind arith in rw (← at) h.0
  | inr other ↦ lookup-All P name gs f h.1 (grind arith)
]

pub All-lookup {κ} :
    (P : File → Type κ) (known : List File)
    → AreNamed known
    → ((name : Text) (f : File) → lookup name known ≡ some f → P f)
    → All P known
All-lookup P [] v h = tt
All-lookup P (f ∷ fs) v h = (
  h f.name f (rw (text_eq_refl f.name) refl),
  All-lookup P fs v.1 (λ name g e. h name g (elim (Bool-cases (text_eq f.name name)) [
    | inl same ↦ absurd (hidden name g same e)
    | inr other ↦ rw other e
  ])),
)
  where
    hidden : (name : Text) (g : File) → text_eq f.name name ≡ true → lookup name fs ≡ some g → ⊥
    hidden name g same e =
        let gone : lookup name fs ≡ none =
          rw (← text_eq→eq f.name name same) (lookup-none f.name fs v.0) in
        ground (arith, gone)

All-remove_name {κ} :
    (Q : File → Type κ) (gone : Text) (known : List File)
    → All (λ (h : File). text_eq h.name gone ≡ false → Q h) known
    → All Q (remove_name gone known)
All-remove_name Q gone [] h = tt
All-remove_name Q gone (f ∷ fs) h = elim (Bool-cases (text_eq f.name gone)) [
  | inl same ↦ rw same (All-remove_name Q gone fs h.1)
  | inr other ↦ rw other (h.0 other, All-remove_name Q gone fs h.1)
]

lookup-remove_name-some :
    (name gone : Text) (known : List File) (f : File)
    → lookup name (remove_name gone known) ≡ some f
    → lookup name known ≡ some f
lookup-remove_name-some name gone known f h = elim (Bool-cases (text_eq gone name)) [
  | inl same ↦
      let nothing : lookup name (remove_name gone known) ≡ none =
        rw (← text_eq→eq gone name same) (lookup-none gone _ (remove_name-gone gone known)) in
      absurd (ground (arith, nothing))
  | inr other ↦ rw (← lookup-remove_name name gone known other) h
]

-- An ID that no known file has is not among the missing.
pub missing_none :
    (id : ℕ) (fs : List WalkEntry) (known : List File)
    → All (λ (g : File). (id == g.id) ≡ false) known
    → elem id (compare_files fs known).1 ≡ false
unfolding compare_files
missing_none id [] known h = none_of known h
  where
    none_of :
        (gs : List File)
        → All (λ (g : File). (id == g.id) ≡ false) gs
        → elem id (map (λ (f : File). f.id) gs) ≡ false
    none_of [] k = refl
    none_of (g ∷ gs) k = ground (arith, none_of gs k.1)
missing_none id (f ∷ fs) known h =
    let known' = remove_name f.name known in
    rw
      (
        add_changes-missing (lookup f.name known) f (compare_files fs known'),
        elem-before id f.info (lookup f.name known) (compare_files fs known').1
            (λ o. lookup-All (λ g. (id == g.id) ≡ false) f.name known o h),
      )
      (missing_none id fs known' (All-keep known h))
  where
    All-keep :
        (gs : List File)
        → All (λ (g : File). (id == g.id) ≡ false) gs
        → All (λ (g : File). (id == g.id) ≡ false) (remove_name f.name gs)
    All-keep [] k = tt
    All-keep (g ∷ gs) k = ground (arith, All-keep gs k.1)

elem-ids :
    (name : Text) (known : List File) (g : File)
    → lookup name known ≡ some g
    → elem g.id (map (λ (f : File). f.id) known) ≡ true
elem-ids name [] g h = absurd (ground arith)
elem-ids name (f ∷ fs) g h = elim (Bool-cases (text_eq f.name name)) [
  | inl same ↦ let at : f ≡ g = grind arith in rw at (ground arith)
  | inr other ↦ grind (arith, elem-ids name fs g)
]

-- A known file is missing when its name was not walked or gives no information.
abbrev pub stat_fails : Option FileInfo → Bool
stat_fails none = true
stat_fails (some info) = false

abbrev pub missing_for : Option WalkEntry → Bool
missing_for none = true
missing_for (some f) = stat_fails f.info

elem-before_self :
    (i : Option FileInfo) (g : File) (rest : List ℕ)
    → elem g.id rest ≡ false
    → elem g.id (before (missing_of i (some g)) rest) ≡ stat_fails i
elem-before_self none g rest h = ground arith
elem-before_self (some info) g rest h = h

ids_apart :
    (n m : Text) (known : List File) (f g : File)
    → HaveIds known
    → lookup n known ≡ some f
    → lookup m known ≡ some g
    → text_eq n m ≡ false
    → (f.id == g.id) ≡ false
ids_apart n m known f g ids a b ne = elim (Bool-cases (f.id == g.id)) [
  | inl same ↦ absurd (ground (arith, ids n m f g a b same))
  | inr other ↦ other
]

pub elem-missing :
    (name : Text) (fs : List WalkEntry) (known : List File) (g : File)
    → AreNamed known
    → HaveIds known
    → lookup name known ≡ some g
    → elem g.id (compare_files fs known).1 ≡ missing_for (find_entry name fs)
unfolding compare_files find_entry
elem-missing name [] known g v ids h = elem-ids name known g h
elem-missing name (f ∷ fs) known g v ids h =
    let known' = remove_name f.name known in
    rw (add_changes-missing (lookup f.name known) f (compare_files fs known'))
      (elim (Bool-cases (text_eq f.name name)) [
        | inl same ↦
            let at : f.name ≡ name = text_eq→eq f.name name same in
            let apart : All (λ (o : File). (g.id == o.id) ≡ false) (remove_name name known) =
              All-remove_name (λ (o : File). (g.id == o.id) ≡ false) name known
                (All-lookup (λ (o : File). text_eq o.name name ≡ false → (g.id == o.id) ≡ false)
                  known v
                  (λ m o e ne. ids_apart name m known g o ids h e (
                    rw (text_eq_sym name m, text_eq_trans o.name m name (lookup-name m known o e))
                      ne))) in
            rw (same, at, h)
              (elem-before_self f.info g _ (missing_none g.id fs (remove_name name known) apart))
        | inr other ↦
            rw
              (
                other,
                elem-before g.id f.info (lookup f.name known) (compare_files fs known').1 (λ o e.
                    ids_apart name f.name known g o ids h e (rw (text_eq_sym name f.name) other)),
              )
              (elem-missing name fs known' g (remove_name-AreNamed f.name known v)
                (λ n m a b ea eb.
                  ids n m a b (lookup-remove_name-some n f.name known a ea)
                    (lookup-remove_name-some m f.name known b eb))
                (rw (lookup-remove_name name f.name known other) h))
      ])
