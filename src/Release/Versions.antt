-- ===== src/Release/Versions.antt =====
-- Which versions an album page lists, and links to: ui/src/features/library/VersionList.tsx.
use byom.Prelude.{
  suc, ◌≤◌, ◌≡◌, refl, ap, ◌↔◌, Text, text_eq, codes, Bool-cases, inl, inr, not, keep, length, List,
  [], ◌∷◌, ◌++◌, Option, none, some, arith,
}
use byom.Proto.Library.{Album}
use byom.Release.{Row, versions, version_row, version_rows}
use mathlib.Core.List.{map}

-- The links among the rows, in order.
abbrev pub links : List Row → List Text
links [] = []
links (r ∷ rows) = elim r.link [ some l ↦ l ∷ links rows | none ↦ links rows ]

-- The versions are shown exactly when they have arrived and are at least two.
pub versions-some :
    (loaded : Option (List Album)) (albums : List Album)
    → (versions loaded ≡ some albums) ↔ ((loaded ≡ some albums) × (2 ≤ length albums))
unfolding versions
versions-some none albums = ground arith
versions-some (some loaded) albums = ground arith

-- There is a row for each version, and the links go, in order, to the versions whose ID is not the
-- current one.
version_rows-links :
    (current_id : Text) (albums : List Album)
    → (length (version_rows current_id albums) ≡ length albums)
      × (links (version_rows current_id albums)
          ≡ map
              (λ (a : Album). codes "/albums/" ++ a.id)
              (keep (λ (a : Album). not (text_eq a.id current_id)) albums))
unfolding version_rows version_row
version_rows-links current_id [] = (refl, refl)
version_rows-links current_id (a ∷ albums) =
    let (rows, rest) = version_rows-links current_id albums in
    (
      ap suc rows,
      elim (Bool-cases (text_eq a.id current_id)) [
        | inl same ↦ rw same rest
        | inr other ↦ rw other (ap (◌∷◌ (codes "/albums/" ++ a.id)) rest)
      ],
    )
