-- ===== src/Artist/Partition.antt =====
-- The sections of ui/src/routes/artists/[id].tsx divide an artist's releases among them.
use byom.Prelude.{ℕ, ◌+◌, ◌≡◌, ◌≢◌, refl, Text, false, ◌&&◌, List, [], ◌∷◌, if◌then◌else◌, arith}
use byom.Catalog.{StoredAlbum, LibraryAlbumType, lists, is_credited}
use byom.Artist.{Section, sections, albums_section, other_section, section_request}

-- In how many of the sections the artist's page lists the album.
unfoldable pub listed_in : Text → Text → StoredAlbum → List Section → ℕ
listed_in artist token al [] = 0
listed_in artist token al (s ∷ ss) =
    (if lists (section_request artist s token) al then 1 else 0) + listed_in artist token al ss

-- A release that is credited to the artist, and is the primary version of its group, stands in
-- exactly one section, whatever its type and whether it is a bootleg; no other release does.
pub listed_in-sections :
    (artist token : Text) (al : StoredAlbum)
    → artist ≢ []
    → listed_in artist token al sections
      ≡ (if is_credited artist al && al.primary_version then 1 else 0)
unfolding listed_in sections section_request lists
listed_in-sections [] token al h = absurd (h refl)
listed_in-sections (c ∷ artist) token al h = ground arith

-- A release with no type that is no bootleg stands under Albums, and not under Other.
untagged-albums_section :
    (artist token : Text) (al : StoredAlbum)
    → artist ≢ []
    → al.album_type ≡ LibraryAlbumType.unknown
    → al.bootleg ≡ false
    → (lists (section_request artist albums_section token) al
        ≡ (is_credited artist al && al.primary_version))
      × (lists (section_request artist other_section token) al ≡ false)
unfolding section_request lists
untagged-albums_section [] token al h untagged official = absurd (h refl)
untagged-albums_section (c ∷ artist) token al h untagged official = ground arith
