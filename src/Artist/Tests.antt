-- ===== src/Artist/Tests.antt =====
-- The theorems on the artist page at concrete releases and keys.
use byom.Prelude.{text_eq, ◌≡◌, refl, Text, codes, true, false, [], ◌∷◌, ◌&&◌, if◌then◌else◌}
use byom.Catalog.{StoredAlbum, LibraryAlbumType, lists, is_credited}
use byom.Artist.{sections, section_request, singles_section}
use byom.Artist.Partition.{listed_in, listed_in-sections}

abbrev artist : Text
artist = codes "ar1"

abbrev bootleg_ep : StoredAlbum
bootleg_ep = record {
  id = codes "a1";
  title = codes "Live";
  album_type = LibraryAlbumType.ep;
  release_date = [];
  original_release_date = [];
  release_country = [];
  bootleg = true;
  compilation = false;
  live = true;
  group_key = [];
  version = [];
  primary_version = true;
  artist_sort = [];
  artists = record { artist_id = artist; credited_name = codes "A" } ∷ [];
  cover_hash = [];
}

abbrev untagged : StoredAlbum
untagged = record bootleg_ep { album_type = LibraryAlbumType.unknown; bootleg = false }

listing_tests :
    (listed_in artist [] bootleg_ep sections ≡ 1)
    × (listed_in artist [] untagged sections ≡ 1)
    × (listed_in (codes "ar2") [] untagged sections ≡ 0)
    × (lists (section_request artist singles_section []) bootleg_ep ≡ false)
unfolding listed_in sections section_request lists is_credited text_eq
listing_tests = (refl, refl, refl, refl)

listed_in-sections_example :
    listed_in artist [] bootleg_ep sections
    ≡ (if is_credited artist bootleg_ep && bootleg_ep.primary_version then 1 else 0)
listed_in-sections_example = listed_in-sections artist [] bootleg_ep (λ h. cc)
