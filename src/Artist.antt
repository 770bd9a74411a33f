-- ===== src/Artist.antt =====
-- The artist page: ui/src/routes/artists/[id].tsx, its sections and what each asks for.
pub mod Partition
pub mod Keys
mod Tests
use byom.Prelude.{Text, codes, false, List, [], ◌∷◌, ◌++◌}
use byom.Proto.Library.{AlbumType, AlbumOrder, BootlegFilter, ListAlbumsRequest}

pub record Section : Type 0 where
  pub heading : Text
  pub album_types : List AlbumType
  pub bootlegs : BootlegFilter

abbrev pub albums_section : Section
albums_section = record {
  heading = codes "Albums";
  album_types = AlbumType.main ∷ AlbumType.unspecified ∷ [];
  bootlegs = BootlegFilter.exclude;
}

abbrev pub singles_section : Section
singles_section = record {
  heading = codes "Singles & EPs";
  album_types = AlbumType.single ∷ AlbumType.ep ∷ [];
  bootlegs = BootlegFilter.exclude;
}

abbrev pub other_section : Section
other_section = record {
  heading = codes "Other";
  album_types = AlbumType.other ∷ [];
  bootlegs = BootlegFilter.exclude;
}

abbrev pub bootlegs_section : Section
bootlegs_section = record {
  heading = codes "Bootlegs";
  album_types = [];
  bootlegs = BootlegFilter.only;
}

unfoldable pub sections : List Section
sections = albums_section ∷ singles_section ∷ other_section ∷ bootlegs_section ∷ []

-- The section's `listKey`.
unfoldable pub section_key : Text → Section → Text
section_key artist s = codes "albums:artist=" ++ (artist ++ (b':' ∷ s.heading))

-- The request that `fetchPage` makes; the fields that it leaves out have their zero values.
unfoldable pub section_request : Text → Section → Text → ListAlbumsRequest
section_request artist s page_token = record {
  page_size = 0;
  page_token = page_token;
  artist_id = artist;
  include_all_versions = false;
  album_types = s.album_types;
  bootlegs = s.bootlegs;
  order = AlbumOrder.original_date;
  descending = false;
}
