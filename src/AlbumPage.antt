-- ===== src/AlbumPage.antt =====
-- An album's page: ui/src/routes/albums/[id].tsx, from the answers to the reads that it makes to
-- what it shows when they have all arrived.
pub mod Counts
pub mod Limits
mod Tests
use byom.Prelude.{Text, codes, List, Option, none, some, ◌++◌}
use byom.Proto.Library.{Album}
use byom.Proto.LibraryService.{
  LibraryService, GetAlbumResponse, ListTracksResponse, ListAlbumVersionsResponse,
}
use byom.Rpc.{get_album, list_tracks, list_album_versions}
use byom.Release.{Row, versions, version_rows, track_summary}
use byom.TrackList.{Disc, discs}

-- The answers to the reads that `preload` starts, and that the page's memos await.
pub record Reads : Type 0 where
  pub album : GetAlbumResponse
  pub tracks : ListTracksResponse
  pub versions : ListAlbumVersionsResponse

unfoldable pub preload : LibraryService → Text → Reads
unfolding get_album list_tracks list_album_versions
preload service id = record {
  album = get_album service id;
  tracks = list_tracks service id;
  versions = list_album_versions service id;
}

-- What the page shows of an album: its title, its header's album, the rows of its versions if they
-- are listed, the line above the tracks and the discs.
pub record Detail : Type 0 where
  pub title : Text
  pub album : Album
  pub version_rows : Option (List Row)
  pub summary : Text
  pub discs : List Disc

unfoldable pub shown_detail : Text → Reads → Album → Detail
shown_detail id r a = record {
  title = a.title ++ codes " - byom";
  album = a;
  version_rows = elim (versions (some r.versions.items)) [
    | some albums ↦ some (version_rows id albums)
    | none ↦ none
  ];
  summary = track_summary r.tracks.items;
  discs = discs r.tracks.items;
}

-- Nothing is shown where the answer has no album.
unfoldable pub album_detail : Text → Reads → Option Detail
unfolding shown_detail
album_detail id r = elim r.album.album [ none ↦ none | some a ↦ some (shown_detail id r a) ]
