-- ===== src/AlbumPage/Tests.antt =====
-- The page of an album of two discs and one version, from a service that has that album alone.
use byom.Prelude.{
  ℕ, ◌≡◌, refl, codes, text_eq, decimal, pad_start, true, false, [], ◌∷◌, none, some, length, List,
  leb, if◌then◌else◌,
}
use byom.Proto.Library.{Album, AlbumType, Track}
use byom.Proto.LibraryService.{LibraryService}
use byom.Rpc.{get_album, list_tracks, list_album_versions}
use byom.Format.{format_duration, sum_durations, rounded_seconds}
use byom.TrackList.{add_track, push_track, group_from, insert_disc, sort_discs, discs}
use byom.TrackList.Counting.{total_tracks}
use byom.Release.{track_summary, versions}
use byom.AlbumPage.{Detail, preload, shown_detail, album_detail}
use byom.AlbumPage.Limits.{tracks_on, album_detail-total_tracks}
use byom.Paging.{page_size, cut_page, fetch, resume, list_page}
use byom.Paging.Sorting.{insert_row, order_by}
use byom.Catalog.Tracks
use byom.Catalog.Tracks.{StoredTrack, track_proto}
use byom.Catalog.Codecs.{track_codec}

program : Unit {0}
unfolding text_eq decimal pad_start get_album list_tracks list_album_versions format_duration
    sum_durations rounded_seconds add_track push_track group_from insert_disc sort_discs discs
    track_summary versions preload shown_detail album_detail
program = tt

serving : Unit {0}
unfolding page_size cut_page fetch resume list_page insert_row order_by Tracks.tracks
    Tracks.list_tracks track_proto
serving = tt

abbrev album : Album
album = record {
  id = codes "a1";
  title = codes "Blue";
  album_type = AlbumType.main;
  release_date = [];
  original_release_date = [];
  release_country = [];
  media = [];
  bootleg = false;
  compilation = false;
  live = false;
  group_key = [];
  version = [];
  primary_version = true;
  artists = [];
  cover_hash = [];
}

abbrev track_on : ℕ → Track
track_on disc = record {
  id = [];
  album_id = codes "a1";
  title = [];
  disc_number = disc;
  disc_subtitle = [];
  track_number = 1;
  release_date = [];
  original_release_date = [];
  recording_location = [];
  recording_date = [];
  live = false;
  duration = some (record { seconds = 95; nanos = 0 });
  audio = none;
  credits = [];
}

abbrev service : LibraryService
service = record {
  list_artists = λ q. record { items = []; next_page_token = [] };
  get_artist = λ q. record { artist = none };
  list_albums = λ q. record { items = album ∷ []; next_page_token = [] };
  get_album = λ q. record { album = some album };
  list_album_versions = λ q. record { items = album ∷ [] };
  list_tracks =
      λ q. record { items = track_on 2 ∷ track_on 0 ∷ track_on 1 ∷ []; next_page_token = [] };
  get_track = λ q. record { track = none };
}

abbrev detail : Detail
detail = shown_detail (codes "a1") (preload service (codes "a1")) album

detail_tests :
    (detail.summary ≡ codes "3 TRACKS · 4:45")
    × (detail.version_rows ≡ none)
    × (length detail.discs ≡ 2)
    × (detail.title ≡ codes "Blue - byom")
unfolding program
detail_tests = (refl, refl, refl, refl)

-- The album of the service as the server stores its tracks.
abbrev stored_on : ℕ → StoredTrack
stored_on disc = record {
  id = decimal disc;
  album_id = codes "a1";
  disc_number = disc;
  disc_subtitle = [];
  track_number = 1;
  title = [];
  release_date = [];
  original_release_date = [];
  audio = record { codec = []; sample_rate = 0; bit_depth = 0; bitrate = 0; channels = 0 };
  duration_ns = 95000000000;
  credits = [];
}

abbrev table : List StoredTrack
table = stored_on 2 ∷ stored_on 1 ∷ []

abbrev server : LibraryService
server = record service {
  list_tracks = λ q. record {
    items = track_proto (stored_on 1) ∷ track_proto (stored_on 2) ∷ [];
    next_page_token = [];
  };
}

album_detail-total_tracks_example :
    let d = shown_detail (codes "a1") (preload server (codes "a1")) album in
    let stored = length (tracks_on (codes "a1") table) in
    total_tracks d.discs ≡ (if leb stored 200 then stored else 200)
unfolding program serving
album_detail-total_tracks_example =
    album_detail-total_tracks track_codec table server (codes "a1")
      (shown_detail (codes "a1") (preload server (codes "a1")) album) (λ h. cc) refl refl
