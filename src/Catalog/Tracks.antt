-- ===== src/Catalog/Tracks.antt =====
-- Tracks on the server: `Track`, `Tracks` and its cursor in sqlite/libraryread.go, `GetTrack` and
-- `ListTracks` in rpc/library.go, `trackProto` in rpc/convert.go. Disc and track numbers are not negative and
-- below 2^31, where int32 keeps them.
use byom.Prelude.{
  ℕ, ◌/◌, ◌%◌, refl, Text, text_eq, text_eq_refl, false, ◌||◌, List, [], none, some, find, err, map,
  Result, ok, ◌>>=◌, is_empty,
}
use byom.Proto.Library.{Track, TrackCredit, AudioProperties}
use byom.Proto.LibraryService.{
  ListTracksRequest, ListTracksResponse, GetTrackRequest, GetTrackResponse,
}
use byom.Pagination.{Page}
use byom.Paging.{Codec, Listing, StoreError, not_found, list_page}
use byom.Paging.Orders.{nat_order, pair_order, text_order}
use byom.Paging.Pages.{IsKeyset}
use byom.Catalog.{Code, or_rpc_error, parse_id}

-- A row of `tracks`, with its credits in `track_credits`.
pub record StoredTrack : Type 0 where
  pub id : Text
  pub album_id : Text
  pub disc_number : ℕ
  pub disc_subtitle : Text
  pub track_number : ℕ
  pub title : Text
  pub release_date : Text
  pub original_release_date : Text
  pub audio : AudioProperties
  pub duration_ns : ℕ
  pub credits : List TrackCredit

pub record TrackCursor : Type 0 where
  pub album_id : Text
  pub disc_number : ℕ
  pub track_number : ℕ
  pub id : Text

abbrev pub track_key : StoredTrack → ℕ × (ℕ × Text)
track_key t = (t.disc_number, (t.track_number, t.id))

abbrev pub new_track_cursor : Text → StoredTrack → TrackCursor
new_track_cursor album_id t = record {
  album_id = album_id;
  disc_number = t.disc_number;
  track_number = t.track_number;
  id = t.id;
}

unfoldable pub track_proto : StoredTrack → Track
track_proto t = record {
  id = t.id;
  album_id = t.album_id;
  title = t.title;
  disc_number = t.disc_number;
  disc_subtitle = t.disc_subtitle;
  track_number = t.track_number;
  release_date = t.release_date;
  original_release_date = t.original_release_date;
  recording_location = [];
  recording_date = [];
  live = false;
  duration =
      some (record { seconds = t.duration_ns / 1000000000; nanos = t.duration_ns % 1000000000 });
  audio = some t.audio;
  credits = t.credits;
}

module _ (codec : Codec TrackCursor) where
  -- The nil UUID restricts the listing to no album.
  abbrev pub tracks_of : Text → Listing StoredTrack (ℕ × (ℕ × Text)) TrackCursor
  tracks_of album_id = record {
    order = pair_order nat_order (pair_order nat_order text_order);
    key = track_key;
    selects = λ t. is_empty album_id || text_eq t.album_id album_id;
    codec = codec;
    mint = new_track_cursor album_id;
    resumes_at = λ cur. (cur.disc_number, (cur.track_number, cur.id));
    of_query = λ cur. text_eq cur.album_id album_id;
  }

  -- `LibraryStore.Tracks`, on the rows of the table.
  unfoldable pub tracks : List StoredTrack → Text → Text → ℕ → Result StoreError (Page StoredTrack)
  tracks rows album_id token limit = list_page (tracks_of album_id) rows token limit

  -- `ListTracks`.
  unfoldable pub list_tracks : List StoredTrack → ListTracksRequest → Result Code ListTracksResponse
  unfolding tracks
  list_tracks rows req = do
    page ← or_rpc_error (tracks rows req.album_id req.page_token req.page_size)
    ok (record { items = map track_proto page.items; next_page_token = page.next_page_token })

  pub tracks_of-IsKeyset : (album_id : Text) → IsKeyset (tracks_of album_id)
  tracks_of-IsKeyset album_id = record {
    resumes = λ t. refl;
    accepted = λ t. text_eq_refl album_id;
  }

-- `LibraryStore.Track` and `GetTrack`.
unfoldable pub track : List StoredTrack → Text → Result StoreError StoredTrack
track rows id = elim (find (λ (t : StoredTrack). text_eq t.id id) rows) [
  | none ↦ err not_found
  | some t ↦ ok t
]

unfoldable pub get_track : List StoredTrack → GetTrackRequest → Result Code GetTrackResponse
unfolding track
get_track rows req = do
  id ← parse_id req.id
  t ← or_rpc_error (track rows id)
  ok (record { track = some (track_proto t) })
