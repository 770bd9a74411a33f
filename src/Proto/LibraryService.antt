-- ===== src/Proto/LibraryService.antt =====
-- Requests and responses of the library service: proto/gen/ts/library/v1/library_pb.ts. A number is
-- a ℕ; a field that is left out of a request has its proto3 default.
use byom.Prelude.{ℕ, Text, List, Option}
use byom.Proto.Library.{Artist, Album, Track, ListAlbumsRequest}

pub record ListArtistsRequest : Type 0 where
  pub page_size : ℕ
  pub page_token : Text

pub record ListArtistsResponse : Type 0 where
  pub items : List Artist
  pub next_page_token : Text

pub record GetArtistRequest : Type 0 where
  pub id : Text

pub record GetArtistResponse : Type 0 where
  pub artist : Option Artist

pub record ListAlbumsResponse : Type 0 where
  pub items : List Album
  pub next_page_token : Text

pub record ListAlbumVersionsRequest : Type 0 where
  pub album_id : Text

pub record ListAlbumVersionsResponse : Type 0 where
  pub items : List Album

pub record GetAlbumRequest : Type 0 where
  pub id : Text

pub record GetAlbumResponse : Type 0 where
  pub album : Option Album

pub record ListTracksRequest : Type 0 where
  pub page_size : ℕ
  pub page_token : Text
  pub album_id : Text

pub record ListTracksResponse : Type 0 where
  pub items : List Track
  pub next_page_token : Text

pub record GetTrackRequest : Type 0 where
  pub id : Text

pub record GetTrackResponse : Type 0 where
  pub track : Option Track

-- What the server answers to each request, when it answers.
pub record LibraryService : Type 0 where
  pub list_artists : ListArtistsRequest → ListArtistsResponse
  pub get_artist : GetArtistRequest → GetArtistResponse
  pub list_albums : ListAlbumsRequest → ListAlbumsResponse
  pub get_album : GetAlbumRequest → GetAlbumResponse
  pub list_album_versions : ListAlbumVersionsRequest → ListAlbumVersionsResponse
  pub list_tracks : ListTracksRequest → ListTracksResponse
  pub get_track : GetTrackRequest → GetTrackResponse
