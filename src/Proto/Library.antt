-- ===== src/Proto/Library.antt =====
-- Messages of the library service: proto/gen/ts/library/v1. A bigint count is a ℕ, a string a
-- Text, an optional message an Option. `Duration` is the well-known protobuf type.
use byom.Prelude.{ℕ, Text, Bool, List, Option}

pub record Duration : Type 0 where
  pub seconds : ℕ
  pub nanos : ℕ

pub record Artist : Type 0 where
  pub id : Text
  pub name : Text

-- Proto3 enums are open: `unrecognized` is a number that the enum does not name.
pub data AlbumType : Type 0 where
  unspecified main single ep other : AlbumType
  unrecognized : ℕ → AlbumType

pub record AlbumArtist : Type 0 where
  pub artist_id : Text
  pub credited_name : Text

pub record Album : Type 0 where
  pub id : Text
  pub title : Text
  pub album_type : AlbumType
  pub release_date : Text
  pub original_release_date : Text
  pub release_country : Text
  pub media : Text
  pub bootleg : Bool
  pub compilation : Bool
  pub live : Bool
  pub group_key : Text
  pub version : Text
  pub primary_version : Bool
  pub artists : List AlbumArtist
  pub cover_hash : Text

pub record AudioProperties : Type 0 where
  pub codec : Text
  pub sample_rate : ℕ
  pub bit_depth : ℕ
  pub bitrate : ℕ
  pub channels : ℕ

pub record TrackCredit : Type 0 where
  pub artist_id : Text
  pub credited_name : Text
  pub role : Text

pub record Track : Type 0 where
  pub id : Text
  pub album_id : Text
  pub title : Text
  pub disc_number : ℕ
  pub disc_subtitle : Text
  pub track_number : ℕ
  pub release_date : Text
  pub original_release_date : Text
  pub recording_location : Text
  pub recording_date : Text
  pub live : Bool
  pub duration : Option Duration
  pub audio : Option AudioProperties
  pub credits : List TrackCredit

pub data AlbumOrder : Type 0 where
  unspecified title artist release_date original_date recently_added : AlbumOrder
  unrecognized : ℕ → AlbumOrder

pub data BootlegFilter : Type 0 where
  unspecified exclude only : BootlegFilter
  unrecognized : ℕ → BootlegFilter

pub record ListAlbumsRequest : Type 0 where
  pub page_size : ℕ
  pub page_token : Text
  pub artist_id : Text
  pub include_all_versions : Bool
  pub album_types : List AlbumType
  pub bootlegs : BootlegFilter
  pub order : AlbumOrder
  pub descending : Bool
