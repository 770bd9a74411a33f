-- ===== src/Catalog.antt =====
-- What the server selects for ListAlbums: rpc/library.go, rpc/convert.go, library/album.go, and the
-- WHERE clause that sqlite/libraryread.go builds. IDs are texts in their canonical form, and the
-- nil UUID is the empty one. The children model the listings and the requests for them.
pub mod Artists
pub mod Albums
pub mod Tracks
pub mod Serving
pub mod Shown
pub mod Refusals
pub mod Versions
pub mod ArtistPages
pub mod Filters
pub mod Codecs
mod Tests
mod ArtistTests
use byom.Prelude.{
  ℕ, Text, text_eq, Bool, true, false, not, ◌&&◌, ◌||◌, List, [], ◌∷◌, ltb, ◌==◌, is_empty, map,
  Result, ok, err, ◌>>=◌, ◌>>◌, if◌then◌else◌,
}
use byom.Proto.Library.{Album, AlbumArtist, AlbumType, AlbumOrder, BootlegFilter, ListAlbumsRequest}
use byom.Paging.{StoreError, invalid_token, not_found}

-- The Connect codes of refusals, and `rpcError` on the store's errors.
pub data Code : Type 0 where
  invalid_argument missing : Code

abbrev pub rpc_error : StoreError → Code
rpc_error invalid_token = invalid_argument
rpc_error not_found = missing

-- A store's answer as a handler passes it on.
abbrev pub or_rpc_error {ℓ} : {A : Type ℓ} → Result StoreError A → Result Code A
or_rpc_error (ok a) = ok a
or_rpc_error (err e) = err (rpc_error e)

-- `parseID`, on an ID in its canonical form or the empty text, which is none.
abbrev pub parse_id : Text → Result Code Text
parse_id id = if is_empty id then err invalid_argument else ok id

pub data LibraryAlbumType : Type 0 where
  unknown main single ep other : LibraryAlbumType

pub data LibraryBootlegs : Type 0 where
  include exclude only : LibraryBootlegs

pub data LibraryOrder : Type 0 where
  title artist release_date original_date recently_added : LibraryOrder

-- The place of a type's string among the others: "" "ep" "main" "other" "single".
abbrev pub rank : LibraryAlbumType → ℕ
rank LibraryAlbumType.unknown = 0
rank LibraryAlbumType.ep = 1
rank LibraryAlbumType.main = 2
rank LibraryAlbumType.other = 3
rank LibraryAlbumType.single = 4

-- A row of `albums`, with its credits in `album_artists` in their order, and the hash of its cover.
pub record StoredAlbum : Type 0 where
  pub id : Text
  pub title : Text
  pub album_type : LibraryAlbumType
  pub release_date : Text
  pub original_release_date : Text
  pub release_country : Text
  pub bootleg : Bool
  pub compilation : Bool
  pub live : Bool
  pub group_key : Text
  pub version : Text
  pub primary_version : Bool
  pub artist_sort : Text
  pub artists : List AlbumArtist
  pub cover_hash : Text

pub record AlbumQuery : Type 0 where
  pub artist_id : Text
  pub include_all_versions : Bool
  pub types : List LibraryAlbumType
  pub bootlegs : LibraryBootlegs
  pub order : LibraryOrder
  pub descending : Bool

-- `albumTypesByProto`, `bootlegFilter` and `albumOrder`: a number that the enum does not name is
-- refused.
unfoldable pub type_by_proto : AlbumType → Result Code LibraryAlbumType
type_by_proto AlbumType.unspecified = ok LibraryAlbumType.unknown
type_by_proto AlbumType.main = ok LibraryAlbumType.main
type_by_proto AlbumType.single = ok LibraryAlbumType.single
type_by_proto AlbumType.ep = ok LibraryAlbumType.ep
type_by_proto AlbumType.other = ok LibraryAlbumType.other
type_by_proto (AlbumType.unrecognized n) = err invalid_argument

unfoldable pub bootleg_filter : BootlegFilter → Result Code LibraryBootlegs
bootleg_filter BootlegFilter.unspecified = ok LibraryBootlegs.include
bootleg_filter BootlegFilter.exclude = ok LibraryBootlegs.exclude
bootleg_filter BootlegFilter.only = ok LibraryBootlegs.only
bootleg_filter (BootlegFilter.unrecognized n) = err invalid_argument

unfoldable pub album_order : AlbumOrder → Result Code LibraryOrder
album_order AlbumOrder.unspecified = ok LibraryOrder.title
album_order AlbumOrder.title = ok LibraryOrder.title
album_order AlbumOrder.artist = ok LibraryOrder.artist
album_order AlbumOrder.release_date = ok LibraryOrder.release_date
album_order AlbumOrder.original_date = ok LibraryOrder.original_date
album_order AlbumOrder.recently_added = ok LibraryOrder.recently_added
album_order (AlbumOrder.unrecognized n) = err invalid_argument

-- `slices.Sort` by the strings.
pub insert_type : LibraryAlbumType → List LibraryAlbumType → List LibraryAlbumType
insert_type t [] = t ∷ []
insert_type t (u ∷ ts) = if ltb (rank u) (rank t) then u ∷ insert_type t ts else t ∷ u ∷ ts

pub sort_types : List LibraryAlbumType → List LibraryAlbumType
sort_types [] = []
sort_types (t ∷ ts) = insert_type t (sort_types ts)

-- `slices.Compact`: one of each run of equal types.
pub compact_types : List LibraryAlbumType → List LibraryAlbumType
compact_types [] = []
compact_types (t ∷ []) = t ∷ []
compact_types (t ∷ u ∷ ts) =
    let rest = compact_types (u ∷ ts) in if rank t == rank u then rest else t ∷ rest

pub convert_types : List AlbumType → Result Code (List LibraryAlbumType)
convert_types [] = ok []
convert_types (t ∷ ts) = do u ← type_by_proto t; us ← convert_types ts; ok (u ∷ us)

-- `albumTypeFilter`.
unfoldable pub album_type_filter : List AlbumType → Result Code (List LibraryAlbumType)
unfolding type_by_proto insert_type sort_types compact_types convert_types
album_type_filter ts = do us ← convert_types ts; ok (compact_types (sort_types us))

-- The query of a request.
unfoldable pub album_query : ListAlbumsRequest → Result Code AlbumQuery
unfolding album_type_filter bootleg_filter album_order
album_query req = do
  types ← album_type_filter req.album_types
  bootlegs ← bootleg_filter req.bootlegs
  order ← album_order req.order
  ok (record {
    artist_id = req.artist_id;
    include_all_versions = req.include_all_versions;
    types = types;
    bootlegs = bootlegs;
    order = order;
    descending = req.descending;
  })

contains_text : Text → List Text → Bool
contains_text t [] = false
contains_text t (u ∷ us) = text_eq u t || contains_text t us

pub contains_type : LibraryAlbumType → List LibraryAlbumType → Bool
contains_type t [] = false
contains_type t (u ∷ us) = rank u == rank t || contains_type t us

-- The album is credited to the artist.
unfoldable pub is_credited : Text → StoredAlbum → Bool
unfolding contains_text
is_credited artist_id al =
    contains_text artist_id (map (λ (c : AlbumArtist). c.artist_id) al.artists)

abbrev passes_bootlegs : LibraryBootlegs → Bool → Bool
passes_bootlegs LibraryBootlegs.include b = true
passes_bootlegs LibraryBootlegs.exclude b = not b
passes_bootlegs LibraryBootlegs.only b = b

-- The conditions of the WHERE clause, each only where the code adds it.
unfoldable pub selects : AlbumQuery → StoredAlbum → Bool
unfolding contains_type
selects q al =
    (is_empty q.artist_id || is_credited q.artist_id al)
    && (q.include_all_versions || al.primary_version)
    && (is_empty q.types || contains_type al.album_type q.types)
    && passes_bootlegs q.bootlegs al.bootleg

-- Whether the listing of a request holds the album; a refused request lists nothing.
unfoldable pub lists : ListAlbumsRequest → StoredAlbum → Bool
unfolding album_query selects
lists req al = elim (album_query req) [ err e ↦ false | ok q ↦ selects q al ]

-- `albumTypes` and `albumProto`.
abbrev pub type_proto : LibraryAlbumType → AlbumType
type_proto LibraryAlbumType.unknown = AlbumType.unspecified
type_proto LibraryAlbumType.main = AlbumType.main
type_proto LibraryAlbumType.single = AlbumType.single
type_proto LibraryAlbumType.ep = AlbumType.ep
type_proto LibraryAlbumType.other = AlbumType.other

unfoldable pub album_proto : StoredAlbum → Album
album_proto al = record {
  id = al.id;
  title = al.title;
  album_type = type_proto al.album_type;
  release_date = al.release_date;
  original_release_date = al.original_release_date;
  release_country = al.release_country;
  media = [];
  bootleg = al.bootleg;
  compilation = al.compilation;
  live = al.live;
  group_key = al.group_key;
  version = al.version;
  primary_version = al.primary_version;
  artists = al.artists;
  cover_hash = al.cover_hash;
}
