-- ===== src/Catalog/Codecs.antt =====
-- Token codecs of the cursors of the library's listings, for their runs.
use byom.Prelude.{ℕ, ◌≡◌, refl, ap₂, Bool, List, [], ◌∷◌, map, arith, if◌then◌else◌, ◌==◌}
use byom.Paging.{Codec}
use byom.Paging.Codecs.{Serial, nat_serial, text_serial, via, pair_serial, codec_of}
use byom.Catalog.{LibraryAlbumType, LibraryBootlegs, LibraryOrder, AlbumQuery, rank}
use byom.Catalog.Albums.{AlbumCursor, bootlegs_rank, order_rank}
use byom.Catalog.Tracks.{TrackCursor}
use byom.Catalog.Artists.{ArtistCursor}

-- Enumerations by their places.
abbrev type_of_rank : ℕ → LibraryAlbumType
type_of_rank n =
    if n == 1
    then LibraryAlbumType.ep
    else if n == 2
    then LibraryAlbumType.main
    else if n == 3
    then LibraryAlbumType.other
    else if n == 4
    then LibraryAlbumType.single
    else LibraryAlbumType.unknown

pub type_of_rank-rank : (t : LibraryAlbumType) → type_of_rank (rank t) ≡ t
type_of_rank-rank t = ground arith

pub types_of_ranks : (ts : List LibraryAlbumType) → map type_of_rank (map rank ts) ≡ ts
types_of_ranks [] = refl
types_of_ranks (t ∷ ts) = ap₂ ◌∷◌ (type_of_rank-rank t) (types_of_ranks ts)

abbrev bootlegs_of_rank : ℕ → LibraryBootlegs
bootlegs_of_rank n =
    if n == 0
    then LibraryBootlegs.include
    else if n == 1
    then LibraryBootlegs.exclude
    else LibraryBootlegs.only

pub bootlegs_of_rank-bootlegs_rank : (b : LibraryBootlegs) → bootlegs_of_rank (bootlegs_rank b) ≡ b
bootlegs_of_rank-bootlegs_rank b = ground arith

abbrev order_of_rank : ℕ → LibraryOrder
order_of_rank n =
    if n == 0
    then LibraryOrder.title
    else if n == 1
    then LibraryOrder.artist
    else if n == 2
    then LibraryOrder.release_date
    else if n == 3
    then LibraryOrder.original_date
    else LibraryOrder.recently_added

pub order_of_rank-order_rank : (o : LibraryOrder) → order_of_rank (order_rank o) ≡ o
order_of_rank-order_rank o = ground arith

pub bool_of_rank-rank : (b : Bool) → ((if b then 1 else 0) == 1) ≡ b
bool_of_rank-rank b = ground arith

abbrev bool_serial : Serial Bool
bool_serial = via nat_serial (λ b. if b then 1 else 0) (λ n. n == 1) bool_of_rank-rank

abbrev types_serial : Serial (List LibraryAlbumType)
types_serial = via text_serial (map rank) (map type_of_rank) types_of_ranks

abbrev bootlegs_serial : Serial LibraryBootlegs
bootlegs_serial = via nat_serial bootlegs_rank bootlegs_of_rank bootlegs_of_rank-bootlegs_rank

abbrev order_serial : Serial LibraryOrder
order_serial = via nat_serial order_rank order_of_rank order_of_rank-order_rank

abbrev query_serial : Serial AlbumQuery
query_serial =
    via
      (pair_serial text_serial (
        pair_serial bool_serial (
          pair_serial types_serial
            (pair_serial bootlegs_serial (pair_serial order_serial bool_serial)))))
      (λ q.
        (q.artist_id, (q.include_all_versions, (q.types, (q.bootlegs, (q.order, q.descending))))))
      (λ p. record {
        artist_id = p.0;
        include_all_versions = p.1.0;
        types = p.1.1.0;
        bootlegs = p.1.1.1.0;
        order = p.1.1.1.1.0;
        descending = p.1.1.1.1.1;
      })
      (λ q. refl)

abbrev pub album_codec : Codec AlbumCursor
album_codec = codec_of (
    via
      (pair_serial query_serial (
        pair_serial text_serial (
          pair_serial text_serial (pair_serial text_serial (pair_serial text_serial text_serial)))))
      (λ c. (c.query, (c.title, (c.artist_sort, (c.release_date, (c.original_date, c.id))))))
      (λ p. record {
        query = p.0;
        title = p.1.0;
        artist_sort = p.1.1.0;
        release_date = p.1.1.1.0;
        original_date = p.1.1.1.1.0;
        id = p.1.1.1.1.1;
      })
      (λ c. refl))

abbrev pub artist_codec : Codec ArtistCursor
artist_codec = codec_of (
    via (pair_serial text_serial text_serial) (λ c. (c.sort_name, c.id))
      (λ p. record { sort_name = p.0; id = p.1 }) (λ c. refl))

abbrev pub track_codec : Codec TrackCursor
track_codec = codec_of (
    via (pair_serial text_serial (pair_serial nat_serial (pair_serial nat_serial text_serial)))
      (λ c. (c.album_id, (c.disc_number, (c.track_number, c.id))))
      (λ p. record { album_id = p.0; disc_number = p.1.0; track_number = p.1.1.0; id = p.1.1.1 })
      (λ c. refl))
