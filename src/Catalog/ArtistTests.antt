-- ===== src/Catalog/ArtistTests.antt =====
-- A run of the artists page, on a table of two artists.
use byom.Prelude.{
  ◌≡◌, refl, ◌≢◌, Text, codes, text_eq, text_eq_iff, false, List, [], ◌∷◌, arith, map,
}
use byom.Proto.Library.{Artist}
use byom.Proto.LibraryService.{ListArtistsRequest}
use byom.Pagination.{
  Page, World, new_world, entry_for, start_fetch, load_more, show_entry, key_effect, mount,
  store_page, finish_call, when_current, resolve,
}
use byom.Pagination.Steps.{Reach, start, next, mounts, resolves, loads_more}
use byom.Paging.{page_size, cut_page, fetch, resume, list_page}
use byom.Paging.Orders.{lex_order, text_order}
use byom.Paging.Sorting.{insert_row, order_by, IsAscending}
use byom.Catalog.Artists.{
  StoredArtist, artist_key, new_artist_cursor, artist_proto, artists, list_artists,
}
use byom.Catalog.ArtistPages
use byom.Catalog.ArtistPages.{Reach-shows_artists}
use byom.Catalog.Codecs.{artist_codec}
use mathlib.Core.List.{Perm}

program : Unit {0}
unfolding entry_for start_fetch load_more show_entry key_effect mount store_page finish_call
    when_current resolve text_eq page_size cut_page fetch resume list_page insert_row order_by
    artist_proto artists list_artists ArtistPages.served
program = tt

apart : (s t : Text) → text_eq s t ≡ false → s ≢ t
apart s t h same = absurd (ground (arith, (text_eq_iff s t).1 same))

abbrev grid : Text
grid = codes "artists:"

abbrev joni : StoredArtist
joni = record { id = codes "r1"; name = codes "Joni Mitchell"; sort_name = codes "Mitchell" }

abbrev abba : StoredArtist
abba = record { id = codes "r2"; name = codes "ABBA"; sort_name = codes "ABBA" }

abbrev artist_table : List StoredArtist
artist_table = joni ∷ abba ∷ []

-- The artists, one at a time.
abbrev artists_of_key : Text → ListArtistsRequest
artists_of_key k = record { page_size = 1; page_token = [] }

abbrev artist_listing : Text → Text → Page Artist
artist_listing = ArtistPages.served artist_codec artist_table artists_of_key

abbrev artist_token : Text
artist_token = artist_codec.encode (new_artist_cursor abba)

abbrev v2 : World Artist
v2 = resolve 0 (artist_listing grid []) (mount grid new_world)

abbrev v4 : World Artist
v4 = resolve 1 (artist_listing grid artist_token) (load_more 0 v2)

v2-Reach : Reach artist_listing v2
unfolding program
v2-Reach =
    next (next start (mounts grid))
      (resolves 0 (record { list = 0; key = grid; entry = 0; token = [] }) refl)

v4-Reach : Reach artist_listing v4
unfolding program
v4-Reach =
    next (next v2-Reach (loads_more 0 (omega arith)))
      (resolves 1 (record { list = 0; key = grid; entry = 0; token = artist_token }) refl)

Reach-shows_artists_example :
    (shown : List StoredArtist) × ((v4.lists 0).items ≡ map artist_proto shown)
    × Perm shown artist_table
    × IsAscending (lex_order text_order) artist_key shown
unfolding program
Reach-shows_artists_example =
    Reach-shows_artists artist_codec artist_table ((apart joni.id _ refl, tt), (tt, tt))
      artists_of_key v4-Reach 0 (omega arith) refl
