-- ===== src/Catalog/Artists.antt =====
-- Artists on the server: `Artist`, `Artists` and its cursor in sqlite/libraryread.go, `GetArtist`
-- and `ListArtists` in rpc/library.go.
use byom.Prelude.{
  ℕ, refl, Text, text_eq, find, none, some, err, true, List, [], ◌∷◌, map, Result, ok, ◌>>=◌,
}
use byom.Proto.Library.{Artist}
use byom.Proto.LibraryService.{
  ListArtistsRequest, ListArtistsResponse, GetArtistRequest, GetArtistResponse,
}
use byom.Pagination.{Page}
use byom.Paging.{Codec, Listing, StoreError, not_found, list_page}
use byom.Paging.Orders.{lex_order, text_order}
use byom.Paging.Pages.{IsKeyset}
use byom.Catalog.{Code, or_rpc_error, parse_id}

-- A row of `artists`.
pub record StoredArtist : Type 0 where
  pub id : Text
  pub name : Text
  pub sort_name : Text

pub record ArtistCursor : Type 0 where
  pub sort_name : Text
  pub id : Text

abbrev pub artist_key : StoredArtist → List Text
artist_key a = a.sort_name ∷ a.id ∷ []

abbrev pub new_artist_cursor : StoredArtist → ArtistCursor
new_artist_cursor a = record { sort_name = a.sort_name; id = a.id }

unfoldable pub artist_proto : StoredArtist → Artist
artist_proto a = record { id = a.id; name = a.name }

module _ (codec : Codec ArtistCursor) where
  abbrev pub artists_of : Listing StoredArtist (List Text) ArtistCursor
  artists_of = record {
    order = lex_order text_order;
    key = artist_key;
    selects = λ a. true;
    codec = codec;
    mint = new_artist_cursor;
    resumes_at = λ cur. cur.sort_name ∷ cur.id ∷ [];
    of_query = λ cur. true;
  }

  -- `LibraryStore.Artists`, on the rows of the table.
  unfoldable pub artists : List StoredArtist → Text → ℕ → Result StoreError (Page StoredArtist)
  artists rows token limit = list_page artists_of rows token limit

  -- `ListArtists`.
  unfoldable pub list_artists :
      List StoredArtist → ListArtistsRequest → Result Code ListArtistsResponse
  unfolding artists
  list_artists rows req = do
    page ← or_rpc_error (artists rows req.page_token req.page_size)
    ok (record { items = map artist_proto page.items; next_page_token = page.next_page_token })

  pub artists_of-IsKeyset : IsKeyset artists_of
  artists_of-IsKeyset = record { resumes = λ a. refl; accepted = λ a. refl }

-- `LibraryStore.Artist` and `GetArtist`.
unfoldable pub artist : List StoredArtist → Text → Result StoreError StoredArtist
artist rows id = elim (find (λ (a : StoredArtist). text_eq a.id id) rows) [
  | none ↦ err not_found
  | some a ↦ ok a
]

unfoldable pub get_artist : List StoredArtist → GetArtistRequest → Result Code GetArtistResponse
unfolding artist
get_artist rows req = do
  id ← parse_id req.id
  a ← or_rpc_error (artist rows id)
  ok (record { artist = some (artist_proto a) })
