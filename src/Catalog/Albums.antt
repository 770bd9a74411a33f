-- ===== src/Catalog/Albums.antt =====
-- The albums listing: `Albums` and its cursors in sqlite/libraryread.go, `ListAlbums` in
-- rpc/library.go.
use byom.Prelude.{
  ℕ, ◌≡◌, refl, Text, codes, text_eq, text_eq_refl, Bool, true, false, ◌&&◌, List, [], ◌∷◌, ◌==◌,
  map, Result, ok, ◌>>=◌, is_empty, if◌then◌else◌, arith,
}
use byom.Proto.Library.{ListAlbumsRequest}
use byom.Proto.LibraryService.{ListAlbumsResponse}
use byom.Pagination.{Page}
use byom.Paging.{Codec, Listing, StoreError, list_page}
use byom.Paging.Orders.{StrictOrder, lex_order, flip_order, text_order}
use byom.Paging.Pages.{IsKeyset}
use byom.Catalog.{
  StoredAlbum, AlbumQuery, LibraryAlbumType, LibraryBootlegs, LibraryOrder, Code, or_rpc_error,
  rank, selects, album_query, album_proto,
}

-- `unknownDate`, and `sortableDate` with the same expressions in SQL.
abbrev pub sortable_date : Text → Text
sortable_date date = if is_empty date then codes "9999" else date

pub record AlbumCursor : Type 0 where
  pub query : AlbumQuery
  pub title : Text
  pub artist_sort : Text
  pub release_date : Text
  pub original_date : Text
  pub id : Text

unfoldable pub new_album_cursor : AlbumQuery → StoredAlbum → AlbumCursor
new_album_cursor q al = record {
  query = q;
  title = al.title;
  artist_sort = al.artist_sort;
  release_date = sortable_date al.release_date;
  original_date = sortable_date al.original_release_date;
  id = al.id;
}

-- `albumSort`: the values of the sort expressions for a row, and the cursor's matching values.
unfoldable pub sort_values : LibraryOrder → StoredAlbum → List Text
sort_values LibraryOrder.title al = al.title ∷ al.id ∷ []
sort_values LibraryOrder.artist al =
    al.artist_sort ∷ sortable_date al.original_release_date ∷ al.title ∷ al.id ∷ []
sort_values LibraryOrder.release_date al = sortable_date al.release_date ∷ al.title ∷ al.id ∷ []
sort_values LibraryOrder.original_date al =
    sortable_date al.original_release_date ∷ al.title ∷ al.id ∷ []
sort_values LibraryOrder.recently_added al = al.id ∷ []

unfoldable pub cursor_values : LibraryOrder → AlbumCursor → List Text
cursor_values LibraryOrder.title cur = cur.title ∷ cur.id ∷ []
cursor_values LibraryOrder.artist cur =
    cur.artist_sort ∷ cur.original_date ∷ cur.title ∷ cur.id ∷ []
cursor_values LibraryOrder.release_date cur = cur.release_date ∷ cur.title ∷ cur.id ∷ []
cursor_values LibraryOrder.original_date cur = cur.original_date ∷ cur.title ∷ cur.id ∷ []
cursor_values LibraryOrder.recently_added cur = cur.id ∷ []

-- `AlbumQuery.Equal`.
abbrev pub bootlegs_rank : LibraryBootlegs → ℕ
bootlegs_rank LibraryBootlegs.include = 0
bootlegs_rank LibraryBootlegs.exclude = 1
bootlegs_rank LibraryBootlegs.only = 2

abbrev pub order_rank : LibraryOrder → ℕ
order_rank LibraryOrder.title = 0
order_rank LibraryOrder.artist = 1
order_rank LibraryOrder.release_date = 2
order_rank LibraryOrder.original_date = 3
order_rank LibraryOrder.recently_added = 4

abbrev pub bool_eq : Bool → Bool → Bool
bool_eq true b = b
bool_eq false true = false
bool_eq false false = true

abbrev pub types_eq : List LibraryAlbumType → List LibraryAlbumType → Bool
types_eq [] [] = true
types_eq [] (u ∷ us) = false
types_eq (t ∷ ts) [] = false
types_eq (t ∷ ts) (u ∷ us) = rank t == rank u && types_eq ts us

unfoldable pub query_equal : AlbumQuery → AlbumQuery → Bool
query_equal q p =
    text_eq q.artist_id p.artist_id
    && bool_eq q.include_all_versions p.include_all_versions
    && bootlegs_rank q.bootlegs == bootlegs_rank p.bootlegs
    && order_rank q.order == order_rank p.order
    && bool_eq q.descending p.descending
    && types_eq q.types p.types

-- The order of the rows: `DESC` flips every key.
abbrev pub album_row_order : Bool → StrictOrder (List Text)
album_row_order true = flip_order (lex_order text_order)
album_row_order false = lex_order text_order

types_eq_refl : (ts : List LibraryAlbumType) → types_eq ts ts ≡ true
types_eq_refl [] = refl
types_eq_refl (t ∷ ts) = ground (arith, types_eq_refl ts)

pub query_equal_refl : (q : AlbumQuery) → query_equal q q ≡ true
unfolding query_equal
query_equal_refl q = ground (arith, text_eq_refl q.artist_id, types_eq_refl q.types)

sort_values-new_album_cursor :
    (order : LibraryOrder) (q : AlbumQuery) (al : StoredAlbum)
    → cursor_values order (new_album_cursor q al) ≡ sort_values order al
unfolding cursor_values sort_values new_album_cursor
sort_values-new_album_cursor LibraryOrder.title q al = refl
sort_values-new_album_cursor LibraryOrder.artist q al = refl
sort_values-new_album_cursor LibraryOrder.release_date q al = refl
sort_values-new_album_cursor LibraryOrder.original_date q al = refl
sort_values-new_album_cursor LibraryOrder.recently_added q al = refl

module _ (codec : Codec AlbumCursor) where
  abbrev pub albums_of : AlbumQuery → Listing StoredAlbum (List Text) AlbumCursor
  albums_of q = record {
    order = album_row_order q.descending;
    key = sort_values q.order;
    selects = selects q;
    codec = codec;
    mint = new_album_cursor q;
    resumes_at = cursor_values q.order;
    of_query = λ cur. query_equal cur.query q;
  }

  -- `LibraryStore.Albums`, on the rows of the table.
  unfoldable pub albums :
      List StoredAlbum → AlbumQuery → Text → ℕ → Result StoreError (Page StoredAlbum)
  albums rows q token limit = list_page (albums_of q) rows token limit

  -- `ListAlbums`.
  unfoldable pub list_albums : List StoredAlbum → ListAlbumsRequest → Result Code ListAlbumsResponse
  unfolding albums
  list_albums rows req = do
    q ← album_query req
    page ← or_rpc_error (albums rows q req.page_token req.page_size)
    ok (record { items = map album_proto page.items; next_page_token = page.next_page_token })

  -- A cursor holds the values of its row's sort expressions, and is of its own query.
  pub albums_of-IsKeyset : (q : AlbumQuery) → IsKeyset (albums_of q)
  unfolding new_album_cursor
  albums_of-IsKeyset q = record {
    resumes = sort_values-new_album_cursor q.order q;
    accepted = λ al. query_equal_refl q;
  }
