-- ===== src/Catalog/Tests.antt =====
-- Runs of the server's listings, and of the lists that show them, on small tables.
use byom.Prelude.{
  if◌then◌else◌, ◌*◌, ◌≡◌, ◌≢◌, ◌≤◌, refl, Text, codes, text_eq, text_eq_iff, Bool, true, false,
  List, [], ◌∷◌, some, ◌⊎◌, arith, length, map, take, keep, leb, ok, err,
}
use byom.Proto.Library.{Album, AlbumType, ListAlbumsRequest}
use byom.Proto.LibraryService.{ListAlbumsResponse}
use byom.Pagination.{
  Page, World, new_world, entry_for, start_fetch, load_more, show_entry, key_effect, mount,
  store_page, finish_call, when_current, resolve,
}
use byom.Pagination.Steps.{Reach, start, next, mounts, resolves, loads_more}
use byom.Pagination.Progress.{answer, load_round, load_rounds}
use byom.Paging.{page_size, cut_page, fetch, resume, list_page}
use byom.Paging.Pages.{catalog}
use byom.Paging.Sorting.{insert_row, order_by, IsAscending}
use byom.Catalog.{
  StoredAlbum, AlbumQuery, LibraryAlbumType, LibraryBootlegs, LibraryOrder, invalid_argument,
  missing, album_query, album_type_filter, bootleg_filter, album_order, type_by_proto, selects,
  album_proto,
}
use byom.Catalog.Albums.{
  AlbumCursor, new_album_cursor, sort_values, cursor_values, query_equal, albums, albums_of,
  album_row_order, list_albums,
}
use byom.Catalog.Codecs.{album_codec}
use byom.Catalog.Serving.{HasIds, served}
use byom.Catalog.Shown.{Reach-shows_selected, mount-shows_first}
use byom.Catalog.Refusals.{list_albums-resume, list_albums-IsWithin}
use byom.Catalog.Versions.{
  album, version_group, album_versions, get_album, list_album_versions, in_group, version_key,
  version_order, LacksId, list_album_versions-get_album,
}
use byom.Catalog.Filters.{all_types, all_named, asked_in, album_type_filter-those}
use byom.Scrolling.{grid_request}
use mathlib.Core.List.{Mem, Perm}

program : Unit {0}
unfolding entry_for start_fetch load_more show_entry key_effect mount store_page finish_call
    when_current resolve answer load_round load_rounds text_eq page_size cut_page fetch resume
    list_page insert_row order_by album_query album_type_filter bootleg_filter album_order
    type_by_proto selects album_proto new_album_cursor sort_values cursor_values query_equal albums
    list_albums served grid_request album version_group album_versions get_album list_album_versions
program = tt

abbrev stored : Text → Text → Text → Bool → StoredAlbum
stored id title artist_sort primary = record {
  id = id;
  title = title;
  album_type = LibraryAlbumType.main;
  release_date = [];
  original_release_date = codes "1971";
  release_country = [];
  bootleg = false;
  compilation = false;
  live = false;
  group_key = codes "g";
  version = [];
  primary_version = primary;
  artist_sort = artist_sort;
  artists = [];
  cover_hash = [];
}

abbrev blue : StoredAlbum
blue = stored (codes "a1") (codes "Blue") (codes "Mitchell") true

abbrev reissue : StoredAlbum
reissue = stored (codes "a2") (codes "Blue") (codes "Mitchell") false

abbrev arrival : StoredAlbum
arrival = stored (codes "a3") (codes "Arrival") (codes "ABBA") true

abbrev hejira : StoredAlbum
hejira = stored (codes "a4") (codes "Hejira") (codes "Mitchell") true

abbrev table : List StoredAlbum
table = blue ∷ reissue ∷ hejira ∷ arrival ∷ []

apart : (s t : Text) → text_eq s t ≡ false → s ≢ t
apart s t h same = absurd (ground (arith, (text_eq_iff s t).1 same))

table-HasIds : HasIds table
unfolding program
table-HasIds = (
  (apart blue.id _ refl, (apart blue.id _ refl, (apart blue.id _ refl, tt))),
  (
    (apart reissue.id _ refl, (apart reissue.id _ refl, tt)),
    ((apart hejira.id _ refl, tt), (tt, tt)),
  ),
)

-- The grid's requests, two albums at a time.
abbrev request_of : Text → ListAlbumsRequest
request_of k = record (grid_request []) { page_size = 2 }

abbrev query : AlbumQuery
query = record {
  artist_id = [];
  include_all_versions = false;
  types = [];
  bootlegs = LibraryBootlegs.include;
  order = LibraryOrder.artist;
  descending = false;
}

query_test : album_query (request_of []) ≡ ok query
unfolding program
query_test = refl

abbrev listing : Text → Text → Page Album
listing = served album_codec table request_of

abbrev token : Text
token = album_codec.encode (new_album_cursor query blue)

page_tests :
    (listing [] []
      ≡ record { items = album_proto arrival ∷ album_proto blue ∷ []; next_page_token = token })
    × (listing [] token ≡ record { items = album_proto hejira ∷ []; next_page_token = [] })
unfolding program
page_tests = (refl, refl)

-- A list of the first of these pages, and of both.
abbrev grid : Text
grid = codes "albums:"

abbrev w1 : World Album
w1 = mount grid new_world

abbrev w2 : World Album
w2 = resolve 0 (listing grid []) w1

abbrev w3 : World Album
w3 = load_more 0 w2

abbrev w4 : World Album
w4 = resolve 1 (listing grid token) w3

w1-Reach : Reach listing w1
w1-Reach = next start (mounts grid)

w2-Reach : Reach listing w2
unfolding program
w2-Reach = next w1-Reach (resolves 0 (record { list = 0; key = grid; entry = 0; token = [] }) refl)

w3-Reach : Reach listing w3
unfolding program
w3-Reach = next w2-Reach (loads_more 0 (omega arith))

w4-Reach : Reach listing w4
unfolding program
w4-Reach =
    next w3-Reach (resolves 1 (record { list = 0; key = grid; entry = 0; token = token }) refl)

Reach-shows_selected_example :
    (shown : List StoredAlbum) × ((w4.lists 0).items ≡ map album_proto shown)
    × Perm shown (keep (selects query) table)
    × IsAscending (album_row_order false) (sort_values LibraryOrder.artist) shown
unfolding program
Reach-shows_selected_example =
    Reach-shows_selected album_codec table table-HasIds request_of w4-Reach 0 (omega arith) query
      refl refl

mount-shows_first_example :
    let l =
      (load_rounds listing 1 w4.mounted (answer listing w4.issued (mount (codes "b") w4))).lists
        w4.mounted in
    let selected = catalog (albums_of album_codec query) table in
    let size = 2 * page_size 2 in
    (l.items ≡ map album_proto (take size selected))
    × (l.done ≡ leb (length selected) size)
    × (length selected ≤ 2 → l.done ≡ true)
unfolding program
mount-shows_first_example =
    mount-shows_first album_codec table table-HasIds request_of (codes "b") w4-Reach refl query refl
      1

-- The grid's token, in a request for the singles.
abbrev misused : ListAlbumsRequest
misused = record (request_of []) { page_token = token; include_all_versions = true }

list_albums-resume_example :
    ((list_albums album_codec table misused ≡ err invalid_argument)
      × ((cur : AlbumCursor)
          → album_codec.decode misused.page_token ≡ some cur
          → cur.query ≢ record query { include_all_versions = true }))
    ⊎ ((cur : AlbumCursor) × (album_codec.decode misused.page_token ≡ some cur)
        × (cur.query ≡ record query { include_all_versions = true })
        × (res : ListAlbumsResponse) × (list_albums album_codec table misused ≡ ok res))
unfolding program
list_albums-resume_example =
    list_albums-resume album_codec table misused (record query { include_all_versions = true }) refl
      (λ h. cc)

misuse_test : list_albums album_codec table misused ≡ err invalid_argument
unfolding program
misuse_test = refl

abbrev first_response : ListAlbumsResponse
first_response = record {
  items = album_proto arrival ∷ album_proto blue ∷ [];
  next_page_token = token;
}

list_albums-IsWithin_example :
    (length first_response.items ≤ page_size 2)
    × (page_size 2 ≤ 200)
    × (first_response.next_page_token ≢ [] → length first_response.items ≡ page_size 2)
unfolding program
list_albums-IsWithin_example =
    list_albums-IsWithin album_codec table (request_of []) first_response refl

list_album_versions-get_album_example :
    let one = get_album table (record { id = codes "a2" }) in
    let all' = list_album_versions table (record { album_id = codes "a2" }) in
    (LacksId (codes "a2") table × (one ≡ err missing) × (all' ≡ err missing))
    ⊎ ((al : StoredAlbum) × (versions : List StoredAlbum) × (one
          ≡ ok (record { album = some (album_proto al) }))
        × (all' ≡ ok (record { items = map album_proto versions }))
        × (al.id ≡ codes "a2")
        × Mem al versions
        × Perm versions (keep (in_group al.group_key) table)
        × IsAscending version_order version_key versions)
list_album_versions-get_album_example =
    list_album_versions-get_album table (codes "a2") table-HasIds (λ h. cc)

abbrev requested : List AlbumType
requested = AlbumType.single ∷ AlbumType.main ∷ AlbumType.single ∷ []

filter_test :
    album_type_filter requested ≡ ok (LibraryAlbumType.main ∷ LibraryAlbumType.single ∷ [])
unfolding program
filter_test = refl

-- One number that the enum does not name refuses the request.
unnamed_test :
    album_type_filter (AlbumType.main ∷ AlbumType.unrecognized 9 ∷ []) ≡ err invalid_argument
unfolding program
unnamed_test = refl

album_type_filter-those_example : album_type_filter requested ≡ (
    if all_named requested then ok (keep (asked_in requested) all_types) else err invalid_argument)
album_type_filter-those_example = album_type_filter-those requested
