-- ===== src/Walk.antt =====
-- The walk of a location and the merge of disc folders: scan/walk.go. A directory of the file system
-- is a tree, whose entries stand in the order of `fs.ReadDir`. The map of pending discs is a list in
-- the order in which they were walked; the order of the discs' files is the map's in the code.
-- `strings.ToLower` is the parameter `to_lower`.
pub mod Visits
pub mod Discs
pub mod Merging
mod Tests
use byom.Prelude.{
  ℕ, ◌+◌, Text, codes, text_eq, truthy, Bool, true, false, not, ◌&&◌, ◌||◌, Option, none, some,
  List, [], ◌∷◌, ◌++◌, map, keep, ◌==◌, leb, Result, ok, err, ◌>>=◌, if◌then◌else◌,
}
use byom.Storage.{RelPath, FileKind, audio, image, path_eq}
use byom.Sync.{FileInfo, WalkEntry, WalkResult}

-- A regular file with what `Info` gives of it, a directory, or an entry that is neither.
mutual
  pub data Folder : Type 0 where
    unreadable : Folder
    listing : Entries → Folder

  pub data Entries : Type 0 where
    done : Entries
    regular : Text → Option FileInfo → Entries → Entries
    folder : Text → Folder → Entries → Entries
    special : Text → Entries → Entries

abbrev pub is_hidden : Text → Bool
is_hidden [] = false
is_hidden (c ∷ s) = c == b'.'

-- `filepath.Ext` of a name: from its last dot.
unfoldable pub ext : Text → Text
ext [] = []
ext (c ∷ s) = let rest = ext s in if truthy rest then rest else if c == b'.' then c ∷ s else []

abbrev has_text : Text → List Text → Bool
has_text t [] = false
has_text t (u ∷ us) = text_eq t u || has_text t us

abbrev audio_extensions : List Text
audio_extensions =
    codes ".flac"
    ∷ codes ".mp3"
    ∷ codes ".ogg"
    ∷ codes ".m4a"
    ∷ codes ".aiff"
    ∷ codes ".aif"
    ∷ codes ".wav"
    ∷ codes ".opus"
    ∷ codes ".ape"
    ∷ codes ".wv"
    ∷ []

abbrev image_extensions : List Text
image_extensions = codes ".jpg" ∷ codes ".jpeg" ∷ codes ".png" ∷ codes ".gif" ∷ codes ".webp" ∷ []

-- The pattern of disc folders, `^(?i)(?:cd|disc)[\s._-]*\d+(?:[\s._-].*)?$`. Without regard to case,
-- U+017F is an `s`.
abbrev fold_case : ℕ → ℕ
fold_case c = if leb 65 c && leb c 90 then c + 32 else if c == 383 then b's' else c

unfoldable pub drop_word : Text → Text → Option Text
drop_word [] s = some s
drop_word (w ∷ ws) [] = none
drop_word (w ∷ ws) (c ∷ s) = let rest = drop_word ws s in if fold_case c == w then rest else none

abbrev is_separator : ℕ → Bool
is_separator c =
    c == 9
    || (c == 10 || (c == 12 || (c == 13 || (c == 32 || (c == b'.' || (c == b'_' || c == b'-'))))))

abbrev is_decimal : ℕ → Bool
is_decimal c = leb 48 c && leb c 57

unfoldable pub no_newline : Text → Bool
no_newline [] = true
no_newline (c ∷ s) = not (c == 10) && no_newline s

unfoldable pub after_digits : Text → Bool
after_digits [] = true
after_digits (c ∷ s) =
    let more = after_digits s in if is_decimal c then more else is_separator c && no_newline s

unfoldable pub after_word : Text → Bool
after_word [] = false
after_word (c ∷ s) =
    let more = after_word s in if is_separator c then more else is_decimal c && after_digits s

abbrev matched : Option Text → Bool
matched none = false
matched (some s) = after_word s

unfoldable pub is_disc_name : Text → Bool
unfolding drop_word after_word
is_disc_name name = matched (drop_word (codes "cd") name) || matched (drop_word (codes "disc") name)

-- `path.Base` and `path.Dir`; those of the root are `.`, the root.
abbrev pub base : RelPath → Text
base [] = codes "."
base (name ∷ p) = name

abbrev pub parent : RelPath → RelPath
parent [] = []
parent (name ∷ p) = p

unfoldable pub is_disc : RelPath → Bool
is_disc dir = is_disc_name (base dir)

-- Why a walk ends early: a directory cannot be read, or what takes the results is cancelled.
pub data WalkError : Type 0 where
  not_read : RelPath → WalkError
  cancelled : WalkError

module _ (to_lower : Text → Text) where
  unfoldable pub classify_kind : Text → Option FileKind
  unfolding ext
  classify_kind name =
      let e = to_lower (ext name) in
      if has_text e audio_extensions
      then some audio
      else if has_text e image_extensions
      then some image
      else none

  -- The second loop of `walkPostOrder`.
  abbrev add_file : Text → Option FileInfo → Option FileKind → List WalkEntry → List WalkEntry
  add_file name info none rest = rest
  add_file name info (some kind) rest = record { name = name; kind = kind; info = info } ∷ rest

  unfoldable pub regular_files : Entries → List WalkEntry
  unfolding classify_kind
  regular_files done = []
  regular_files (regular name info es) =
      let rest = regular_files es in
      if is_hidden name then rest else add_file name info (classify_kind name) rest
  regular_files (folder name sub es) = regular_files es
  regular_files (special name es) = regular_files es

  abbrev pub result_of : RelPath → Entries → WalkResult
  unfolding regular_files
  result_of dir es = record { dir = dir; files = regular_files es }

  module _ {S : Type 0} (process : WalkResult → S → Result WalkError S) where
    -- `walkPostOrder`, and the first loop in it.
    unfoldable mutual
      pub walk_post_order : RelPath → Folder → S → Result WalkError S
      walk_post_order dir unreadable s = err (not_read dir)
      walk_post_order dir (listing es) s = walk_folders dir es s >>= process (result_of dir es)

      pub walk_folders : RelPath → Entries → S → Result WalkError S
      walk_folders dir done s = ok s
      walk_folders dir (regular name info es) s = walk_folders dir es s
      walk_folders dir (special name es) s = walk_folders dir es s
      walk_folders dir (folder name sub es) s =
          if is_hidden name
          then walk_folders dir es s
          else walk_post_order (name ∷ dir) sub s >>= λ s'. walk_folders dir es s'

-- `discMerger`: the pending results, each under its directory.
unfoldable pub put_pending : WalkResult → List WalkResult → List WalkResult
put_pending res pending = keep (λ (p : WalkResult). not (path_eq p.dir res.dir)) pending ++ res ∷ []

abbrev pub is_disc_of : RelPath → WalkResult → Bool
is_disc_of dir p = path_eq (parent p.dir) dir

abbrev pub prefixed : Text → WalkEntry → WalkEntry
prefixed disc f = record f { name = disc ++ b'/' ∷ f.name }

unfoldable pub disc_files : List WalkResult → List WalkEntry
disc_files [] = []
disc_files (p ∷ ps) = map (prefixed (base p.dir)) p.files ++ disc_files ps

module _ {S : Type 0} (emit : WalkResult → S → Result WalkError S) where
  unfoldable pub merge : WalkResult → List WalkResult × S → Result WalkError (List WalkResult × S)
  unfolding is_disc put_pending disc_files
  merge res (pending, s) =
      if is_disc res.dir
      then ok (put_pending res pending, s)
      else (emit
            (record res { files = res.files ++ disc_files (keep (is_disc_of res.dir) pending) }) s
          >>= λ s'. ok (keep (λ p. not (is_disc_of res.dir p)) pending, s'))

-- Results that are taken in their order, as the channel of `sync` takes them.
abbrev pub collect : WalkResult → List WalkResult → Result WalkError (List WalkResult)
collect res taken = ok (taken ++ res ∷ [])

unfoldable pub scan_folders :
    (Text → Text) → Folder → Result WalkError (List WalkResult × List WalkResult)
unfolding walk_post_order merge
scan_folders to_lower root = walk_post_order to_lower (merge collect) [] root ([], [])
