-- ===== src/Cover.antt =====
-- An album's artwork: ui/src/components/Cover.tsx. Events are those of the image element, and a
-- change of the hash that the parent passes, which leaves the signals as they are.
pub mod Artwork
mod Tests
use byom.Prelude.{
  ℕ, Text, codes, truthy, decimal, Bool, true, false, not, ◌&&◌, List, [], ◌∷◌, ◌++◌, if◌then◌else◌,
}

pub data Size : Type 0 where
  tile hero : Size

-- `WIDTHS`.
unfoldable pub widths : Size → ℕ × ℕ
widths tile = (160, 320)
widths hero = (320, 640)

pub record Cover : Type 0 where
  pub cover_hash : Text
  pub loaded : Bool
  pub failed : Bool

abbrev pub new_cover : Text → Cover
new_cover hash = record { cover_hash = hash; loaded = false; failed = false }

unfoldable pub has_artwork : Cover → Bool
has_artwork c = truthy c.cover_hash && not c.failed

unfoldable pub pending : Cover → Bool
unfolding has_artwork
pending c = has_artwork c && not c.loaded

unfoldable pub src : Cover → ℕ → Text
src c width = codes "/images/" ++ (c.cover_hash ++ (codes "?size=" ++ decimal width))

unfoldable pub src_set : Cover → Size → Text
unfolding src widths
src_set c size =
    let (once, twice) = widths size in src c once ++ (codes " 1x, " ++ (src c twice ++ codes " 2x"))

unfoldable pub aria_label : Text → Cover → Text
unfolding has_artwork
aria_label title c = if has_artwork c then title else title ++ codes " — no cover art"

-- `onLoad`, `onError`, and a new value of the hash.
pub data Event : Type 0 where
  loads errors : Event
  changes_hash : Text → Event

unfoldable pub step : Event → Cover → Cover
step loads c = record c { loaded = true }
step errors c = record c { failed = true }
step (changes_hash hash) c = record c { cover_hash = hash }

unfoldable pub run : List Event → Cover → Cover
run [] c = c
run (e ∷ es) c = run es (step e c)
