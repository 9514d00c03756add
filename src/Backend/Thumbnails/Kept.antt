-- ===== src/Backend/Thumbnails/Kept.antt =====
-- dlna/backend: a bookmark that a client set is in the cache file, from where a new database takes it.
use godlna.Base.{
  ℤ, negsuc, pos_part, ◌⊎◌, inl, inr, refl, ℕ, suc, ◌≤◌, Text, Option, none, some, pos, int64_max,
  ◌≡◌, ◌≢◌,
}
use godlna.Backend.Object.{Object}
use godlna.Backend.Filter.{DatabaseDriver}
use godlna.Backend.Service.{World, ok, by_number, get_one_object, set_bookmark}
use godlna.Backend.Service.Bookmarks.{set_bookmark_files}
use godlna.Backend.Caches.{Disk, Codec, get_bookmark_info}
use godlna.Backend.Caches.Laws.{IsDisk}
use godlna.Backend.Caches.Bookmarks.{set_bookmark_info-read}
use godlna.Backend.Thumbnails.{media_of}
use godlna.Media.Probe.{Data}
use godlna.Media.Thumbnail.{Tools}

-- Over any database, on a disk that keeps the laws: when SetBookmark reports success for an object that did not have
-- the bookmark, either the bookmark is negative and nothing was done, or the cache file of the video holds the
-- bookmark, and it is read from there.
pub set_bookmark-get_bookmark_info :
    {S F I : Type 0} (drv : DatabaseDriver S) (disk : Disk F) (codec : Codec)
    (probe : Text → Option Data) (tools : Tools F I) (w : World S F) (n : ℕ) (b : ℤ) (o : Object)
    → IsDisk disk
    → pos_part b ≤ int64_max
    → get_one_object drv w.store (by_number (suc n)) ≡ ok o
    → o.bookmark ≢ some b
    → (set_bookmark drv (media_of disk codec probe tools) w (pos (suc n)) b).1 ≡ none
    → let after = (set_bookmark drv (media_of disk codec probe tools) w (pos (suc n)) b).0 in
      ((m : ℕ) × (b ≡ negsuc m) × (after ≡ w))
      ⊎ (get_bookmark_info disk after.files
            (drv.update_object w.store o none (some (some b))).0.path
          ≡ some (some b))
set_bookmark-get_bookmark_info drv disk codec probe tools w n (negsuc m) o d l f e h =
    inl (m, refl, unfold set_bookmark in refl)
set_bookmark-get_bookmark_info drv disk codec probe tools w n (pos b) o d l f e h =
    let (written, same) = set_bookmark_files drv (media_of disk codec probe tools) w n b o f e h in
    inr (rw same (set_bookmark_info-read disk _ _ b d l written))
