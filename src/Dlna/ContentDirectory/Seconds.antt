-- ===== src/Dlna/ContentDirectory/Seconds.antt =====
-- The bookmarks of dlna/content_directory_controller.go, which some clients send and read in seconds.
use godlna.Base.{
  ℕ, ◌*◌, ◌/◌, ◌≤◌, Text, some, ◌≡◌, refl, arith, inl, inr, Bool-cases, ℤ, pos, int64_max,
  to_int64_exact, wrap_int64,
}
use godlna.Backend.Object.{Object, video}
use godlna.Soap.Didl.{Entry, container, item}
use godlna.Dlna.Entries.{
  Request, use_seconds_in_bookmark, shown_bookmark, int64_of, upnpav_obj, entry_of, video_entry,
}
use godlna.Dlna.ContentDirectory.{SetBookmarkArgs, position}

position-shown :
    (r : Request) (args : SetBookmarkArgs) (n : ℕ)
    → args.pos_second ≡ pos n
    → n ≤ int64_max / 1000
    → shown_bookmark (use_seconds_in_bookmark r) (some (position r args)) ≡ pos n
unfolding shown_bookmark int64_of position
position-shown r args n a b = elim (Bool-cases (use_seconds_in_bookmark r)) [
  | inl s ↦
      rw (s, a)
        (unfold wrap_int64 in rw (to_int64_exact (n * 1000) (ground (arith, b))) (ground arith))
  | inr s ↦ rw (s, a) refl
]

abbrev pub entry_bookmark : Entry → ℤ
entry_bookmark (container o) = pos 0
entry_bookmark (item o res b) = b

-- A client that sets a bookmark of up to 9223372036854775 seconds or milliseconds, whichever it counts in, is shown
-- the same number in the entry of the video that has the bookmark.
pub position-upnpav_obj :
    (format_date : ℤ → Text) (o : Object) (parent : ℤ) (r : Request) (args : SetBookmarkArgs)
    (n : ℕ)
    → o.typ ≡ video
    → args.pos_second ≡ pos n
    → n ≤ int64_max / 1000
    → o.bookmark ≡ some (position r args)
    → entry_bookmark (upnpav_obj format_date o parent r) ≡ pos n
unfolding upnpav_obj entry_of video_entry
position-upnpav_obj format_date o parent r args n v a b h = rw (v, h) (position-shown r args n a b)
