-- ===== src/Backend/Caches/Bookmarks.antt =====
-- bookmark_info.go: a bookmark that was stored is read back.
use godlna.Base.{
  ℕ, ◌≤◌, Text, text_beq, [], none, some, Bool, true, false, pos, int64_max, decimal, decimal_ℤ,
  parse_int-decimal, decimal-AllDigits, decimal-cons, is_digit, trim, trim_plain, All-mono,
  dir_name, ◌≡◌, refl, arith,
}
use godlna.Backend.Files.{bookmark_info_cache_file}
use godlna.Backend.Caches.{
  Disk, content, not_exist, is_space, read_bookmark, write_in_dir, write_bookmark,
  get_bookmark_info, set_bookmark_info,
}
use godlna.Backend.Caches.Laws.{IsDisk}

digit_no_space : (c : ℕ) → is_digit c ≡ true → is_space c ≡ false
unfolding is_space
digit_no_space c h = ground arith

decimal-trim : (n : ℕ) → trim is_space (decimal n) ≡ decimal n
decimal-trim n = trim_plain is_space (decimal n) (
    All-mono {P = λ c. is_digit c ≡ true} (decimal n) (λ c h. digit_no_space c h)
      (decimal-AllDigits n))

decimal_nonempty : (n : ℕ) → text_beq (decimal n) [] ≡ false
decimal_nonempty n = let (c, s, e, d) = decimal-cons n in rw e (unfold text_beq in refl)

read-decimal :
    (n : ℕ) → n ≤ int64_max → read_bookmark (content (decimal_ℤ (pos n))) ≡ some (some (pos n))
unfolding read_bookmark decimal_ℤ
read-decimal n h = rw (decimal-trim n, decimal_nonempty n, parse_int-decimal n h) refl

write-read :
    {F : Type 0} (disk : Disk F)
    → IsDisk disk
    → (p : F × Bool) (file body : Text) → (write_in_dir disk p file body).1 ≡ true
    → disk.read_file (write_in_dir disk p file body).0 file ≡ content body
unfolding write_in_dir
write-read disk d (f, false) file body h = absurd (cc)
write-read disk d (f, true) file body h = d.read_written f file body h

pub set_bookmark_info-read :
    {F : Type 0} (disk : Disk F) (f : F) (video_file : Text) (n : ℕ)
    → IsDisk disk
    → n ≤ int64_max
    → (set_bookmark_info disk f video_file (some (pos n))).1 ≡ true
    → get_bookmark_info disk (set_bookmark_info disk f video_file (some (pos n))).0 video_file
      ≡ some (some (pos n))
unfolding get_bookmark_info set_bookmark_info write_bookmark
set_bookmark_info-read disk f video_file n d l h =
    let cache = bookmark_info_cache_file video_file in
    rw (write-read disk d (disk.mkdir_all f (dir_name cache)) cache (decimal_ℤ (pos n)) h)
      (read-decimal n l)

-- On a disk that keeps the laws: when the storing of a bookmark of 64 bits reports success, the bookmark is read back;
-- and when the file of a bookmark is gone after the removal, that reports success, and no bookmark is read.
pub set_bookmark_info-get :
    {F : Type 0} (disk : Disk F) (f : F) (video_file : Text) (n : ℕ)
    → IsDisk disk
    → n ≤ int64_max
    → (set_bookmark_info disk f video_file (some (pos n))).1 ≡ true
    → disk.stat
        (disk.remove f (bookmark_info_cache_file video_file))
        (bookmark_info_cache_file video_file)
      ≡ not_exist
    → (get_bookmark_info disk (set_bookmark_info disk f video_file (some (pos n))).0 video_file
        ≡ some (some (pos n)))
      × ((set_bookmark_info disk f video_file none).1 ≡ true)
      × (get_bookmark_info disk (set_bookmark_info disk f video_file none).0 video_file ≡ some none)
unfolding get_bookmark_info set_bookmark_info write_bookmark
set_bookmark_info-get disk f video_file n d l h e =
    let cache = bookmark_info_cache_file video_file in
    (
      set_bookmark_info-read disk f video_file n d l h,
      rw e refl,
      rw (d.read_missing (disk.remove f cache) cache e) (unfold read_bookmark in refl),
    )
