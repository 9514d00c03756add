-- ===== src/Media/Thumbnail/Progress.antt =====
-- pkg/ffmpeg/thumbnail.go: the progress and the seek time of a bookmark.
use godlna.Base.{
  ℕ, ◌+◌, ◌-◌, ◌*◌, ◌/◌, ◌≤◌, ◌<◌, true, not, if◌then◌else◌, ltb, leb, nat_beq, ℤ, pos, negsuc,
  neg_part, pos_part, to_int64, ltb_ℤ, ◌-ℤ◌, wrap_int64, to_int64_exact, int64_max, ◌≡◌, refl,
  arith, Bool-cases, inl, inr,
}
use godlna.Media.Thumbnail.{clamped, watched, get_progress_and_time_to_seek}
use native.Mathlib.Nat.{div-le_of_le-mul}

minus_leeway :
    (d l : ℕ) → d ≤ int64_max → l ≤ int64_max → wrap_int64 (pos d -ℤ pos l) ≡ pos d -ℤ pos l
minus_leeway d l h k = elim (Bool-cases (leb l d)) [
  | inl e ↦
      let x : pos d -ℤ pos l ≡ pos (d - l) = ground arith in
      rw x (unfold wrap_int64 in to_int64_exact (d - l) (omega arith))
  | inr e ↦
      let x : pos d -ℤ pos l ≡ negsuc (l - d - 1) = ground arith in
      rw x (unfold wrap_int64 to_int64 in ground arith)
]

is_watched :
    (d b l : ℕ)
    → d ≤ int64_max
    → l ≤ int64_max
    → ltb_ℤ (pos b) (wrap_int64 (pos d -ℤ pos l)) ≡ ltb (b + l) d
is_watched d b l h k = rw (minus_leeway d l h k) (ground arith)

-- The progress in hundredths, at least 1.
abbrev pub hundredths : ℕ → ℕ → ℕ
hundredths b d = let p = b * 100 / d in if nat_beq p 0 then 1 else p

below_hundred : (b d : ℕ) → b ≤ d → b * 100 / d ≤ 100
below_hundred b d h = div-le_of_le-mul d (omega (arith, h))

at_most_hundred : (b d : ℕ) → b ≤ d → hundredths b d ≤ 100
at_most_hundred b d h = let s = below_hundred b d h in ground (arith, s)

unwatched : (b d : ℕ) (t : ℤ) → nat_beq b 0 ≡ true → watched (pos d) (pos b) t ≡ (0, t)
unfolding watched
unwatched b d t z = ground arith

watched_exact :
    (b d t : ℕ)
    → 0 < b
    → b < d
    → b * 100 ≤ int64_max
    → watched (pos d) (pos b) (pos t) ≡ (hundredths b d, pos b)
unfolding watched wrap_int64
watched_exact b d t h k l =
    let s = below_hundred b d (omega arith) in
    rw (to_int64_exact (b * 100) l) (unfold clamped in ground (arith, s))

-- For times in nanoseconds that do not overflow, the bookmark taken a hundred times: within the leeway of the end the
-- progress is 100, also for a bookmark of 0, and the frame is at a tenth of the video; before it a bookmark of 0 is no
-- progress, with the same frame, and any other has its own frame and its hundredths of the video, at least 1. No
-- progress is above 100, and no frame lies before the start or behind the end of the video.
pub get_progress_and_time_to_seek_exact :
    (d b l : ℕ)
    → d ≤ int64_max
    → l ≤ int64_max
    → b * 100 ≤ int64_max
    → let result = get_progress_and_time_to_seek (pos d) (pos b) (pos l) in
      (result ≡ (
        if not (ltb (b + l) d)
        then (100, pos (d / 10))
        else if nat_beq b 0
        then (0, pos (d / 10))
        else (hundredths b d, pos b)))
      × (result.0 ≤ 100)
      × (neg_part result.1 ≡ 0)
      × (pos_part result.1 ≤ d)
unfolding get_progress_and_time_to_seek
get_progress_and_time_to_seek_exact d b l h k m = elim (Bool-cases (ltb (b + l) d)) [
  | inr e ↦ rw (is_watched d b l h k, e) (refl, omega arith, refl, ground arith)
  | inl e ↦ elim (Bool-cases (nat_beq b 0)) [
    | inl z ↦
        rw (is_watched d b l h k, e, z, unwatched b d (pos (d / 10)) z)
          (refl, omega arith, refl, omega arith)
    | inr z ↦
        rw (is_watched d b l h k, e, z, watched_exact b d (d / 10) (ground arith) (ground arith) m)
          (refl, at_most_hundred b d (ground arith), refl, ground arith)
  ]
]
