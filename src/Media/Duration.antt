-- ===== src/Media/Duration.antt =====
-- `DurationToString` of pkg/ffmpeg/ffmpeg.go. A time.Duration is a number of nanoseconds. The code takes the seconds,
-- minutes and hours through float64; for whole tenths of a millisecond, all that the program has, the nearest
-- floats of two durations never meet, and cutting them is the integer quotient.
use godlna.Base.{
  ◌≡◌, refl, ℕ, zero, suc, ◌-◌, Text, codes, ◌∷◌, ◌++◌, length, ℤ, pos, negsuc, quot, rem, decimal,
  decimal_ℤ,
}

zeros : ℕ → Text → Text
zeros zero s = s
zeros (suc n) s = b'0' ∷ zeros n s

-- `%0wd`; the width counts the sign.
unfoldable pub padded : ℕ → ℤ → Text
unfolding zeros
padded w (pos n) = zeros (w - length (decimal n)) (decimal n)
padded w (negsuc n) = b'-' ∷ zeros (w - 1 - length (decimal (suc n))) (decimal (suc n))

unfoldable pub duration_to_string : ℤ → Text
unfolding padded
duration_to_string dur =
    let ms = rem (quot dur 1000000) 1000 in
    let s = rem (quot dur 1000000000) 60 in
    let m = rem (quot dur 60000000000) 60 in
    let h = quot dur 3600000000000 in
    decimal_ℤ h ++ (b':' ∷ (padded 2 m ++ (b':' ∷ (padded 2 s ++ (b'.' ∷ padded 3 ms)))))

tests : duration_to_string (pos 3723004000000) ≡ codes "1:02:03.004"
unfolding duration_to_string decimal decimal_ℤ
tests = refl
