-- ===== src/Media/Examples.antt =====
-- Runs of pkg/ffmpeg and pkg/imaging.
use godlna.Base.{List, [], ◌∷◌, some, pos, ◌≡◌, refl, arith}
use godlna.Media.ProgressBar.{
  add_progress_bar, configured, applied, progress_size, progress_position, progress_padding_x,
  ProgressBarOption, Config, default_progress_bar_config,
}
use godlna.Media.ProgressBar.Inside.{add_progress_bar_exact, shown}

-- A bar at the right side, and a position that is not known.
abbrev right : List ProgressBarOption
right =
    progress_position (pos 1)
    ∷ progress_size (pos 20)
    ∷ progress_padding_x (pos 10)
    ∷ progress_position (pos 7)
    ∷ []

abbrev settled : Config
settled = record default_progress_bar_config { position = pos 1; size = pos 20; padding_x = pos 10 }

add_progress_bar_exact_example :
    add_progress_bar (some (pos 480, pos 300)) 50 right
    ≡ some (
        shown 50
          (record { min_x = pos 450; min_y = pos 0; max_x = pos 470; max_y = pos 300 })
          (record { min_x = pos 450; min_y = pos 150; max_x = pos 470; max_y = pos 300 })
          settled)
unfolding configured applied
add_progress_bar_exact_example =
    (add_progress_bar_exact 50 480 300 20 10 0 right (omega arith) refl refl refl).0
