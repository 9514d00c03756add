-- ===== src/Media/ProgressBar/Inside.antt =====
-- pkg/imaging/progress_bar.go: the bar lies within the image, and its filled part has the length of the progress.
use godlna.Base.{
  ℕ, zero, suc, ◌+◌, ◌-◌, ◌*◌, ◌^◌, ◌/◌, ◌≤◌, List, [], ◌∷◌, some, true, ◌&&◌, not, if◌then◌else◌,
  ltb, nat_beq, ℤ, pos, negsuc, ltb_ℤ, ◌≤ℤ◌, ◌-ℤ◌, ◌+ℤ◌, wrap_int64, to_int64_exact, int64_max, ◌≡◌,
  refl, arith, All, Bool-cases, if-both, inl, inr, ◌∙◌, ap,
}
use native.Mathlib.Nat.{mul-le-mul, mul-le-mul_left, div-le_of_le-mul}
use godlna.Media.ProgressBar.{
  Rectangle, rect, Config, ProgressBarOption, progress_size, progress_padding_x, progress_padding_y,
  progress_complete_color, progress_incomplete_color, progress_full_color, progress_position,
  default_progress_bar_config, applied, configured, plus, minus, times, part, get_rectangle, Draw,
  drawn, draws, add_progress_bar,
}

-- A position that the code knows.
abbrev IsPosition : ℤ → Type 0
IsPosition (pos n) = n ≤ 3
IsPosition (negsuc n) = ⊥

IsPosition-checked :
    (p : ℤ) → (not (ltb_ℤ p (pos 0)) && not (ltb_ℤ (pos 3) p)) ≡ true → IsPosition p
IsPosition-checked (pos n) h = ground arith
IsPosition-checked (negsuc n) h = absurd (ground arith)

applied-IsPosition :
    (option : ProgressBarOption) (c : Config)
    → IsPosition c.position
    → IsPosition (applied option c).position
unfolding applied
applied-IsPosition (progress_size x) c h = h
applied-IsPosition (progress_padding_x x) c h = h
applied-IsPosition (progress_padding_y x) c h = h
applied-IsPosition (progress_complete_color x) c h = h
applied-IsPosition (progress_incomplete_color x) c h = h
applied-IsPosition (progress_full_color x) c h = h
applied-IsPosition (progress_position p) c h =
    elim (Bool-cases (not (ltb_ℤ p (pos 0)) && not (ltb_ℤ (pos 3) p))) [
      | inl e ↦ rw e (IsPosition-checked p e)
      | inr e ↦ rw e h
    ]

configured-IsPosition :
    (options : List ProgressBarOption) (c : Config)
    → IsPosition c.position
    → IsPosition (configured c options).position
unfolding configured
configured-IsPosition [] c h = h
configured-IsPosition (option ∷ options) c h =
    configured-IsPosition options (applied option c) (applied-IsPosition option c h)

plus_exact : (a b : ℕ) → a + b ≤ int64_max → plus (pos a) (pos b) ≡ pos (a + b)
unfolding plus wrap_int64
plus_exact a b h =
    let e : pos a +ℤ pos b ≡ pos (a + b) = ground arith in
    ap wrap_int64 e ∙ to_int64_exact (a + b) h

minus_exact : (a b : ℕ) → b ≤ a → a ≤ int64_max → minus (pos a) (pos b) ≡ pos (a - b)
unfolding minus wrap_int64
minus_exact a b h k =
    let e : pos a -ℤ pos b ≡ pos (a - b) = ground arith in
    ap wrap_int64 e ∙ to_int64_exact (a - b) (omega arith)

times_exact : (a k : ℕ) → a * k ≤ int64_max → times (pos a) k ≡ pos (a * k)
unfolding times wrap_int64
times_exact a k h = to_int64_exact (a * k) h

part_exact :
    (whole padding q : ℕ)
    → whole ≤ 2 ^ 31
    → 2 * padding ≤ whole
    → q ≤ 100
    → part (pos whole) (pos padding) q ≡ pos ((whole - 2 * padding) * q / 100)
unfolding part
part_exact whole padding q h k l =
    let b : (whole - padding * 2) * q ≤ whole * 100 = mul-le-mul (omega (arith, k)) l in
    let e : padding * 2 ≡ 2 * padding = omega arith in
    rw
      (
        times_exact padding 2 (omega arith),
        minus_exact whole (padding * 2) (omega arith) (omega arith),
        times_exact (whole - padding * 2) q (omega arith),
        e,
      )
      refl

part_bound : (n q : ℕ) → q ≤ 100 → n * q / 100 ≤ n
part_bound n q l =
    div-le_of_le-mul 100 (let b : n * q ≤ n * 100 = mul-le-mul_left n l in omega (arith, b))

in_order :
    (a b : ℕ)
    → a ≤ b
    → ((if ltb_ℤ (pos b) (pos a) then pos b else pos a) ≡ pos a)
      × ((if ltb_ℤ (pos b) (pos a) then pos a else pos b) ≡ pos b)
in_order a b h = (ground arith, ground arith)

out_of_order :
    (a b : ℕ)
    → b ≤ a
    → ((if ltb_ℤ (pos b) (pos a) then pos b else pos a) ≡ pos b)
      × ((if ltb_ℤ (pos b) (pos a) then pos a else pos b) ≡ pos a)
out_of_order a b h = (ground arith, ground arith)

rect_down :
    (x0 y0 x1 y1 : ℕ)
    → x0 ≤ x1
    → y1 ≤ y0
    → rect (pos x0) (pos y0) (pos x1) (pos y1)
      ≡ record { min_x = pos x0; min_y = pos y1; max_x = pos x1; max_y = pos y0 }
unfolding rect
rect_down x0 y0 x1 y1 h k =
    let (a, b) = in_order x0 x1 h in let (c, d) = out_of_order y0 y1 k in rw (a, b, c, d) refl

rect_up :
    (x0 y0 x1 y1 : ℕ)
    → x0 ≤ x1
    → y0 ≤ y1
    → rect (pos x0) (pos y0) (pos x1) (pos y1)
      ≡ record { min_x = pos x0; min_y = pos y0; max_x = pos x1; max_y = pos y1 }
unfolding rect
rect_up x0 y0 x1 y1 h k =
    let (a, b) = in_order x0 x1 h in let (c, d) = in_order y0 y1 k in rw (a, b, c, d) refl

-- A bar of the given thickness and paddings fits into the image.
abbrev pub Fits : ℕ → ℕ → ℕ → ℕ → ℕ → Type 0
Fits w h k px py =
    (2 * px ≤ w) × (2 * py ≤ h) × (px + k ≤ w) × (py + k ≤ h) × (w ≤ 2 ^ 31) × (h ≤ 2 ^ 31)

-- Where the bar stands: along its side, from the left or from the bottom, for the given part of the length.
abbrev pub bar : ℕ → ℕ → ℕ → ℕ → ℕ → ℕ → ℤ → Rectangle
bar q w h k px py (pos zero) = record {
  min_x = pos px;
  min_y = pos py;
  max_x = pos (px + (w - 2 * px) * q / 100);
  max_y = pos (py + k);
}
bar q w h k px py (pos (suc zero)) = record {
  min_x = pos (w - px - k);
  min_y = pos (h - py - (h - 2 * py) * q / 100);
  max_x = pos (w - px);
  max_y = pos (h - py);
}
bar q w h k px py (pos (suc (suc zero))) = record {
  min_x = pos px;
  min_y = pos (h - py - k);
  max_x = pos (px + (w - 2 * px) * q / 100);
  max_y = pos (h - py);
}
bar q w h k px py (pos (suc (suc (suc n)))) = record {
  min_x = pos px;
  min_y = pos (h - py - (h - 2 * py) * q / 100);
  max_x = pos (px + k);
  max_y = pos (h - py);
}
bar q w h k px py (negsuc n) = record { min_x = pos 0; min_y = pos 0; max_x = pos 0; max_y = pos 0 }

get_rectangle_exact :
    (q w h k px py : ℕ) (c : Config)
    → q ≤ 100
    → Fits w h k px py
    → c.size ≡ pos k
    → c.padding_x ≡ pos px
    → c.padding_y ≡ pos py
    → (p : ℤ) → IsPosition p
    → get_rectangle q (pos w) (pos h) p c ≡ some (bar q w h k px py p)
unfolding get_rectangle
get_rectangle_exact q w h k px py c l (f, g, i, j, m, n) a b d (pos zero) o =
    let s = part_bound (w - 2 * px) q l in
    rw
      (
        a,
        b,
        d,
        part_exact w px q m f l,
        plus_exact px ((w - 2 * px) * q / 100) (omega (arith, s)),
        plus_exact py k (omega arith),
        rect_up px py (px + (w - 2 * px) * q / 100) (py + k) (omega arith) (omega arith),
      )
      refl
get_rectangle_exact q w h k px py c l (f, g, i, j, m, n) a b d (pos (suc zero)) o =
    let s = part_bound (h - 2 * py) q l in
    rw
      (
        a,
        b,
        d,
        part_exact h py q n g l,
        minus_exact w px (omega arith) (omega arith),
        minus_exact h py (omega arith) (omega arith),
        minus_exact (w - px) k (omega arith) (omega arith),
        minus_exact (h - py) ((h - 2 * py) * q / 100) (omega (arith, s)) (omega arith),
        rect_down (w - px - k) (h - py) (w - px) (h - py - (h - 2 * py) * q / 100) (omega arith)
            (omega arith),
      )
      refl
get_rectangle_exact q w h k px py c l (f, g, i, j, m, n) a b d (pos (suc (suc zero))) o =
    let s = part_bound (w - 2 * px) q l in
    rw
      (
        a,
        b,
        d,
        part_exact w px q m f l,
        plus_exact px ((w - 2 * px) * q / 100) (omega (arith, s)),
        minus_exact h py (omega arith) (omega arith),
        minus_exact (h - py) k (omega arith) (omega arith),
        rect_down px (h - py) (px + (w - 2 * px) * q / 100) (h - py - k) (omega arith)
            (omega arith),
      )
      refl
get_rectangle_exact q w h k px py c l (f, g, i, j, m, n) a b d (pos (suc (suc (suc zero)))) o =
    let s = part_bound (h - 2 * py) q l in
    rw
      (
        a,
        b,
        d,
        part_exact h py q n g l,
        plus_exact px k (omega arith),
        minus_exact h py (omega arith) (omega arith),
        minus_exact (h - py) ((h - 2 * py) * q / 100) (omega (arith, s)) (omega arith),
        rect_down px (h - py) (px + k) (h - py - (h - 2 * py) * q / 100) (omega arith)
            (omega arith),
      )
      refl
get_rectangle_exact q w h k px py c l f a b d (pos (suc (suc (suc (suc n))))) o =
    absurd (omega (arith, o))
get_rectangle_exact q w h k px py c l f a b d (negsuc n) o = elim o [ ]

abbrev pub Within : Rectangle → Rectangle → Type 0
Within r s =
    (s.min_x ≤ℤ r.min_x) × (s.min_y ≤ℤ r.min_y) × (r.max_x ≤ℤ s.max_x) × (r.max_y ≤ℤ s.max_y)

bar-Within :
    (q w h k px py : ℕ) (p : ℤ)
    → q ≤ 100
    → Fits w h k px py
    → Within (bar q w h k px py p) (bar 100 w h k px py p)
bar-Within q w h k px py (pos zero) l f = let s = part_bound (w - 2 * px) q l in omega (arith, s)
bar-Within q w h k px py (pos (suc zero)) l f =
    let s = part_bound (h - 2 * py) q l in omega (arith, s)
bar-Within q w h k px py (pos (suc (suc zero))) l f =
    let s = part_bound (w - 2 * px) q l in omega (arith, s)
bar-Within q w h k px py (pos (suc (suc (suc n)))) l f =
    let s = part_bound (h - 2 * py) q l in omega (arith, s)
bar-Within q w h k px py (negsuc n) l f = omega arith

abbrev pub image : ℕ → ℕ → Rectangle
image w h = record { min_x = pos 0; min_y = pos 0; max_x = pos w; max_y = pos h }

bar-image :
    (w h k px py : ℕ) (p : ℤ) → Fits w h k px py → Within (bar 100 w h k px py p) (image w h)
bar-image w h k px py (pos zero) f = omega arith
bar-image w h k px py (pos (suc zero)) f = omega arith
bar-image w h k px py (pos (suc (suc zero))) f = omega arith
bar-image w h k px py (pos (suc (suc (suc n)))) f = omega arith
bar-image w h k px py (negsuc n) f = omega arith

-- Nothing without a progress, the part over the whole bar, or the whole bar in the colour of the end.
abbrev pub shown : ℕ → Rectangle → Rectangle → Config → List Draw
shown q whole filled c =
    if nat_beq q 0
    then []
    else if ltb q 100
    then record { rectangle = whole; color = c.incomplete_color }
      ∷ record { rectangle = filled; color = c.complete_color }
      ∷ []
    else record { rectangle = whole; color = c.full_color } ∷ []

draws_exact :
    (q w h k px py : ℕ) (c : Config)
    → Fits w h k px py
    → c.size ≡ pos k
    → c.padding_x ≡ pos px
    → c.padding_y ≡ pos py
    → IsPosition c.position
    → draws (pos w) (pos h) q c
      ≡ some (shown q (bar 100 w h k px py c.position) (bar q w h k px py c.position) c)
unfolding draws
draws_exact q w h k px py c f a b d o =
    let g = get_rectangle_exact 100 w h k px py c (omega arith) f a b d c.position o in
    elim (Bool-cases (ltb q 100)) [
      | inl e ↦
          let l : q ≤ 100 = ground arith in
          let r = get_rectangle_exact q w h k px py c l f a b d c.position o in
          rw (e, g, r) (unfold drawn in ground arith)
      | inr e ↦ rw (e, g) (unfold drawn in ground arith)
    ]

shown-Within :
    (q w h k px py : ℕ) (c : Config)
    → Fits w h k px py
    → All
        (λ d. Within d.rectangle (bar 100 w h k px py c.position))
        (shown q (bar 100 w h k px py c.position) (bar q w h k px py c.position) c)
shown-Within q w h k px py c f =
    let P = All (λ (d : Draw). Within d.rectangle (bar 100 w h k px py c.position)) in
    let whole = bar-Within 100 w h k px py c.position (omega arith) f in
    if-both P (nat_beq q 0) (λ e. tt)
      (λ e.
        if-both P (ltb q 100)
          (λ b. (whole, (bar-Within q w h k px py c.position (ground arith) f, tt)))
          (λ b. (whole, tt)))

-- On an image into which a bar of the chosen size and paddings fits, whatever the options and the progress: nothing is
-- drawn for no progress, the whole bar in the colour of the end from 100 on, and otherwise the whole bar and over it
-- its part of the progress' hundredths. What is drawn lies within the whole bar, the bar lies within the image, and no
-- choice of a position makes the code panic.
pub add_progress_bar_exact :
    (q w h k px py : ℕ) (options : List ProgressBarOption)
    → Fits w h k px py
    → (configured default_progress_bar_config options).size ≡ pos k
    → (configured default_progress_bar_config options).padding_x ≡ pos px
    → (configured default_progress_bar_config options).padding_y ≡ pos py
    → let c = configured default_progress_bar_config options in
      let whole = bar 100 w h k px py c.position in
      let drawings = shown q whole (bar q w h k px py c.position) c in
      (add_progress_bar (some (pos w, pos h)) q options ≡ some drawings)
      × All (λ d. Within d.rectangle whole) drawings
      × Within whole (image w h)
unfolding add_progress_bar
add_progress_bar_exact q w h k px py options f a b d =
    let c = configured default_progress_bar_config options in
    let o = configured-IsPosition options default_progress_bar_config (omega arith) in
    (
      draws_exact q w h k px py c f a b d o,
      shown-Within q w h k px py c f,
      bar-image w h k px py c.position f,
    )
