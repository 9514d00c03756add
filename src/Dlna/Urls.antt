-- ===== src/Dlna/Urls.antt =====
-- dlna/server.go and content_directory_controller.go: the URLs that a client is shown lead back to the object.
use godlna.Base.{
  ℕ, ◌≤◌, Text, codes, text_beq, has_prefix, has_byte, List, [], ◌∷◌, ◌++◌, true, false, ◌≡◌, ◌≢◌,
  inl, inr, Bool-cases, refl, sym, ap, arith, pos, int64_max, decimal, decimal-cons,
  decimal-AllDigits, is_digit, All-mono, Lacks, parse_int-decimal, ext, ext_of_name,
  without_ext_of_name, has_byte-ext, text_beq_iff,
}
use godlna.Backend.Object.{Object, thumb_path}
use godlna.Backend.Filter.{DatabaseDriver}
use godlna.Backend.Service.{ok, object}
use godlna.Soap.Response.{Call, statuses, serve_file}
use godlna.Dlna.Entries.{thumb_url, video_url}
use godlna.Dlna.Content.{content_by_number, serve_found, serve_object, handle_content_url}
use godlna.Dlna.Routes.{content, route, below, is_segment, content_or_index}

decimal-Lacks : (b n : ℕ) → is_digit b ≡ false → Lacks b (decimal n)
decimal-Lacks b n h =
    All-mono (decimal n) (λ c d e. ground (arith, ap is_digit e, d, h)) (decimal-AllDigits n)

has_byte-digits :
    (s e : Text) → Lacks b'/' s → has_byte b'/' e ≡ false → has_byte b'/' (s ++ e) ≡ false
unfolding has_byte
has_byte-digits [] e l h = h
has_byte-digits (c ∷ s) e (g, l) h = ground (arith, has_byte-digits s e l h)

is_segment-number :
    (n : ℕ) (e : Text) → has_byte b'/' e ≡ false → is_segment (decimal n ++ e) ≡ true
unfolding is_segment
is_segment-number n e h =
    let (c, s, f, d) = decimal-cons n in
    ground (
      arith,
      has_byte-digits (decimal n) e (decimal-Lacks b'/' n refl) h,
      text_beq_iff (decimal n ++ e) [],
      f,
    )

route-video :
    (n : ℕ) (e : Text)
    → has_byte b'/' e ≡ false
    → route (codes "/ct/v/" ++ (decimal n ++ e)) ≡ content (decimal n ++ e)
unfolding route below has_prefix text_beq
route-video n e h = rw (is_segment-number n e h, content_or_index) refl

route-thumb :
    (n : ℕ)
    → route (codes "/ct/t/" ++ (decimal n ++ codes ".jpg")) ≡ content (decimal n ++ codes ".jpg")
unfolding route below has_prefix text_beq
route-thumb n =
    rw (is_segment-number n (codes ".jpg") (unfold has_byte in refl), content_or_index) refl

-- The answer is the file, with no status of its own.
abbrev pub IsServed : Text → List Call → Type 0
IsServed path cs =
    (statuses cs ≡ []) × ((before : List Call) × (cs ≡ before ++ serve_file path ∷ []))

module _ {S : Type 0} (drv : DatabaseDriver S) (s : S) (o : Object) where
  content-number :
      (p : Text)
      → o.id ≤ int64_max
      → object drv s (pos o.id) ≡ ok o
      → handle_content_url drv s (decimal o.id ++ ext p) ≡ serve_object (ext p) o
  unfolding handle_content_url
  content-number p b h =
      let l = decimal-Lacks b'.' o.id refl in
      let m = decimal-Lacks b'/' o.id refl in
      rw
        (
          ext_of_name (decimal o.id) p l m,
          without_ext_of_name (decimal o.id) p l m,
          parse_int-decimal o.id b,
        )
        (unfold content_by_number in rw h (unfold serve_found in refl))

  serve_video : (e : Text) → e ≢ codes ".jpg" → IsServed o.path (serve_object e o)
  unfolding serve_object
  serve_video e n = elim (Bool-cases (text_beq e (codes ".jpg"))) [
    | inl b ↦ absurd (n ((text_beq_iff e (codes ".jpg")).0 b))
    | inr b ↦ rw b (refl, (_ ∷ _ ∷ _ ∷ _ ∷ [], refl))
  ]

  serve_thumb : IsServed (thumb_path o) (serve_object (codes ".jpg") o)
  unfolding serve_object text_beq
  serve_thumb = (refl, (_ ∷ _ ∷ _ ∷ _ ∷ [], refl))

  content_thumb :
      o.id ≤ int64_max
      → object drv s (pos o.id) ≡ ok o
      → handle_content_url drv s (decimal o.id ++ codes ".jpg") ≡ serve_object (codes ".jpg") o
  content_thumb b h = jpg (unfold ext has_byte in refl)
    where
      jpg :
          ext (codes "a.jpg") ≡ codes ".jpg"
          → handle_content_url drv s (decimal o.id ++ codes ".jpg") ≡ serve_object (codes ".jpg") o
      jpg e = rw (sym e) (content-number (codes "a.jpg") b h)

  -- The two URLs in the entry of a video, less the host, are routed to HandleContentURL, which answers the first with
  -- the file of the object and the second with its thumbnail; for an object that is found by its number, the number
  -- an int64, and whose file is no .jpg.
  pub urls-handle_content_url :
      (host : Text)
      → o.id ≤ int64_max
      → object drv s (pos o.id) ≡ ok o
      → ext o.path ≢ codes ".jpg"
      → (v : Text) × (x : Text) × (t : Text) × (y : Text) × (video_url host o
          ≡ codes "http://" ++ (host ++ v))
        × (route v ≡ content x)
        × (IsServed o.path (handle_content_url drv s x))
        × (thumb_url host o.id ≡ codes "http://" ++ (host ++ t))
        × (route t ≡ content y)
        × (IsServed (thumb_path o) (handle_content_url drv s y))
  urls-handle_content_url host b h n =
      let v = serve_video (ext o.path) n in
      let y = serve_thumb in
      (
        codes "/ct/v/" ++ (decimal o.id ++ ext o.path),
        decimal o.id ++ ext o.path,
        codes "/ct/t/" ++ (decimal o.id ++ codes ".jpg"),
        decimal o.id ++ codes ".jpg",
        unfold video_url in refl,
        route-video o.id (ext o.path) (has_byte-ext o.path),
        rw (content-number o.path b h) v,
        unfold thumb_url in refl,
        route-thumb o.id,
        rw (content_thumb b h) y,
      )
