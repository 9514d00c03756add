-- ===== src/Backend/Object.antt =====
-- The data of dlna/backend/backend.go and video_info.go. Go's int and int64 fields are integers; a
-- NullInt64 or NullTime is an option.
use godlna.Base.{
  ℕ, Text, [], ◌++◌, Option, none, some, Bool, true, false, ◌≡◌, refl, arith, ℤ, pos, negsuc,
  nat_beq, base_name, without_ext, without_ext-append, ext, ◌↔◌, ◌⊎◌, inl, inr,
}
use godlna.Backend.Files.{thumbnail_file}

pub data ObjectType : Type 0 where
  folder video : ObjectType

pub record Object : Type 0 where
  pub id : ℕ
  pub path : Text
  pub typ : ObjectType
  pub format : Text
  pub file_size : ℤ
  pub video_codec : Text
  pub audio_codec : Text
  pub width : ℤ
  pub height : ℤ
  pub channels : ℤ
  pub bitrate : ℤ
  pub frequency : ℤ
  pub duration : ℤ
  pub bookmark : Option ℤ
  pub date : ℤ
  pub online : Bool
  pub reindex_at : Option ℤ

pub record VideoInfo : Type 0 where
  pub format : Text
  pub file_size : ℤ
  pub video_codec : Text
  pub audio_codec : Text
  pub width : ℤ
  pub height : ℤ
  pub channels : ℤ
  pub bitrate : ℤ
  pub frequency : ℤ
  pub duration : ℤ
  pub date : ℤ

unfoldable pub int_beq : ℤ → ℤ → Bool
int_beq (pos a) (pos b) = nat_beq a b
int_beq (negsuc a) (negsuc b) = nat_beq a b
int_beq (pos a) (negsuc b) = false
int_beq (negsuc a) (pos b) = false

pub int_beq_iff : (a b : ℤ) → (int_beq a b ≡ true) ↔ (a ≡ b)
unfolding int_beq
int_beq_iff (pos a) (pos b) = (λ h. ground arith, λ h. ground arith)
int_beq_iff (negsuc a) (negsuc b) = (λ h. ground arith, λ h. ground arith)
int_beq_iff (pos a) (negsuc b) = (λ h. cc, λ h. cc)
int_beq_iff (negsuc a) (pos b) = (λ h. cc, λ h. cc)

unfoldable pub option_beq : Option ℤ → Option ℤ → Bool
unfolding int_beq
option_beq none none = true
option_beq none (some b) = false
option_beq (some a) none = false
option_beq (some a) (some b) = int_beq a b

pub option_beq_iff : (a b : Option ℤ) → (option_beq a b ≡ true) ↔ (a ≡ b)
unfolding option_beq
option_beq_iff none none = (λ h. refl, λ h. refl)
option_beq_iff none (some b) = (λ h. cc, λ h. cc)
option_beq_iff (some a) none = (λ h. cc, λ h. cc)
option_beq_iff (some a) (some b) =
    (λ h. ground (arith, int_beq_iff a b), λ h. ground (arith, int_beq_iff a b))

thumb_path_of : ObjectType → Text → Text
thumb_path_of folder p = []
thumb_path_of video p = thumbnail_file p

unfoldable pub thumb_path : Object → Text
unfolding thumb_path_of
thumb_path o = thumb_path_of o.typ o.path

title_of : ObjectType → Text → Text
title_of folder filename = filename
title_of video filename = without_ext filename

unfoldable pub title : Object → Text
unfolding title_of
title o = title_of o.typ (base_name o.path)

-- The title of a video, followed by the extension of its file name, is the file name; that of a folder is the whole
-- name.
pub title-base_name :
    (o : Object)
    → ((o.typ ≡ video) × (title o ++ ext (base_name o.path) ≡ base_name o.path))
      ⊎ ((o.typ ≡ folder) × (title o ≡ base_name o.path))
unfolding title
title-base_name o = by_type o.typ refl
  where
    by_type :
        (t : ObjectType)
        → o.typ ≡ t
        → ((o.typ ≡ video)
            × (title_of o.typ (base_name o.path) ++ ext (base_name o.path) ≡ base_name o.path))
          ⊎ ((o.typ ≡ folder) × (title_of o.typ (base_name o.path) ≡ base_name o.path))
    by_type folder e = inr (e, rw e refl)
    by_type video e = inl (e, rw e (without_ext-append (base_name o.path)))
