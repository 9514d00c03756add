-- ===== src/Backend/Caches/Videos.antt =====
-- video_info.go: what a video was found to hold is read from the cache file as long as the video stays as it is.
use godlna.Base.{
  Text, Option, none, some, Bool, true, false, ◌&&◌, ℤ, pos, dir_name, ◌≡◌, ◌≢◌, ◌⊎◌, inl, inr,
  refl, sym, ap, ◌∙◌, arith, Bool-cases,
}
use godlna.Backend.Object.{VideoInfo, int_beq, int_beq_iff}
use godlna.Backend.Files.{ignore_fn, video_info_cache_file, ignore_fn_own_files}
use godlna.Media.Probe.{Data, Stream, first_video_stream, first_audio_stream}
use godlna.Backend.Caches.{
  Disk, Codec, content, found, read_info, write_in_dir, write_info, info_of, parse_video_file,
  keep_info, cached_info, with_stat, get_video_info,
}
use godlna.Backend.Caches.Laws.{IsDisk}

-- The size and the time that an entry is of.
abbrev IsOf : ℤ → ℤ → VideoInfo → Type 0
IsOf size time info = (info.file_size ≡ size) × (info.date ≡ time)

abbrev size_of : Option VideoInfo → ℤ
size_of none = pos 0
size_of (some info) = info.file_size

abbrev date_of : Option VideoInfo → ℤ
date_of none = pos 0
date_of (some info) = info.date

info_of-IsOf :
    (d : Data) (v a : Option Stream) (size time : ℤ) (info : VideoInfo)
    → info_of d v a size time ≡ some info
    → IsOf size time info
unfolding info_of
info_of-IsOf d none a size time info h = absurd (cc)
info_of-IsOf d (some v) none size time info h = absurd (cc)
info_of-IsOf d (some v) (some a) size time info h = (sym (ap size_of h), sym (ap date_of h))

parse-IsOf :
    (d : Option Data) (size time : ℤ) (info : VideoInfo)
    → parse_video_file d size time ≡ some info
    → IsOf size time info
unfolding parse_video_file
parse-IsOf none size time info h = absurd (cc)
parse-IsOf (some d) size time info h =
    info_of-IsOf d (first_video_stream d) (first_audio_stream d) size time info h

stored :
    {F : Type 0} (disk : Disk F)
    → IsDisk disk
    → (p : F × Bool) (file other body : Text) (size time : ℤ) → file ≢ other
    → disk.stat p.0 other ≡ found false size time
    → (write_in_dir disk p file body).1 ≡ true
    → (disk.stat (write_in_dir disk p file body).0 other ≡ found false size time)
      × (disk.read_file (write_in_dir disk p file body).0 file ≡ content body)
unfolding write_in_dir
stored disk d (f, false) file other body size time n s h = absurd (cc)
stored disk d (f, true) file other body size time n s h =
    (d.stat_written f file other body size time n s, d.read_written f file body h)

cache_apart :
    (video_file : Text)
    → ignore_fn video_file false ≡ false
    → video_info_cache_file video_file ≢ video_file
cache_apart video_file h e =
    let (_, _, i) = ignore_fn_own_files video_file false in
    let j = ap (λ t. ignore_fn t false) e in absurd (cc)

hit :
    {F : Type 0} (codec : Codec) (disk : Disk F) (probe : Text → Option Data) (f : F) (v : Text)
    (size time : ℤ) (info : VideoInfo)
    → disk.stat f v ≡ found false size time
    → read_info codec (disk.read_file f (video_info_cache_file v)) ≡ some info
    → IsOf size time info
    → get_video_info codec disk probe f v ≡ (f, some info)
unfolding get_video_info with_stat
hit codec disk probe f v size time info s r (a, b) =
    rw (s, r)
      (unfold cached_info in
        rw ((int_beq_iff info.file_size size).1 a, (int_beq_iff info.date time).1 b) refl)

-- Where the first result comes from: the cache, or the video, whose entry is then written.
Source : {F : Type 0} → Codec → Disk F → F → Text → ℤ → ℤ → VideoInfo → F → Type 0
Source codec disk f v size time info f' =
    ((f' ≡ f)
      × (read_info codec (disk.read_file f (video_info_cache_file v)) ≡ some info)
      × IsOf size time info)
    ⊎ ((f' ≡ (write_info codec disk f (video_info_cache_file v) info).0) × IsOf size time info)

kept-Source :
    {F : Type 0} (codec : Codec) (disk : Disk F) (d : Option Data) (f : F) (v : Text)
    (size time : ℤ) (info : VideoInfo) (parsed : Option VideoInfo)
    → parse_video_file d size time ≡ parsed
    → (keep_info codec disk f (video_info_cache_file v) parsed).1 ≡ some info
    → Source codec disk f v size time info
        (keep_info codec disk f (video_info_cache_file v) parsed).0
unfolding Source keep_info
kept-Source codec disk d f v size time info none p h = absurd (cc)
kept-Source codec disk d f v size time info (some x) p h =
    let e : x ≡ info = cc in inr (rw e refl, parse-IsOf d size time info (p ∙ h))

cached-Source :
    {F : Type 0} (codec : Codec) (disk : Disk F) (probe : Text → Option Data) (f : F) (v : Text)
    (size time : ℤ) (info : VideoInfo) (cached : Option VideoInfo)
    → read_info codec (disk.read_file f (video_info_cache_file v)) ≡ cached
    → (cached_info codec disk probe f v cached size time).1 ≡ some info
    → Source codec disk f v size time info (cached_info codec disk probe f v cached size time).0
unfolding cached_info Source
cached-Source codec disk probe f v size time info none r h =
    kept-Source codec disk (probe v) f v size time info _ refl h
cached-Source codec disk probe f v size time info (some x) r h =
    elim (Bool-cases (int_beq x.file_size size && int_beq x.date time)) [
      | inl e ↦
          let q : some x ≡ some info = rw e at h in
          let s : int_beq x.file_size size ≡ true = ground (arith, e) in
          let t : int_beq x.date time ≡ true = ground (arith, e) in
          rw e (
            inl (
              refl,
              r ∙ q,
              (
                sym (ap size_of q) ∙ (int_beq_iff x.file_size size).0 s,
                sym (ap date_of q) ∙ (int_beq_iff x.date time).0 t,
              ),
            ))
      | inr e ↦ rw e (kept-Source codec disk (probe v) f v size time info _ refl (rw e at h))
    ]

get_video_info-Source :
    {F : Type 0} (codec : Codec) (disk : Disk F) (probe : Text → Option Data) (f : F) (v : Text)
    (size time : ℤ) (info : VideoInfo)
    → disk.stat f v ≡ found false size time
    → (get_video_info codec disk probe f v).1 ≡ some info
    → Source codec disk f v size time info (get_video_info codec disk probe f v).0
unfolding get_video_info with_stat
get_video_info-Source codec disk probe f v size time info s h =
    rw s (cached-Source codec disk probe f v size time info _ refl (rw s at h))

written :
    {F : Type 0} (codec : Codec) (disk : Disk F) (probe : Text → Option Data) (f : F) (v : Text)
    (size time : ℤ) (info : VideoInfo)
    → codec.unmarshal (codec.marshal info) ≡ some info
    → IsDisk disk
    → video_info_cache_file v ≢ v
    → disk.stat f v ≡ found false size time
    → (write_info codec disk f (video_info_cache_file v) info).1 ≡ true
    → IsOf size time info
    → let f' = (write_info codec disk f (video_info_cache_file v) info).0 in
      get_video_info codec disk probe f' v ≡ (f', some info)
unfolding write_info
written codec disk probe f v size time info c d n s w o =
    let cache = video_info_cache_file v in
    let dir = dir_name cache in
    let (st, re) =
      stored disk d (disk.mkdir_all f dir) cache v (codec.marshal info) size time n
        (d.stat_made f dir v size time s) w in
    hit codec disk probe _ v size time info st (rw re (unfold read_info in c)) o

-- An indexed video, not a directory, on a disk that keeps the laws: what is given once, can be stored, and is what the
-- codec reads back, is given again without a look into the video, whatever its content is then taken for.
pub get_video_info_cached :
    {F : Type 0} (codec : Codec) (disk : Disk F) (probe probe' : Text → Option Data) (f : F)
    (video_file : Text) (size time : ℤ) (info : VideoInfo)
    → codec.unmarshal (codec.marshal info) ≡ some info
    → IsDisk disk
    → ignore_fn video_file false ≡ false
    → disk.stat f video_file ≡ found false size time
    → (get_video_info codec disk probe f video_file).1 ≡ some info
    → (write_info codec disk f (video_info_cache_file video_file) info).1 ≡ true
    → let f' = (get_video_info codec disk probe f video_file).0 in
      get_video_info codec disk probe' f' video_file ≡ (f', some info)
unfolding Source
get_video_info_cached codec disk probe probe' f v size time info c d i s h w =
    elim (get_video_info-Source codec disk probe f v size time info s h) [
      | inl (e, r, o) ↦ rw e (hit codec disk probe' f v size time info s r o)
      | inr (e, o) ↦ rw e (written codec disk probe' f v size time info c d (cache_apart v i) s w o)
    ]
