-- ===== src/Watcher/Inotify/Buffer/RoundTrip.antt =====
-- The buffer of driver_inotify.go: what the kernel wrote is read back.
use godlna.Base.{
  ℕ, zero, suc, ◌≤◌, ◌<◌, Text, List, [], ◌∷◌, ◌++◌, nat_beq_iff, length, ◌≡◌, refl, sym, ap, ◌∙◌,
  arith, length-append, take-append, drop-append, Lacks, All,
}
use mathlib.Core.List.{append-nil, append_assoc}
use godlna.Watcher.Inotify.Buffer.{
  RawEvent, read_u32, before_zero, name_of, parse_loop, parse_events, u32, zeros, encode_name,
  encode, encode_all,
}

read_u32-u32 : (n : ℕ) (rest : Text) → n < 4294967296 → read_u32 (u32 n ++ rest) ≡ n
unfolding read_u32 u32
read_u32-u32 n rest h = omega (arith, h)

before_zero-name :
    (seen name rest : Text) → Lacks 0 name → before_zero seen (name ++ 0 ∷ rest) ≡ seen ++ name
unfolding before_zero
before_zero-name seen [] rest l = sym (append-nil seen)
before_zero-name seen (c ∷ name) rest (h, l) = ground (
  arith,
  nat_beq_iff c 0,
  h,
  before_zero-name (seen ++ c ∷ []) name rest l,
  append_assoc seen (c ∷ []) name,
)

name_of-encode_name : (name : Text) (pad : ℕ) → Lacks 0 name → name_of (encode_name name pad) ≡ name
unfolding name_of encode_name
name_of-encode_name [] pad l = unfold before_zero in refl
name_of-encode_name (c ∷ name) pad l = before_zero-name [] (c ∷ name) (zeros pad) l

-- The numbers fit 32 bits, the last being the length of the name, and the name has no zero in it.
abbrev pub IsWritten : RawEvent × ℕ → Type 0
IsWritten (e, pad) =
    (e.wd < 4294967296)
    × (e.mask < 4294967296)
    × (e.cookie < 4294967296)
    × (length (encode_name e.name pad) < 4294967296)
    × Lacks 0 e.name

-- One round on the four numbers and the name.
parse_loop_round :
    (fuel wd mask cookie len : ℕ) (name rest : Text)
    → wd < 4294967296
    → mask < 4294967296
    → cookie < 4294967296
    → len < 4294967296
    → len ≡ length name
    → parse_loop (suc fuel) (u32 wd ++ (u32 mask ++ (u32 cookie ++ (u32 len ++ (name ++ rest)))))
      ≡ record { wd = wd; mask = mask; cookie = cookie; name = name_of name } ∷ parse_loop fuel rest
unfolding parse_loop u32
parse_loop_round fuel wd mask cookie len name rest a b c d e =
    rw
      (
        read_u32-u32 wd (u32 mask ++ (u32 cookie ++ (u32 len ++ (name ++ rest)))) a,
        read_u32-u32 mask (u32 cookie ++ (u32 len ++ (name ++ rest))) b,
        read_u32-u32 cookie (u32 len ++ (name ++ rest)) c,
        read_u32-u32 len (name ++ rest) d,
        e,
        take-append name rest,
        drop-append name rest,
      )
      (ground arith)

encode-append :
    (e : RawEvent) (pad : ℕ) (rest : Text)
    → encode e pad ++ rest
      ≡ u32 e.wd
        ++ (u32 e.mask
            ++ (u32 e.cookie
                ++ (u32 (length (encode_name e.name pad)) ++ (encode_name e.name pad ++ rest))))
unfolding encode u32
encode-append e pad rest = refl

abbrev pub firsts : List (RawEvent × ℕ) → List RawEvent
firsts [] = []
firsts ((e, pad) ∷ es) = e ∷ firsts es

parse_loop_end : (fuel : ℕ) → parse_loop fuel [] ≡ []
unfolding parse_loop
parse_loop_end zero = refl
parse_loop_end (suc fuel) = ground arith

parse_loop-encode_all :
    (fuel : ℕ) (es : List (RawEvent × ℕ))
    → All IsWritten es
    → length es ≤ fuel
    → parse_loop fuel (encode_all es) ≡ firsts es
unfolding encode_all
parse_loop-encode_all fuel [] w h = parse_loop_end fuel
parse_loop-encode_all zero ((e, pad) ∷ es) w h = absurd (omega (arith, h))
parse_loop-encode_all (suc fuel) ((e, pad) ∷ es) ((a, b, c, d, l), w) h =
    ap (parse_loop (suc fuel)) (encode-append e pad (encode_all es))
    ∙ parse_loop_round fuel e.wd e.mask e.cookie _ (encode_name e.name pad) (encode_all es) a b c d
        refl
    ∙ rw (name_of-encode_name e.name pad l, parse_loop-encode_all fuel es w (omega (arith, h))) refl

length-encode_all : (es : List (RawEvent × ℕ)) → length es ≤ length (encode_all es)
unfolding encode_all encode u32
length-encode_all [] = omega arith
length-encode_all ((e, pad) ∷ es) =
    omega (arith, length-encode_all es, length-append (encode_name e.name pad) (encode_all es))

-- A buffer of whole events, as many as there may be, whose numbers fit 32 bits and whose names hold no zero byte, is
-- read back as those events, whatever number of zeros pads each name.
pub parse_events-encode_all :
    (es : List (RawEvent × ℕ)) → All IsWritten es → parse_events (encode_all es) ≡ firsts es
unfolding parse_events
parse_events-encode_all es w =
    parse_loop-encode_all (length (encode_all es)) es w (length-encode_all es)
