-- ===== src/Watcher/Inotify/Buffer.antt =====
-- The buffer of `readInotifyEvents` in pkg/fswatcher/driver_inotify.go: a sequence of inotify_event structures, each
-- followed by its name and zeros. The numbers are those of a little-endian machine.
pub mod RoundTrip
use godlna.Base.{
  ℕ, zero, suc, ◌+◌, ◌-◌, ◌*◌, ◌/◌, ◌%◌, ◌^◌, ◌≤◌, ◌<◌, Text, List, [], ◌∷◌, ◌++◌, Bool, true,
  false, ltb, nat_beq, nat_beq_iff, if◌then◌else◌, take, drop, length, ◌≡◌, ◌≢◌, refl, sym, ap, ◌∙◌,
  arith, length-append, take-append, drop-append, Lacks, All,
}

pub record RawEvent : Type 0 where
  pub wd : ℕ
  pub mask : ℕ
  pub cookie : ℕ
  pub name : Text

abbrev pub sizeof_inotify_event : ℕ
sizeof_inotify_event = 16

-- The number in the first four bytes, the lowest first.
unfoldable pub read_u32 : Text → ℕ
read_u32 [] = 0
read_u32 (a ∷ []) = a
read_u32 (a ∷ b ∷ []) = a + 256 * b
read_u32 (a ∷ b ∷ c ∷ []) = a + 256 * b + 65536 * c
read_u32 (a ∷ b ∷ c ∷ d ∷ rest) = a + 256 * b + 65536 * c + 16777216 * d

-- The bytes before the first zero; none if there is no zero.
before_zero : Text → Text → Text
before_zero seen [] = []
before_zero seen (c ∷ s) = if nat_beq c 0 then seen else before_zero (seen ++ c ∷ []) s

unfoldable pub name_of : Text → Text
unfolding before_zero
name_of s = before_zero [] s

-- The loop over the buffer, which shortens it by sixteen bytes at least in each round, so its length is enough fuel.
unfoldable pub parse_loop : ℕ → Text → List RawEvent
unfolding read_u32 name_of
parse_loop zero buffer = []
parse_loop (suc fuel) buffer =
    let len = read_u32 (drop 12 buffer) in
    let rest = drop sizeof_inotify_event buffer in
    let later = parse_loop fuel (drop len rest) in
    if ltb (length buffer) sizeof_inotify_event
    then []
    else record {
      wd = read_u32 buffer;
      mask = read_u32 (drop 4 buffer);
      cookie = read_u32 (drop 8 buffer);
      name = name_of (take len rest);
    }
      ∷ later

unfoldable pub parse_events : Text → List RawEvent
unfolding parse_loop
parse_events buffer = parse_loop (length buffer) buffer

-- What the kernel writes: four numbers, and the name with one zero and more.
unfoldable pub u32 : ℕ → Text
u32 n = n % 256 ∷ n / 256 % 256 ∷ n / 65536 % 256 ∷ n / 16777216 % 256 ∷ []

zeros : ℕ → Text
zeros zero = []
zeros (suc n) = 0 ∷ zeros n

-- Without a name there is nothing after the numbers.
unfoldable pub encode_name : Text → ℕ → Text
unfolding zeros
encode_name [] pad = []
encode_name (c ∷ name) pad = (c ∷ name) ++ 0 ∷ zeros pad

unfoldable pub encode : RawEvent → ℕ → Text
unfolding u32 encode_name
encode e pad =
    let name = encode_name e.name pad in
    u32 e.wd ++ (u32 e.mask ++ (u32 e.cookie ++ (u32 (length name) ++ name)))

unfoldable pub encode_all : List (RawEvent × ℕ) → Text
unfolding encode
encode_all [] = []
encode_all ((e, pad) ∷ es) = encode e pad ++ encode_all es
