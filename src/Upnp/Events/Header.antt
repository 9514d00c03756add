-- ===== src/Upnp/Events/Header.antt =====
-- pkg/upnp/events/helpers.go: the TIMEOUT and CALLBACK headers of a subscription.
use mathlib.Core.List.{append_assoc, append-nil}
use godlna.Base.{
  ℕ, ◌+◌, ◌*◌, ◌/◌, ◌≤◌, ◌<◌, Text, codes, has_prefix, drop, length, text_beq, nat_beq, List, [],
  ◌∷◌, ◌++◌, Option, none, some, Bool, true, false, not, if◌then◌else◌, ◌≡◌, ◌≢◌, refl, ℤ, pos,
  negsuc, ◌+ℤ◌, ◌-ℤ◌, ◌<ℤ◌, to_int64, to_int64_exact, parse_int, ltb, arith, decimal, All, Lacks,
  parse_int-decimal, has_prefix-append, drop-append, ◌∙◌, ap, text_beq_iff,
}

abbrev pub second : ℕ
second = 1_000_000_000

abbrev pub default_subscribe_timeout : ℤ
default_subscribe_timeout = pos (5 * 60 * second)

-- `time.Duration(val) * time.Second` for a positive val, in int64.
timeout_duration : Option ℤ → ℤ
timeout_duration none = default_subscribe_timeout
timeout_duration (some (negsuc n)) = default_subscribe_timeout
timeout_duration (some (pos n)) =
    if ltb 0 n then to_int64 (n * second) else default_subscribe_timeout

-- The time when the subscription ends.
unfoldable pub parse_timeout_header : ℤ → Text → ℤ
unfolding timeout_duration
parse_timeout_header now timeout =
    if not (has_prefix (codes "Second-") timeout)
    then now +ℤ default_subscribe_timeout
    else now +ℤ timeout_duration (parse_int (drop (length (codes "Second-")) timeout))

-- `int(time.Until(tm).Seconds())`: whole seconds, towards zero.
unfoldable pub until_seconds : ℤ → ℤ → ℤ
until_seconds tm now = elim (tm -ℤ now) [
  | pos n ↦ pos (n / second)
  | negsuc n ↦ if nat_beq ((n + 1) / second) 0 then pos 0 else pos 0 -ℤ pos ((n + 1) / second)
]

-- The matches of `<([^<>]+)>`, from the left: the second argument is what follows an open bracket.
matches : Text → Option Text → List Text
matches [] _ = []
matches (c ∷ s) none = matches s (if nat_beq c b'<' then some [] else none)
matches (c ∷ s) (some []) =
    matches s (if nat_beq c b'<' then some [] else if nat_beq c b'>' then none else some (c ∷ []))
matches (c ∷ s) (some (d ∷ m)) = elim (nat_beq c b'>') [
  | true ↦ (d ∷ m) ∷ matches s none
  | false ↦ matches s (if nat_beq c b'<' then some [] else some (d ∷ (m ++ c ∷ [])))
]

-- The URLs up to the first that does not parse, and whether there is one.
parse_all : (Text → Option Text) → List Text → List Text × Bool
parse_all parse_url [] = ([], false)
parse_all parse_url (t ∷ ts) =
    let (urls, failed) = parse_all parse_url ts in
    elim (parse_url t) [ none ↦ ([], true) | some u ↦ (u ∷ urls, failed) ]

unfoldable pub parse_callback_header : (Text → Option Text) → Text → List Text × Bool
unfolding matches parse_all
parse_callback_header parse_url callback =
    if text_beq callback [] then ([], true) else parse_all parse_url (matches callback none)

-- A whole number of seconds that a duration can hold, from 1 to 9223372036, ends the subscription that many seconds
-- from now.
pub parse_timeout_header_exact :
    (now : ℤ) (n : ℕ)
    → 0 < n
    → n ≤ 9_223_372_036
    → parse_timeout_header now (codes "Second-" ++ decimal n) ≡ now +ℤ pos (n * second)
unfolding parse_timeout_header
parse_timeout_header_exact now n h k = ground (
  arith,
  has_prefix-append (codes "Second-") (decimal n),
  parse_int-decimal n,
  drop-append (codes "Second-") (decimal n),
  to_int64_exact (n * second),
)

-- Between 9223372037 and 18446744073 seconds the duration wraps to a negative one: the subscription that was asked
-- for has run out before it starts.
pub parse_timeout_header_wraps :
    (now : ℤ) (n : ℕ)
    → 9_223_372_037 ≤ n
    → n ≤ 18_446_744_073
    → parse_timeout_header now (codes "Second-" ++ decimal n) <ℤ now
unfolding parse_timeout_header to_int64
parse_timeout_header_wraps now n h k = ground (
  arith,
  has_prefix-append (codes "Second-") (decimal n),
  parse_int-decimal n,
  drop-append (codes "Second-") (decimal n),
)

abbrev pub IsPlainUrl : Text → Type 0
IsPlainUrl u = (u ≢ []) × Lacks b'<' u × Lacks b'>' u

-- The header that lists URLs: each in angle brackets.
abbrev pub bracketed : List Text → Text
bracketed [] = []
bracketed (u ∷ us) = b'<' ∷ (u ++ b'>' ∷ bracketed us)

matches_inside :
    (d : ℕ) (m s rest : Text)
    → Lacks b'<' s
    → Lacks b'>' s
    → matches (s ++ b'>' ∷ rest) (some (d ∷ m)) ≡ (d ∷ (m ++ s)) ∷ matches rest none
unfolding matches
matches_inside d m [] rest _ _ = rw append-nil refl
matches_inside d m (c ∷ s) rest (l, ls) (g, gs) =
    ground (arith, matches_inside d (m ++ c ∷ []) s rest ls gs, append_assoc m (c ∷ []) s)

matches_one :
    (u rest : Text)
    → IsPlainUrl u
    → matches (b'<' ∷ (u ++ b'>' ∷ rest)) none ≡ u ∷ matches rest none
matches_one [] rest h = absurd (h.0 refl)
matches_one (c ∷ u) rest (n, (l, ls), (g, gs)) =
    unfold matches in ground (arith, matches_inside c [] u rest ls gs)

matches-bracketed : (us : List Text) → All IsPlainUrl us → matches (bracketed us) none ≡ us
matches-bracketed [] _ = unfold matches in refl
matches-bracketed (u ∷ us) (h, hs) =
    matches_one u (bracketed us) h ∙ ap (◌∷◌ u) (matches-bracketed us hs)

parse_all_of_some :
    (parse_url : Text → Option Text) (us : List Text)
    → All (λ u. parse_url u ≡ some u) us
    → parse_all parse_url us ≡ (us, false)
unfolding parse_all
parse_all_of_some parse_url [] _ = refl
parse_all_of_some parse_url (u ∷ us) (h, hs) = ground (arith, parse_all_of_some parse_url us hs)

-- A header that lists one or more URLs in angle brackets, each of them free of brackets and accepted by the URL
-- parser as it stands, is read back as the same URLs in the same order.
pub parse_callback_header_roundtrip :
    (parse_url : Text → Option Text) (us : List Text)
    → us ≢ []
    → All IsPlainUrl us
    → All (λ u. parse_url u ≡ some u) us
    → parse_callback_header parse_url (bracketed us) ≡ (us, false)
unfolding parse_callback_header
parse_callback_header_roundtrip parse_url [] n h hs = absurd (n refl)
parse_callback_header_roundtrip parse_url (u ∷ us) n h hs = ground (
  arith,
  text_beq_iff (bracketed (u ∷ us)) [],
  matches-bracketed (u ∷ us) h,
  parse_all_of_some parse_url (u ∷ us) hs,
)
