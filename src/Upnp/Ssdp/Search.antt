-- ===== src/Upnp/Ssdp/Search.antt =====
-- pkg/upnp/ssdp/udp_server.go: the answers to an M-SEARCH. Names of headers are raised to upper case as ASCII.
pub mod Answers
pub mod Requests
use godlna.Base.{
  ℕ, ◌-◌, ◌*◌, Text, codes, text_beq, List, [], ◌∷◌, ◌++◌, Option, none, some, Bool, true, false,
  ◌&&◌, ◌||◌, not, if◌then◌else◌, ltb, leb, nat_beq, length, split, trim, has_byte, ℤ, pos, negsuc,
  to_int64, map,
}
use godlna.Upnp.Ssdp.{Options, multicast_addr_port, has_target, m_search_response_message}
use godlna.Upnp.Ssdp.Uint.{parse_uint}

-- What the headers have said so far.
pub record Search : Type 0 where
  pub host_ok : Bool
  pub man_ok : Bool
  pub mx : ℕ
  pub st : Text

abbrev pub no_search : Search
no_search = record { host_ok = false; man_ok = false; mx = 1; st = [] }

-- `strings.SplitN(line, ":", 2)`: a line without a colon is skipped.
unfoldable pub cut_colon : Text → Option (Text × Text)
cut_colon [] = none
cut_colon (c ∷ s) =
    let rest = cut_colon s in
    if nat_beq c b':'
    then some ([], s)
    else elim rest [ none ↦ none | some (a, b) ↦ some (c ∷ a, b) ]

unfoldable pub to_upper : Text → Text
to_upper [] = []
to_upper (c ∷ s) = (if leb b'a' c && leb c b'z' then c - 32 else c) ∷ to_upper s

-- `strings.Trim(name, " \t")` and `strings.Trim(value, " \t\"")`
unfoldable pub name_cut : ℕ → Bool
name_cut c = nat_beq c b' ' || nat_beq c 9

unfoldable pub value_cut : ℕ → Bool
value_cut c = nat_beq c b' ' || nat_beq c 9 || nat_beq c b'"'

-- The wait in seconds, from 1 to 120; the number is taken as an int64.
unfoldable pub clamped : ℤ → ℕ
clamped (negsuc n) = 1
clamped (pos n) = if nat_beq n 0 then 1 else if ltb 120 n then 120 else n

unfoldable pub wait_of : Option ℕ → Option ℕ
unfolding clamped to_int64
wait_of none = none
wait_of (some n) = some (clamped (to_int64 n))

unfoldable pub with_mx : Search → Option ℕ → Option Search
with_mx s none = none
with_mx s (some n) = some (record s { mx = n })

-- One header; none stops the processing.
unfoldable pub on_header : Search → Text → Text → Option Search
on_header s name value =
    if text_beq name (codes "HOST")
    then if not (text_beq value multicast_addr_port)
        && not (text_beq (value ++ codes ":1900") multicast_addr_port)
      then none
      else some (record s { host_ok = true })
    else if text_beq name (codes "MAN")
    then if not (text_beq value (codes "ssdp:discover"))
      then none
      else some (record s { man_ok = true })
    else if text_beq name (codes "MX")
    then with_mx s (wait_of (parse_uint value))
    else if text_beq name (codes "ST")
    then some (record s { st = value })
    else some s

unfoldable pub on_parts : Search → Option (Text × Text) → Option Search
on_parts s none = some s
on_parts s (some (name, value)) = on_header s (to_upper (trim name_cut name)) (trim value_cut value)

unfoldable pub read_lines : List Text → Option Search → Option Search
read_lines lines none = none
read_lines [] (some s) = some s
read_lines (line ∷ lines) (some s) = read_lines lines (on_parts s (cut_colon line))

unfoldable pub read_message : List Text → Option Search
read_message [] = none
read_message (line ∷ lines) =
    if text_beq line (codes "M-SEARCH * HTTP/1.1") then read_lines lines (some no_search) else none

-- The targets to be told of.
unfoldable pub found_targets : Options → Search → List Text
unfolding has_target
found_targets o s =
    if not s.host_ok || not s.man_ok || text_beq s.st []
    then []
    else if text_beq s.st (codes "ssdp:all")
    then o.targets
    else if has_target o.targets s.st
    then s.st ∷ []
    else []

abbrev crlf : Text
crlf = 13 ∷ 10 ∷ []

-- An answer is sent after a random delay below the bound, in nanoseconds.
pub record Answer : Type 0 where
  pub target : Text
  pub message : Text
  pub delay_bound : ℕ

unfoldable pub answers_to : Text → Options → Option Search → List Answer
answers_to date o none = []
answers_to date o (some s) =
    map
      (λ target. record {
        target = target;
        message = m_search_response_message date o target;
        delay_bound = 1000000000 * s.mx;
      })
      (found_targets o s)

unfoldable pub parse_udp_message : Text → Options → Text → List Answer
parse_udp_message date o buf =
    let lines = split buf crlf in
    if ltb (length lines) 5 then [] else answers_to date o (read_message lines)
