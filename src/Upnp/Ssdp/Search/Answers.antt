-- ===== src/Upnp/Ssdp/Search/Answers.antt =====
-- pkg/upnp/ssdp/udp_server.go: which answers any message gets, and the answers to a request as control points write it.
use godlna.Base.{
  ℕ, ◌*◌, ◌≤◌, Text, codes, text_beq, text_beq_iff, List, [], ◌∷◌, Option, none, some, true, not,
  ◌||◌, ltb, length, split, trim, ◌≡◌, refl, sym, inl, inr, arith, Bool-cases, All, All-map,
  All-mono, ℤ, pos, negsuc, to_int64, if-both,
}
use godlna.Watcher.Goroutines.{IsIn}
use godlna.Upnp.Ssdp.{Options, has_target, m_search_response_message}
use godlna.Upnp.Ssdp.Uint.{parse_uint}
use godlna.Upnp.Ssdp.Search.{
  Search, no_search, cut_colon, to_upper, name_cut, value_cut, clamped, wait_of, with_mx, on_header,
  on_parts, read_lines, read_message, found_targets, crlf, Answer, answers_to, parse_udp_message,
}

-- The wait is one that the protocol allows.
abbrev IsWaiting : Option Search → Type 0
IsWaiting none = Unit
IsWaiting (some s) = (1 ≤ s.mx) × (s.mx ≤ 120)

clamped-bounds : (n : ℤ) → (1 ≤ clamped n) × (clamped n ≤ 120)
unfolding clamped
clamped-bounds (negsuc n) = (omega arith, omega arith)
clamped-bounds (pos n) = ground arith

with_mx-IsWaiting : (s : Search) (v : Option ℕ) → IsWaiting (with_mx s (wait_of v))
unfolding with_mx wait_of
with_mx-IsWaiting s none = tt
with_mx-IsWaiting s (some n) = clamped-bounds (to_int64 n)

on_header-IsWaiting :
    (s : Search) (name value : Text) → IsWaiting (some s) → IsWaiting (on_header s name value)
unfolding on_header
on_header-IsWaiting s name value w = elim (Bool-cases (text_beq name (codes "MX"))) [
  | inl e ↦ ground (arith, e, w, with_mx-IsWaiting s (parse_uint value))
  | inr e ↦ ground (arith, e, w)
]

on_parts-IsWaiting :
    (s : Search) (p : Option (Text × Text)) → IsWaiting (some s) → IsWaiting (on_parts s p)
unfolding on_parts
on_parts-IsWaiting s none w = w
on_parts-IsWaiting s (some (name, value)) w =
    on_header-IsWaiting s (to_upper (trim name_cut name)) (trim value_cut value) w

read_lines-IsWaiting :
    (lines : List Text) (s : Option Search) → IsWaiting s → IsWaiting (read_lines lines s)
unfolding read_lines
read_lines-IsWaiting lines none w = tt
read_lines-IsWaiting [] (some s) w = w
read_lines-IsWaiting (line ∷ lines) (some s) w =
    read_lines-IsWaiting lines (on_parts s (cut_colon line))
      (on_parts-IsWaiting s (cut_colon line) w)

read_message-IsWaiting : (lines : List Text) → IsWaiting (read_message lines)
unfolding read_message
read_message-IsWaiting [] = tt
read_message-IsWaiting (line ∷ lines) =
    if-both IsWaiting (text_beq line (codes "M-SEARCH * HTTP/1.1"))
      (λ e. read_lines-IsWaiting lines (some no_search) (omega arith, omega arith)) (λ e. tt)

All-own : (xs : List Text) → All (λ t. IsIn t xs) xs
All-own [] = tt
All-own (x ∷ xs) = (inl refl, All-mono xs (λ t i. inr i) (All-own xs))

IsIn-has_target : (ts : List Text) (t : Text) → has_target ts t ≡ true → IsIn t ts
unfolding has_target
IsIn-has_target [] t h = absurd (cc)
IsIn-has_target (x ∷ ts) t h = elim (Bool-cases (text_beq x t)) [
  | inl e ↦ inl (sym ((text_beq_iff x t).0 e))
  | inr e ↦ inr (IsIn-has_target ts t (rw e at h))
]

found_targets-IsIn : (o : Options) (s : Search) → All (λ t. IsIn t o.targets) (found_targets o s)
unfolding found_targets
found_targets-IsIn o s =
    let P = All (λ (t : Text). IsIn t o.targets) in
    if-both P (not s.host_ok || not s.man_ok || text_beq s.st []) (λ a. tt)
      (λ a.
        if-both P (text_beq s.st (codes "ssdp:all")) (λ b. All-own o.targets)
          (λ b.
            if-both P (has_target o.targets s.st) (λ c. (IsIn-has_target o.targets s.st c, tt))
              (λ c. tt)))

-- An answer that the protocol allows: a target of the device, the response for it, and a delay of one second to two
-- minutes.
abbrev pub IsAllowed : Text → Options → Answer → Type 0
IsAllowed date o a =
    IsIn a.target o.targets
    × (a.message ≡ m_search_response_message date o a.target)
    × (1000000000 ≤ a.delay_bound)
    × (a.delay_bound ≤ 120000000000)

answers_to-IsAllowed :
    (date : Text) (o : Options) (s : Option Search)
    → IsWaiting s
    → All (IsAllowed date o) (answers_to date o s)
unfolding answers_to
answers_to-IsAllowed date o none w = tt
answers_to-IsAllowed date o (some s) w =
    All-map (IsAllowed date o)
      (λ target. record {
        target = target;
        message = m_search_response_message date o target;
        delay_bound = 1000000000 * s.mx;
      })
      (found_targets o s)
      (All-mono (found_targets o s) (λ t i. (i, refl, omega (arith, w.0), omega (arith, w.1)))
        (found_targets-IsIn o s))

-- Whatever bytes arrive, each answer to them is for a target of the device and is sent after a delay whose bound lies
-- between one second and two minutes.
pub parse_udp_message-IsAllowed :
    (date : Text) (o : Options) (buf : Text) → All (IsAllowed date o) (parse_udp_message date o buf)
unfolding parse_udp_message
parse_udp_message-IsAllowed date o buf =
    let lines = split buf crlf in
    if-both (All (IsAllowed date o)) (ltb (length lines) 5) (λ e. tt)
      (λ e. answers_to-IsAllowed date o (read_message lines) (read_message-IsWaiting lines))
