-- ===== src/Upnp/Ssdp/Search/Requests.antt =====
-- pkg/upnp/ssdp/udp_server.go: the answers to a request as control points write it.
use godlna.Base.{
  ℕ, ◌*◌, Text, codes, text_beq, text_beq_iff, List, [], ◌∷◌, ◌++◌, some, true, false,
  if◌then◌else◌, split, split-cons, split_one, trim, trim-cons, ◌≡◌, ◌≢◌, refl, ap, ◌∙◌, arith, All,
  Lacks, map,
}
use godlna.Upnp.Ssdp.{Options, has_target, m_search_response_message}
use godlna.Upnp.Ssdp.Uint.{parse_uint}
use godlna.Upnp.Ssdp.Search.{
  Search, no_search, cut_colon, to_upper, name_cut, value_cut, wait_of, with_mx, on_header,
  on_parts, read_lines, read_message, found_targets, crlf, answers_to, parse_udp_message,
}

-- A search request with the value of the MX header and the search target.
unfoldable pub request : Text → Text → Text
request mx st =
    codes "M-SEARCH * HTTP/1.1"
    ++ (crlf
        ++ (codes "HOST: 239.255.255.250:1900"
            ++ (crlf
                ++ (codes "MAN: \"ssdp:discover\""
                    ++ (crlf
                        ++ ((codes "MX: " ++ mx)
                            ++ (crlf
                                ++ ((codes "ST: " ++ st) ++ (crlf ++ ([] ++ (crlf ++ [])))))))))))

-- A value that trimming leaves as it is and that ends no line.
abbrev pub IsValue : Text → Type 0
IsValue v = All (λ c. value_cut c ≡ false) v × Lacks 13 v

split-request :
    (mx st : Text)
    → Lacks 13 mx
    → Lacks 13 st
    → split (request mx st) crlf
      ≡ codes "M-SEARCH * HTTP/1.1"
        ∷ codes "HOST: 239.255.255.250:1900"
        ∷ codes "MAN: \"ssdp:discover\""
        ∷ (codes "MX: " ++ mx)
        ∷ (codes "ST: " ++ st)
        ∷ []
        ∷ []
        ∷ []
unfolding request
split-request mx st l m =
    split-cons 13 (10 ∷ []) (codes "M-SEARCH * HTTP/1.1") _ (ground arith)
    ∙ ap (◌∷◌ (codes "M-SEARCH * HTTP/1.1")) (
        split-cons 13 (10 ∷ []) (codes "HOST: 239.255.255.250:1900") _ (ground arith)
        ∙ ap (◌∷◌ (codes "HOST: 239.255.255.250:1900")) (
            split-cons 13 (10 ∷ []) (codes "MAN: \"ssdp:discover\"") _ (ground arith)
            ∙ ap (◌∷◌ (codes "MAN: \"ssdp:discover\"")) (
                split-cons 13 (10 ∷ []) (codes "MX: " ++ mx) _ (ground (arith, l))
                ∙ ap (◌∷◌ (codes "MX: " ++ mx)) (
                    split-cons 13 (10 ∷ []) (codes "ST: " ++ st) _ (ground (arith, m))
                    ∙ ap (◌∷◌ (codes "ST: " ++ st)) (
                        split-cons 13 (10 ∷ []) [] [] tt
                        ∙ ap (◌∷◌ []) (split_one 13 (10 ∷ []) [] tt))))))

cut_mx : (v : Text) → cut_colon (codes "MX: " ++ v) ≡ some (codes "MX", b' ' ∷ v)
unfolding cut_colon
cut_mx v = refl

cut_st : (v : Text) → cut_colon (codes "ST: " ++ v) ≡ some (codes "ST", b' ' ∷ v)
unfolding cut_colon
cut_st v = refl

names :
    (to_upper (trim name_cut (codes "MX")) ≡ codes "MX")
    × (to_upper (trim name_cut (codes "ST")) ≡ codes "ST")
unfolding to_upper trim name_cut
names = (refl, refl)

value-trim : (v : Text) → IsValue v → trim value_cut (b' ' ∷ v) ≡ v
value-trim v (a, l) = trim-cons value_cut b' ' v (unfold value_cut in refl) a

line_mx :
    (s : Search) (v : Text) (n w : ℕ)
    → IsValue v
    → parse_uint v ≡ some n
    → wait_of (some n) ≡ some w
    → on_parts s (cut_colon (codes "MX: " ++ v)) ≡ some (record s { mx = w })
line_mx s v n w a h k =
    ap (on_parts s) (cut_mx v)
    ∙ unfold on_parts in
      rw (names.0, value-trim v a) (unfold on_header text_beq in rw (h, k) (unfold with_mx in refl))

line_st :
    (s : Search) (v : Text)
    → IsValue v
    → on_parts s (cut_colon (codes "ST: " ++ v)) ≡ some (record s { st = v })
line_st s v a =
    ap (on_parts s) (cut_st v)
    ∙ unfold on_parts in rw (names.1, value-trim v a) (unfold on_header text_beq in refl)

first_lines :
    (on_parts no_search (cut_colon (codes "HOST: 239.255.255.250:1900"))
      ≡ some (record no_search { host_ok = true }))
    × (on_parts (record no_search { host_ok = true }) (cut_colon (codes "MAN: \"ssdp:discover\""))
        ≡ some (record no_search { host_ok = true; man_ok = true }))
unfolding on_parts cut_colon on_header to_upper name_cut value_cut trim text_beq
first_lines = (refl, refl)

last_line : (s : Search) → on_parts s (cut_colon []) ≡ some s
unfolding on_parts cut_colon
last_line s = refl

read_step :
    (s s' : Search) (line : Text) (lines : List Text)
    → on_parts s (cut_colon line) ≡ some s'
    → read_lines (line ∷ lines) (some s) ≡ read_lines lines (some s')
unfolding read_lines
read_step s s' line lines h = ap (read_lines lines) h

read-request :
    (mx st : Text) (n w : ℕ)
    → IsValue mx
    → IsValue st
    → parse_uint mx ≡ some n
    → wait_of (some n) ≡ some w
    → read_message (
        codes "M-SEARCH * HTTP/1.1"
        ∷ codes "HOST: 239.255.255.250:1900"
        ∷ codes "MAN: \"ssdp:discover\""
        ∷ (codes "MX: " ++ mx)
        ∷ (codes "ST: " ++ st)
        ∷ []
        ∷ []
        ∷ [])
      ≡ some (record { host_ok = true; man_ok = true; mx = w; st = st })
unfolding read_message text_beq
read-request mx st n w a b h k =
    let found : Search = record no_search { host_ok = true; man_ok = true } in
    let waiting : Search = record found { mx = w } in
    let done : Search = record waiting { st = st } in
    read_step no_search (record no_search { host_ok = true }) _ _ first_lines.0
    ∙ read_step (record no_search { host_ok = true }) found _ _ first_lines.1
    ∙ read_step found waiting _ _ (line_mx found mx n w a h k)
    ∙ read_step waiting done _ _ (line_st waiting st b)
    ∙ read_step done done _ _ (last_line done)
    ∙ read_step done done _ _ (last_line done)
    ∙ unfold read_lines in refl

-- A request as control points write it, whose MX value and search target are trimmed and end no line: if the value is
-- a number, it is answered with one response for each target of the device that was searched for, which is all of
-- them for ssdp:all, and otherwise the target itself if the device has it; and each waits at most the number of
-- seconds, brought into the range from 1 to 120.
pub parse_udp_message-request :
    (date : Text) (o : Options) (mx st : Text) (n w : ℕ)
    → IsValue mx
    → IsValue st
    → st ≢ []
    → parse_uint mx ≡ some n
    → wait_of (some n) ≡ some w
    → parse_udp_message date o (request mx st)
      ≡ map
          (λ target. record {
            target = target;
            message = m_search_response_message date o target;
            delay_bound = 1000000000 * w;
          })
          (if text_beq st (codes "ssdp:all")
            then o.targets
            else if has_target o.targets st
            then st ∷ []
            else [])
unfolding parse_udp_message
parse_udp_message-request date o mx st n w a b e h k =
    rw (split-request mx st a.1 b.1, read-request mx st n w a b h k)
      (unfold answers_to found_targets in ground (arith, text_beq_iff st [], e))
