-- ===== src/Upnp/Ssdp/Minissdpd.antt =====
-- pkg/upnp/ssdp/minissdpd_client.go: what is submitted to the minissdpd daemon. The sockets are outside.
use godlna.Base.{
  ℕ, ◌+◌, ◌/◌, ◌%◌, ◌<◌, Text, List, [], ◌∷◌, ◌++◌, Bool, true, false, ◌&&◌, ◌||◌, if◌then◌else◌,
  ltb, leb, nat_beq, length, take, drop, take-append, drop-append, ◌≡◌, refl, arith,
}
use godlna.Upnp.Ssdp.{Options, usn_from_target, alive_message, bye_bye_message}

-- `%c` of fmt: the UTF-8 bytes of a number, which is replaced if it is no character.
unfoldable pub character : ℕ → Text
character n =
    if ltb n 128
    then n ∷ []
    else if ltb n 2048
    then (192 + n / 64) ∷ (128 + n % 64) ∷ []
    else if leb 55296 n && ltb n 57344 || leb 1114112 n
    then 239 ∷ 191 ∷ 189 ∷ []
    else if ltb n 65536
    then (224 + n / 4096) ∷ (128 + n / 64 % 64) ∷ (128 + n % 64) ∷ []
    else (240 + n / 262144) ∷ (128 + n / 4096 % 64) ∷ (128 + n / 64 % 64) ∷ (128 + n % 64) ∷ []

unfoldable pub field : Text → Text → Text
unfolding character
field value rest = character (length value) ++ (value ++ rest)

-- The message for one target.
unfoldable pub submission : Options → Text → Text
submission o target =
    4
    ∷ field target (field (usn_from_target o target) (field o.server_header (field o.location [])))

-- The messages in the order of the targets, up to the first that cannot be written, and whether all could be.
unfoldable pub minissdpd_notify : (Text → Bool) → Options → List Text → List Text × Bool
unfolding submission
minissdpd_notify written o [] = ([], true)
minissdpd_notify written o (target ∷ targets) =
    let (messages, ok) = minissdpd_notify written o targets in
    let message = submission o target in
    if written message then (message ∷ messages, ok) else ([], false)

-- Nothing is written without a connection.
unfoldable pub notify_daemon : Bool → (Text → Bool) → Options → List Text × Bool
unfolding minissdpd_notify
notify_daemon connected written o =
    if connected then minissdpd_notify written o o.targets else ([], false)

messages_until_empty : (Text → Text) → List Text → List Text
messages_until_empty message [] = []
messages_until_empty message (target ∷ targets) =
    let rest = messages_until_empty message targets in
    if nat_beq (length (message target)) 0 then [] else message target ∷ rest

-- `udpNotify`: without a connection nothing is sent, and otherwise the messages up to the first empty one; a failed
-- write is only logged.
unfoldable pub udp_notify : Bool → (Text → Text) → Options → List Text
unfolding messages_until_empty
udp_notify connected message o = if connected then messages_until_empty message o.targets else []

-- Both kinds of messages of `sendAlive`, whose errors are only logged, and those of `sendByeBye`. The first connection
-- is to the daemon, the second to the multicast address.
unfoldable pub send_alive_to_daemon : Bool → Bool → (Text → Bool) → Options → List Text × List Text
unfolding udp_notify notify_daemon
send_alive_to_daemon daemon multicast written o =
    ((notify_daemon daemon written o).0, udp_notify multicast (alive_message o) o)

unfoldable pub send_bye_bye_by_client : Bool → Options → List Text
unfolding udp_notify
send_bye_bye_by_client multicast o = udp_notify multicast (bye_bye_message o) o

-- How a receiver takes a text with its length in one byte from the front.
abbrev pub taken : Text → Text × Text
taken [] = ([], [])
taken (n ∷ s) = (take n s, drop n s)

taken-field : (value rest : Text) → length value < 128 → taken (field value rest) ≡ (value, rest)
unfolding field character
taken-field value rest h =
    let e : ltb (length value) 128 ≡ true = ground arith in
    rw (e, take-append value rest, drop-append value rest) refl

-- The four texts of a message, after its first byte.
abbrev pub received : Text → Text × Text × Text × Text
received message =
    let (target, a) = taken (drop 1 message) in
    let (usn, b) = taken a in
    let (server, c) = taken b in let (location, d) = taken c in (target, usn, server, location)

-- A receiver that reads each length as one byte gets the target, its USN, the server header and the location as they
-- are, if each of them is shorter than 128 bytes.
pub received-submission :
    (o : Options) (target : Text)
    → length target < 128
    → length (usn_from_target o target) < 128
    → length o.server_header < 128
    → length o.location < 128
    → received (submission o target)
      ≡ (target, usn_from_target o target, o.server_header, o.location)
unfolding submission
received-submission o target h i j k =
    let usn = usn_from_target o target in
    let last = field o.location [] in
    rw
      (
        taken-field target (field usn (field o.server_header last)) h,
        taken-field usn (field o.server_header last) i,
        taken-field o.server_header last j,
        taken-field o.location [] k,
      )
      refl
