-- ===== src/Gate/Control.antt =====
-- skynet/service-src/service_gate.c: the commands in text that the gate takes. The strings of C are
-- lists of bytes without the zero at the end.
use skynet_server.Common.{
  List, [], ◌∷◌, ℕ, Bool, true, false, Option, none, some, if◌then◌else◌, ◌+◌, ◌-◌, ◌*◌, ◌%◌, ◌^◌,
  ◌==◌, ◌&&◌, ◌||◌, ltb, leb, length, drop, ◌++◌,
}
use skynet_server.Common.Int.{ℤ, pos, negsuc, ltb_ℤ}
use skynet_server.Hashid.{Hashid, lookup}
use skynet_server.Gate.{Gate, Connection, Call, socket_close, socket_start, error}

-- The bytes before the first zero.
abbrev pub c_string : List ℕ → List ℕ
c_string [] = []
c_string (b ∷ bs) = if b == 0 then [] else b ∷ c_string bs

abbrev pub is_space : ℕ → Bool
is_space b = (b == 32) || (leb 9 b && leb b 13)

abbrev pub skip_spaces : List ℕ → List ℕ
skip_spaces [] = []
skip_spaces (b ∷ bs) = if is_space b then skip_spaces bs else b ∷ bs

-- The value of a digit, and 99 of another byte.
abbrev pub digit : ℕ → ℕ
digit b =
    if leb 48 b && leb b 57
    then b - 48
    else if leb 97 b && leb b 102
    then b - 87
    else if leb 65 b && leb b 70
    then b - 55
    else 99

-- The number that the digits at the front stand for, behind `n`.
abbrev pub number : ℕ → ℕ → List ℕ → ℕ
number base n [] = n
number base n (b ∷ bs) = if ltb (digit b) base then number base (n * base + digit b) bs else n

-- The 32 bits of a number, or of its negation.
abbrev pub low_bits : Bool → ℕ → ℕ
low_bits true n = (2 ^ 32 - n % 2 ^ 32) % 2 ^ 32
low_bits false n = n % 2 ^ 32

-- A number of at least 2^63 is the greatest `long`, and one below -2^63 the least.
abbrev pub saturate : Bool → ℕ → ℕ
saturate true n = if leb (2 ^ 63) n then 2 ^ 63 else n
saturate false n = if leb (2 ^ 63) n then 2 ^ 63 - 1 else n

abbrev pub from_bits : ℕ → ℤ
from_bits n = if ltb n (2 ^ 31) then pos n else negsuc (2 ^ 32 - 1 - n)

abbrev pub signed_number : List ℕ → ℤ
signed_number [] = pos 0
signed_number (b ∷ bs) =
    if b == 45
    then from_bits (low_bits true (saturate true (number 10 0 bs)))
    else if b == 43
    then from_bits (low_bits false (saturate false (number 10 0 bs)))
    else from_bits (low_bits false (saturate false (number 10 0 (b ∷ bs))))

-- `strtol` to the base 10, as an `int`.
unfoldable pub strtol : List ℕ → ℤ
strtol s = signed_number (skip_spaces s)

-- A number of at least 2^64 is the greatest `unsigned long`.
abbrev pub hex_value : Bool → List ℕ → ℕ
hex_value minus s = let n = number 16 0 s in if leb (2 ^ 64) n then 2 ^ 32 - 1 else low_bits minus n

-- `0x` at the front is passed over when a digit follows.
abbrev pub hex_prefix : Bool → List ℕ → ℕ
hex_prefix minus (z ∷ x ∷ d ∷ ds) =
    if (z == 48) && ((x == 120) || (x == 88)) && ltb (digit d) 16
    then hex_value minus (d ∷ ds)
    else hex_value minus (z ∷ x ∷ d ∷ ds)
hex_prefix minus s = hex_value minus s

abbrev pub hex_signed : List ℕ → ℕ
hex_signed [] = 0
hex_signed (b ∷ bs) =
    if b == 45
    then hex_prefix true bs
    else if b == 43
    then hex_prefix false bs
    else hex_prefix false (b ∷ bs)

-- `strtoul` to the base 16, as 32 bits.
unfoldable pub strtoul : List ℕ → ℕ
strtoul s = hex_signed (skip_spaces s)

-- `strsep` at the first space: what stands before it, and behind it if there is one.
abbrev pub strsep : List ℕ → List ℕ × Option (List ℕ)
strsep [] = ([], none)
strsep (b ∷ bs) =
    let (token, rest) = strsep bs in if b == 32 then ([], some bs) else (b ∷ token, rest)

-- The first word, as the loop over `i` finds its end.
abbrev pub word : List ℕ → List ℕ
word [] = []
word (b ∷ bs) = if b == 32 then [] else b ∷ word bs

-- `memcmp(command, name, i) == 0`, for a word of `i` bytes: also a word that is only the start of
-- the name fits it.
abbrev pub fits : List ℕ → List ℕ → Bool
fits [] name = true
fits (b ∷ bs) [] = b == 0 && (length bs == 0)
fits (b ∷ bs) (n ∷ ns) = (b == n) && fits bs ns

abbrev pub skip_blanks : List ℕ → List ℕ
skip_blanks [] = []
skip_blanks (b ∷ bs) = if b == 32 then skip_blanks bs else b ∷ bs

-- `_parm`: what is behind the first word and its spaces, as a string.
unfoldable pub parm : List ℕ → ℕ → List ℕ
parm msg command_sz = c_string (skip_blanks (drop command_sz msg))

-- The bytes of `tmp` behind the end of this string, up to the next zero: what `_parm` does not
-- write over.
unfoldable pub behind : List ℕ → ℕ → List ℕ
unfolding parm
behind msg command_sz =
    let moved = skip_blanks (drop command_sz msg) in
    let tmp = moved ++ 0 ∷ drop (length moved + 1) (msg ++ 0 ∷ []) in
    c_string (drop (length (parm msg command_sz) + 1) tmp)

abbrev pub lookup_int : Hashid → ℤ → Option ℕ
lookup_int hi (pos n) = lookup hi n
lookup_int hi (negsuc n) = none

abbrev pub set_conn : ℕ → Connection → (ℕ → Connection) → ℕ → Connection
set_conn i c conn k = if i == k then c else conn k

abbrev pub set_agent : ℕ → ℕ → Gate → Option ℕ → Gate
set_agent agentaddr clientaddr g none = g
set_agent agentaddr clientaddr g (some i) = record g {
  conn = set_conn i (record (g.conn i) { agent = agentaddr; client = clientaddr }) g.conn;
}

-- `_forward_agent`
unfoldable pub forward_agent : Gate → ℤ → ℕ → ℕ → Gate
forward_agent g fd agentaddr clientaddr = set_agent agentaddr clientaddr g (lookup_int g.hash fd)

-- `strtoul(s+1, NULL, 16)`, where behind `s` and its zero there stands `next` in the memory.
abbrev pub handle_of : List ℕ → List ℕ → ℕ
handle_of [] next = strtoul next
handle_of (b ∷ bs) next = strtoul bs

-- The command `forward` with its three words, and what is behind them in `tmp`.
abbrev pub forward_to :
    Gate → List ℕ → List ℕ → List ℕ × Option (List ℕ) → Option (List Call × Gate)
forward_to g after idstr (agent, none) = some ([], g)
forward_to g after idstr (agent, some client) =
    some ([], forward_agent g (strtol idstr) (handle_of agent client) (handle_of client after))

abbrev pub forward_words : Gate → List ℕ → List ℕ × Option (List ℕ) → Option (List Call × Gate)
forward_words g after (idstr, none) = some ([], g)
forward_words g after (idstr, some rest) = forward_to g after idstr (strsep rest)

-- A call for a connection that is known.
abbrev pub if_known : Gate → (ℤ → Call) → ℤ → Option (List Call × Gate)
if_known g call uid = elim (lookup_int g.hash uid) [
  | none ↦ some ([], g)
  | some i ↦ some (call uid ∷ [], g)
]

-- The words `kick`, `forward`, `broker`, `start` and `close`.
abbrev pub kick_word : List ℕ
kick_word = 107 ∷ 105 ∷ 99 ∷ 107 ∷ []

abbrev pub forward_word : List ℕ
forward_word = 102 ∷ 111 ∷ 114 ∷ 119 ∷ 97 ∷ 114 ∷ 100 ∷ []

abbrev pub broker_word : List ℕ
broker_word = 98 ∷ 114 ∷ 111 ∷ 107 ∷ 101 ∷ 114 ∷ []

abbrev pub start_word : List ℕ
start_word = 115 ∷ 116 ∷ 97 ∷ 114 ∷ 116 ∷ []

abbrev pub close_word : List ℕ
close_word = 99 ∷ 108 ∷ 111 ∷ 115 ∷ 101 ∷ []

-- `_ctrl`, where `queryname` is `skynet_queryname`.
unfoldable pub ctrl : (List ℕ → ℕ) → Gate → List ℕ → Option (List Call × Gate)
unfolding parm behind forward_agent strtol
ctrl queryname g [] = some ([], g)
ctrl queryname g (b ∷ bs) =
    let msg = b ∷ bs in
    let command = word msg in
    let rest = parm msg (length command) in
    if fits command kick_word
    then if_known g socket_close (strtol rest)
    else if fits command forward_word
    then forward_words g (behind msg (length command)) (strsep rest)
    else if fits command broker_word
    then some ([], record g { broker = queryname rest })
    else if fits command start_word
    then if_known g socket_start (strtol rest)
    else if fits command close_word
    then (if ltb_ℤ g.listen_id (pos 0)
        then some ([], g)
        else some (socket_close g.listen_id ∷ [], record g { listen_id = negsuc 0 }))
    else some (error ∷ [], g)
