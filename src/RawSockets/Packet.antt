-- ===== src/RawSockets/Packet.antt =====
-- The packet of the clients of NETS/raw_socket_udp_client/ and NETS/raw_socket_l3/, byte by byte.
use eltex_courses_homeworks.Prelude.{
  ℕ, zero, suc, ◌+◌, ◌-◌, ◌*◌, ◌/◌, ◌%◌, List, [], ◌∷◌, ◌++◌, codes, receive,
}

-- `PACKET_SIZE` and `IP_HEADER_LEN`
abbrev pub packet_size : ℕ
packet_size = 500

abbrev pub ip_header_len : ℕ
ip_header_len = 20

-- The bytes in memory of `htons (n)`, of `htonl (n)`, and of a 16-bit `n` that is not converted,
-- on a little-endian machine.
abbrev pub htons : ℕ → List ℕ
htons n = (n / 256) % 256 ∷ n % 256 ∷ []

abbrev pub htonl : ℕ → List ℕ
htonl n = (n / 16777216) % 256 ∷ (n / 65536) % 256 ∷ (n / 256) % 256 ∷ n % 256 ∷ []

abbrev pub unconverted : ℕ → List ℕ
unconverted n = n % 256 ∷ (n / 256) % 256 ∷ []

-- A value of 32 bits that is stored in 16 keeps the lower ones, the first two in memory.
abbrev pub truncated : List ℕ → List ℕ
truncated [] = []
truncated (b ∷ []) = b ∷ []
truncated (b ∷ c ∷ _) = b ∷ c ∷ []

-- The bytes stored from offset `i` on.
abbrev pub put : ℕ → List ℕ → List ℕ → List ℕ
put zero bytes buf = receive bytes buf
put (suc i) bytes [] = []
put (suc i) bytes (b ∷ buf) = b ∷ put i bytes buf

abbrev pub from : ℕ → List ℕ → List ℕ
from zero buf = buf
from (suc i) [] = []
from (suc i) (b ∷ buf) = from i buf

-- The byte at offset `i`; the offsets that the clients read are within the packet.
abbrev pub byte : ℕ → List ℕ → ℕ
byte i [] = 0
byte zero (b ∷ buf) = b
byte (suc i) (b ∷ buf) = byte i buf

abbrev pub memset : ℕ → List ℕ → List ℕ
memset c [] = []
memset c (b ∷ buf) = c ∷ memset c buf

-- The number whose `htons` stands at offset `i`.
abbrev pub read16 : ℕ → List ℕ → ℕ
read16 i buf = byte i buf * 256 + byte (i + 1) buf

-- `INADDR_LOOPBACK` and `IPPROTO_UDP`
abbrev pub inaddr_loopback : ℕ
inaddr_loopback = 2130706433

abbrev pub ipproto_udp : ℕ
ipproto_udp = 17

abbrev pub message : List ℕ
message = codes "Hi server!"

-- The UDP header of length `ulen` at offset `i`, and the message with its zero behind it.
abbrev pub fill_udp : ℕ → ℕ → List ℕ → List ℕ
fill_udp i ulen packet =
    let p₁ = put i (htons 2395) packet in
    let p₂ = put (i + 2) (htons 1414) p₁ in
    let p₃ = put (i + 4) (htons ulen) p₂ in
    let p₄ = put (i + 6) (0 ∷ 0 ∷ []) p₃ in put (i + 8) (message ++ (0 ∷ [])) p₄

-- The client of the transport layer fills a packet that nothing has been written to.
unfoldable pub filled : List ℕ → List ℕ
filled packet = fill_udp 0 packet_size packet

-- The IP header: `ihl` and `version` share a byte.
abbrev pub fill_ip : List ℕ → List ℕ
fill_ip packet =
    let p₁ = put 0 ((4 * 16 + 5) ∷ []) packet in
    let p₂ = put 1 (0 ∷ []) p₁ in
    let p₃ = put 2 (unconverted packet_size) p₂ in
    let p₄ = put 4 (truncated (htonl 22222)) p₃ in
    let p₅ = put 6 (unconverted 0) p₄ in
    let p₆ = put 8 (128 ∷ []) p₅ in
    let p₇ = put 9 (ipproto_udp ∷ []) p₆ in
    let p₈ = put 10 (unconverted 0) p₇ in
    let p₉ = put 12 (htonl inaddr_loopback) p₈ in put 16 (htonl inaddr_loopback) p₉

-- The client of the network layer sets the packet to zeros first.
unfoldable pub filled_l3 : List ℕ → List ℕ
filled_l3 packet = fill_udp ip_header_len (packet_size - ip_header_len) (fill_ip (memset 0 packet))
