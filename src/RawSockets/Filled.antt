-- ===== src/RawSockets/Filled.antt =====
-- The packets of NETS/raw_socket_udp_client/client.c and NETS/raw_socket_l3/client.c as filled: to
-- whom they go, and what a receiver of their payload reads.
use eltex_courses_homeworks.Prelude.{
  ℕ, zero, suc, ◌+◌, ◌/◌, ◌%◌, ◌<◌, ◌≤◌, ◌≡◌, refl, ap, ◌∙◌, List, [], ◌∷◌, ◌++◌, length, arith,
}
use eltex_courses_homeworks.RawSockets.Bytes.{length-put, from-put, byte-put}
use eltex_courses_homeworks.RawSockets.Packet.{
  packet_size, read16, byte, htons, put, from, message, filled, filled_l3, fill_udp, fill_ip,
  memset,
}

-- A buffer that begins with the message and its zero.
abbrev pub Begins : List ℕ → Type 0
Begins payload = (junk : List ℕ) × (payload ≡ message ++ (0 ∷ junk))

byte-from : (i : ℕ) (buf : List ℕ) → byte i buf ≡ byte 0 (from i buf)
byte-from zero buf = refl
byte-from (suc i) [] = refl
byte-from (suc i) (b ∷ buf) = byte-from i buf

byte_next-from : (i : ℕ) (buf : List ℕ) → byte (suc i) buf ≡ byte 1 (from i buf)
byte_next-from zero buf = refl
byte_next-from (suc i) [] = refl
byte_next-from (suc i) (b ∷ buf) = byte_next-from i buf

htons-put :
    (i n : ℕ) (buf : List ℕ)
    → i + 2 ≤ length buf
    → (byte i (put i (htons n) buf) ≡ (n / 256) % 256)
      × (byte (suc i) (put i (htons n) buf) ≡ n % 256)
htons-put i n buf h =
    let (junk, e) = from-put i (htons n) buf h in
    (
      byte-from i (put i (htons n) buf) ∙ ap (byte 0) e,
      byte_next-from i (put i (htons n) buf) ∙ ap (byte 1) e,
    )

length-fill_udp : (i ulen : ℕ) (packet : List ℕ) → length (fill_udp i ulen packet) ≡ length packet
length-fill_udp i ulen packet = simp length-put refl

length-fill_ip : (packet : List ℕ) → length (fill_ip packet) ≡ length packet
length-fill_ip packet = simp length-put refl

module _ (i ulen : ℕ) (packet : List ℕ) (room : i + 19 ≤ length packet) where
  -- The packet when both ports are stored, and when the whole header is.
  ports : List ℕ
  ports = put (i + 2) (htons 1414) (put i (htons 2395) packet)

  headed : List ℕ
  headed = put (i + 6) (0 ∷ 0 ∷ []) (put (i + 4) (htons ulen) ports)

  length-headed : length headed ≡ length packet
  unfolding headed ports
  length-headed = simp length-put refl

  fill_udp-Begins : Begins (from (i + 8) (fill_udp i ulen packet))
  unfolding headed ports
  fill_udp-Begins = from-put (i + 8) (message ++ (0 ∷ [])) headed (omega (arith, length-headed))

  -- Behind the ports nothing changes them.
  byte-fill_udp : (j : ℕ) → j < i + 4 → byte j (fill_udp i ulen packet) ≡ byte j ports
  unfolding ports
  byte-fill_udp j h =
      byte-put (i + 8) j _ _ (omega arith)
      ∙ byte-put (i + 6) j _ _ (omega arith)
      ∙ byte-put (i + 4) j _ _ (omega arith)

  fill_udp-port :
      (byte (i + 2) (fill_udp i ulen packet) ≡ 5)
      × (byte (suc (i + 2)) (fill_udp i ulen packet) ≡ 134)
  unfolding ports
  fill_udp-port =
      let (high, low) =
        htons-put (i + 2) 1414 (put i (htons 2395) packet)
          (omega (arith, length-put i (htons 2395) packet)) in
      (byte-fill_udp (i + 2) (omega arith) ∙ high, byte-fill_udp (suc (i + 2)) (omega arith) ∙ low)

-- The UDP headers name the port that the server is bound to, and the payload is the message.
pub filled-port : (packet : List ℕ) → length packet ≡ packet_size → read16 2 (filled packet) ≡ 1414
unfolding filled
filled-port packet len = omega (arith, fill_udp-port 0 packet_size packet (omega arith))

pub filled-Begins :
    (packet : List ℕ) → length packet ≡ packet_size → Begins (from 8 (filled packet))
unfolding filled
filled-Begins packet len = fill_udp-Begins 0 packet_size packet (omega arith)

pub length-filled : (packet : List ℕ) → length (filled packet) ≡ length packet
unfolding filled
length-filled packet = length-fill_udp 0 packet_size packet

zeroed : List ℕ → List ℕ
zeroed packet = fill_ip (memset 0 packet)

length-memset : (packet : List ℕ) → length (memset 0 packet) ≡ length packet
length-memset [] = refl
length-memset (b ∷ packet) = ap suc (length-memset packet)

length-zeroed : (packet : List ℕ) → length (zeroed packet) ≡ length packet
unfolding zeroed
length-zeroed packet = length-fill_ip (memset 0 packet) ∙ length-memset packet

pub filled_l3-port :
    (packet : List ℕ) → length packet ≡ packet_size → read16 22 (filled_l3 packet) ≡ 1414
unfolding filled_l3 zeroed
filled_l3-port packet len =
    omega (arith, fill_udp-port 20 480 (zeroed packet) (omega (arith, length-zeroed packet)))

pub filled_l3-Begins :
    (packet : List ℕ) → length packet ≡ packet_size → Begins (from 28 (filled_l3 packet))
unfolding filled_l3 zeroed
filled_l3-Begins packet len =
    fill_udp-Begins 20 480 (zeroed packet) (omega (arith, length-zeroed packet))

pub length-filled_l3 : (packet : List ℕ) → length (filled_l3 packet) ≡ length packet
unfolding filled_l3 zeroed
length-filled_l3 packet = length-fill_udp 20 480 (zeroed packet) ∙ length-zeroed packet
