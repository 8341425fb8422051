-- ===== src/Echo/Answer.antt =====
-- What the servers of NETS/TCP_ECHO/server.c and NETS/UDP_ECHO/udp_server.c have in common: the
-- message is received over what the buffer held before, printed, and extended by `strncat`.
use eltex_courses_homeworks.Prelude.{
  ℕ, ◌+◌, ◌≤◌, ◌<◌, ◌≡◌, List, length, Outcome, done, fault, ◌>>=◌, receive, string_of, strncat,
  NoZero, HasString, receive-HasString, strncat-HasString, strncat-overflows, string_of-HasString,
}

-- `BUF_SIZE`
abbrev pub buf_size : ℕ
buf_size = 500

-- The buffer after a message: `printf` and `strncat` look for the zero that ends its string.
unfoldable pub answer : List ℕ → List ℕ → List ℕ → Outcome (List ℕ)
answer text bytes buf = do
  let received = receive bytes buf
  _ ← string_of received
  strncat text received

-- Messages without a zero, that are no longer than the string they are received over.
abbrev pub Unended : ℕ → List ℕ → Type 0
Unended n bytes = NoZero bytes × (length bytes ≤ n)

module _ {size n : ℕ} {buf : List ℕ} (text bytes : List ℕ) (v : HasString size n buf)
    (u : Unended n bytes) where
  -- Such a message leaves the old end of the string in place, and the answer makes it longer.
  pub answer-HasString :
      NoZero text
      → n + length text < size
      → (buf' : List ℕ) × (answer text bytes buf ≡ done buf')
        × HasString size (n + length text) buf'
  unfolding answer
  answer-HasString p room =
      let w = receive-HasString bytes u.0 u.1 v in
      let (buf', run, v') = strncat-HasString text w p room in
      (buf', rw (string_of-HasString w) run, v')

  pub answer-fault : size ≤ n + length text → answer text bytes buf ≡ fault
  unfolding answer
  answer-fault over =
      let w = receive-HasString bytes u.0 u.1 v in
      rw (string_of-HasString w) (strncat-overflows text w over)
