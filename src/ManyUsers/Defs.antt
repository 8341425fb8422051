-- ===== src/ManyUsers/Defs.antt =====
-- The processes of NETS/multi-user UDP_ECHO/server.c. A step is a call of one of them, whose result
-- is any; what is printed is left out, but that it is read.
use eltex_courses_homeworks.Prelude.{
  ℕ, ◌+◌, ◌≡◌, Bool, Option, none, some, List, [], ◌∷◌, ◌++◌, Outcome, done, fault, require, ◌>>◌,
  receive, string_of,
}
use eltex_courses_homeworks.Prelude.Family.{update}

-- `buf[0] = '\0'`
abbrev pub clear : List ℕ → List ℕ
clear [] = []
clear (b ∷ buf) = 0 ∷ buf

-- Where the process of a client stands: before `socket`, before `sendto`, before `recvfrom`, back in
-- the loop of the server before `recvfrom` or before `fork`, ended, or in undefined behaviour. Where
-- `socket` fails, the `recvfrom` of that loop ends the process, which has closed the socket. Where
-- `recvfrom` of the inner loop fails, the outer one goes on: `cfd` is the number of the socket that
-- was closed, so that the process serves as a second server on its own socket.
pub data Phase : Type 0 where
  opening sending receiving waiting_again forking_again ended broken : Phase

-- The process of a client: `client`, the buffer, what the buffer was at the `fork`, and the messages
-- received and sent since in the inner loop.
pub record Child : Type 0 where
  pub client : ℕ
  pub buf : List ℕ
  pub phase : Phase
  pub forked : List ℕ
  pub received : List (List ℕ)
  pub sent : List (List ℕ)

abbrev pub child_of : ℕ → List ℕ → Child
child_of client buf = record {
  client = client;
  buf = buf;
  phase = opening;
  forked = buf;
  received = [];
  sent = [];
}

pub data ChildStep (c : Child) : Child → Type 0 where
  opens : c.phase ≡ opening → ChildStep c (record c { phase = sending })
  cannot_open : c.phase ≡ opening → ChildStep c (record c { phase = ended })
  sends :
      c.phase ≡ sending
      → ChildStep c
          (record c { phase = receiving; buf = clear c.buf; sent = c.sent ++ (c.buf ∷ []) })
  cannot_send : c.phase ≡ sending → ChildStep c c
  receives :
      (bytes : List ℕ)
      → c.phase ≡ receiving
      → ChildStep c (record c {
        phase = sending;
        buf = receive bytes c.buf;
        received = c.received ++ (bytes ∷ []);
      })
  cannot_receive : c.phase ≡ receiving → ChildStep c (record c { phase = waiting_again })
  requested_again :
      (client : ℕ) (bytes : List ℕ) {text : List ℕ}
      → c.phase ≡ waiting_again
      → string_of (receive bytes c.buf) ≡ done text
      → ChildStep c (record c { client = client; buf = receive bytes c.buf; phase = forking_again })
  unended_again :
      (bytes : List ℕ)
      → c.phase ≡ waiting_again
      → string_of (receive bytes c.buf) ≡ fault
      → ChildStep c (record c { phase = broken })
  no_request_again : c.phase ≡ waiting_again → ChildStep c (record c { phase = ended })
  cannot_fork_again : c.phase ≡ forking_again → ChildStep c (record c { phase = waiting_again })

-- The results of `socket` and `bind`.
unfoldable pub setup : Bool → Bool → Outcome (Unit {0})
setup socket_ok bind_ok = do require socket_ok; require bind_ok

-- Where the server stands: before `recvfrom`, before `fork` for a client, ended, or in undefined
-- behaviour.
pub data Main : Type 0 where
  waiting : Main
  forking : (client : ℕ) → Main
  exited : Main
  undefined : Main

pub record System : Type 0 where
  pub main : Main
  pub buf : List ℕ
  pub forks : ℕ
  pub children : ℕ → Option Child

-- The server in front of its loop, with what its buffer holds before.
abbrev pub start : List ℕ → System
start garbage = record { main = waiting; buf = garbage; forks = 0; children = λ _. none }

pub data Step (s : System) : System → Type 0 where
  request :
      (client : ℕ) (bytes : List ℕ) {text : List ℕ}
      → s.main ≡ waiting
      → string_of (receive bytes s.buf) ≡ done text
      → Step s (record s { main = forking client; buf = receive bytes s.buf })
  unended_request :
      (bytes : List ℕ)
      → s.main ≡ waiting
      → string_of (receive bytes s.buf) ≡ fault
      → Step s (record s { main = undefined })
  no_request : s.main ≡ waiting → Step s (record s { main = exited })
  forks :
      {client : ℕ}
      → s.main ≡ forking client
      → Step s (record s {
        main = waiting;
        forks = s.forks + 1;
        children = update s.children s.forks (some (child_of client s.buf));
      })
  cannot_fork : {client : ℕ} → s.main ≡ forking client → Step s (record s { main = waiting })
  child_steps :
      (i : ℕ) {c c' : Child}
      → s.children i ≡ some c
      → ChildStep c c'
      → Step s (record s { children = update s.children i (some c') })
  child_forks :
      (i : ℕ) {c : Child}
      → s.children i ≡ some c
      → c.phase ≡ forking_again
      → Step s (record s {
        forks = s.forks + 1;
        children =
            update
              (update s.children i (some (record c { phase = waiting_again })))
              s.forks
              (some (child_of c.client c.buf));
      })

pub data Reach (s : System) : System → Type 0 where
  here : Reach s s
  next : {t u : System} → Reach s t → Step t u → Reach s u
