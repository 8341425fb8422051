-- ===== src/ManyUsers/Tcp.antt =====
-- The processes of NETS/multi-user TCP_ECHO/server.c. A step is a call of one of them, whose result
-- is any.
pub mod Client
pub mod Replies
pub mod Welcome
mod Tests
use eltex_courses_homeworks.Prelude.{
  ℕ, ◌+◌, ◌≡◌, Bool, Option, none, some, List, [], ◌∷◌, ◌++◌, Outcome, done, receive, codes,
  require, ◌>>=◌, ◌>>◌,
}
use eltex_courses_homeworks.Prelude.Family.{update}

-- The results of `socket`, `bind` and `listen`.
unfoldable pub start : Bool → Bool → Bool → Outcome (Unit {0})
start socket_ok bind_ok listen_ok = do require socket_ok; require bind_ok; require listen_ok

abbrev pub send_from_serv : List ℕ
send_from_serv = codes "Welcome" ++ (0 ∷ [])

-- Where the process of a client stands: before the greeting, before `recv`, or before `send`.
pub data Phase : Type 0 where
  greeting receiving sending : Phase

-- The process of a client: the descriptor that `accept` gave, none being -1, the buffer, what it was
-- at the `fork`, and the messages received and sent since. Results are not looked at.
pub record Child : Type 0 where
  pub cfd : Option ℕ
  pub buf : List ℕ
  pub phase : Phase
  pub forked : List ℕ
  pub received : List (List ℕ)
  pub sent : List (List ℕ)

abbrev pub child_of : Option ℕ → List ℕ → Child
child_of cfd buf = record {
  cfd = cfd;
  buf = buf;
  phase = greeting;
  forked = buf;
  received = [];
  sent = [];
}

pub data ChildStep (c : Child) : Child → Type 0 where
  greets :
      c.phase ≡ greeting
      → ChildStep c (record c { phase = receiving; sent = c.sent ++ (send_from_serv ∷ []) })
  -- No bytes come where the connection has ended, or `recv` fails.
  receives :
      (bytes : List ℕ)
      → c.phase ≡ receiving
      → ChildStep c (record c {
        phase = sending;
        buf = receive bytes c.buf;
        received = c.received ++ (bytes ∷ []);
      })
  sends :
      c.phase ≡ sending
      → ChildStep c (record c { phase = receiving; sent = c.sent ++ (c.buf ∷ []) })

-- Where the server stands: before `accept`, before `fork` for a descriptor, or ended.
pub data Main : Type 0 where
  accepting : Main
  forking : (cfd : Option ℕ) → Main
  exited : Main

-- The server itself never writes to its buffer.
pub record System : Type 0 where
  pub main : Main
  pub buf : List ℕ
  pub forks : ℕ
  pub children : ℕ → Option Child

abbrev pub first : List ℕ → System
first garbage = record { main = accepting; buf = garbage; forks = 0; children = λ _. none }

pub data Step (s : System) : System → Type 0 where
  accepts : (cfd : Option ℕ) → s.main ≡ accepting → Step s (record s { main = forking cfd })
  forks :
      {cfd : Option ℕ}
      → s.main ≡ forking cfd
      → Step s (record s {
        main = accepting;
        forks = s.forks + 1;
        children = update s.children s.forks (some (child_of cfd s.buf));
      })
  cannot_fork : {cfd : Option ℕ} → s.main ≡ forking cfd → Step s (record s { main = exited })
  child_steps :
      (i : ℕ) {c c' : Child}
      → s.children i ≡ some c
      → ChildStep c c'
      → Step s (record s { children = update s.children i (some c') })

pub data Reach (s : System) : System → Type 0 where
  here : Reach s s
  next : {t u : System} → Reach s t → Step t u → Reach s u
