-- ===== src/Uici/Demo.antt =====
-- A small system with sockets for the laws: signals that interrupt the calls that wait, and a box of
-- datagrams that have arrived.
use usp.Base.{ℕ, zero, suc, ◌+◌, ◌≡◌, refl, ap, true, none, some, List, [], ◌∷◌, length, arith}
use usp.Base.Int.{ℤ, pos}
use usp.Os.{Errno, Reply, ok, fail, Os}
use usp.Restart.Demo.{noon}
use usp.Net.{Addr, Net}
use usp.Uici.Laws.{Quiet, QuietWait, Accepts, Closes, Sockets}
use usp.Udp.Laws.{SilentWait, Receives, Sends, Datagrams}

pub record Box : Type 0 where
  pub fds : List ℤ
  pub port : ℕ
  pub signals : ℕ
  pub sent : ℕ
  pub inbox : List (List ℕ × Addr)

abbrev pub patience : Box → ℕ
patience b = b.signals + length b.inbox

-- A call that a signal may interrupt.
abbrev pub unless_signal : {A : Type 0} → ℕ → Box → Reply Box A → Reply Box A
unless_signal zero b r = r
unless_signal (suc k) b r = fail Errno.eintr (record b { signals = k })

abbrev pub shut : List ℤ → Box → Reply Box (Unit {0})
shut [] b = fail (Errno.other 9) b
shut (fd ∷ fds) b = ok tt (record b { fds = fds })

abbrev pub receive : List (List ℕ × Addr) → Box → Reply Box (List ℕ × Addr)
receive [] b = fail Errno.eagain b
receive (m ∷ ms) b = ok m (record b { inbox = ms })

abbrev pub box : Os
box = record {
  World = Box;
  pipe_buf = 16;
  fd_setsize = 1024;
  read = λ fd n b. ok [] b;
  write = λ fd bs b. ok 0 b;
  close = λ fd b. unless_signal b.signals b (shut b.fds b);
  dup2 = λ x y b. ok y b;
  open2 = λ p f b. ok (pos 3) b;
  open3 = λ p f m b. ok (pos 3) b;
  wait = λ b. ok (pos 100, 0) b;
  waitpid = λ p o b. ok (p, 0) b;
  gettimeofday = λ b. (noon, b);
  select = λ fds t b. unless_signal b.signals b (ok fds b);
}

-- The address 127 has no name, and every name has the address 99.
abbrev pub wires : Net box
wires = record {
  default_sigpipe = λ b. ok true b;
  ignore_sigpipe = λ b. ok tt b;
  socket = λ k b. ok (pos 7) (record b { fds = pos 7 ∷ b.fds });
  reuse_addr = λ fd b. ok tt b;
  bind = λ fd a b. ok tt (record b { port = a.sin_port });
  listen = λ fd n b. ok tt b;
  accept = λ fd b.
      unless_signal b.signals b
        (ok (pos 8, record { sin_addr = 127; sin_port = 5000 }) (record b { fds = pos 8 ∷ b.fds }));
  connect = λ fd a b. unless_signal b.signals b (ok tt b);
  select_write = λ fd b. unless_signal b.signals b (ok tt b);
  inet_addr = λ s. length s;
  inet_ntoa = λ a. b'1' ∷ b'2' ∷ b'7' ∷ [];
  gethostbyname = λ name b. (some 99, b);
  gethostbyaddr = λ a b. (none, b);
  recvfrom = λ fd n b. unless_signal b.signals b (receive b.inbox b);
  sendto = λ fd bs a b. unless_signal b.signals b (ok (length bs) (record b { sent = suc b.sent }));
  add_membership = λ fd a b. ok tt b;
  drop_membership = λ fd a b. ok tt b;
}

pub wait-QuietWait :
    {A : Type 0} (a : A) (k : ℕ) (b : Box)
    → b.signals ≡ k
    → QuietWait (λ x. x.fds) patience b (unless_signal k b (ok a b))
wait-QuietWait a zero b e = (refl, omega arith)
wait-QuietWait a (suc k) b e = ((refl, omega arith), λ _. omega arith)

pub wait-Quiet :
    (k : ℕ) (b : Box) → b.signals ≡ k → Quiet (λ x. x.fds) patience b (unless_signal k b (ok tt b))
wait-Quiet zero b e = (refl, omega arith)
wait-Quiet (suc k) b e = (refl, omega arith)

pub accept-Accepts :
    (r : ℤ × Addr) (k : ℕ) (b : Box)
    → b.signals ≡ k
    → Accepts (λ x. x.fds) patience b (unless_signal k b (ok r (record b { fds = r.0 ∷ b.fds })))
accept-Accepts r zero b e = (refl, omega arith)
accept-Accepts r (suc k) b e = ((refl, omega arith), λ _. omega arith)

pub shut-Closes :
    (fd : ℤ) (rest l : List ℤ) (k : ℕ) (b : Box)
    → b.signals ≡ k
    → b.fds ≡ l
    → l ≡ fd ∷ rest
    → Closes (λ x. x.fds) patience b rest (unless_signal k b (shut l b))
shut-Closes fd rest l (suc k) b e f g =
    ((λ _. ((refl, omega arith), omega arith)), (λ ne. absurd (ne refl)))
shut-Closes fd rest [] zero b e f g = absurd (cc g)
shut-Closes fd rest (x ∷ l) zero b e f g = (ground (arith, g), omega arith)

abbrev pub sockets : Sockets wires
sockets = record {
  fds = λ b. b.fds;
  patience = patience;
  bound = λ b fd p. b.port ≡ p;
  listening = λ b fd p. b.port ≡ p;
  default_sigpipe_law = λ b. (refl, omega arith);
  ignore_sigpipe_law = λ b. (refl, omega arith);
  socket_law = λ k b. (refl, omega arith);
  reuse_addr_law = λ fd b. (refl, omega arith);
  bind_law = λ fd a b. (refl, omega arith);
  bind_ok = λ fd a b v e. ground arith;
  listen_law = λ fd n b. (refl, omega arith);
  listen_ok = λ fd n port b v p e. ground arith;
  accept_law = λ fd b. accept-Accepts _ b.signals b refl;
  connect_law = λ fd a b. wait-Quiet b.signals b refl;
  select_write_law = λ fd b. wait-QuietWait tt b.signals b refl;
  gethostbyname_law = λ name b. (refl, omega arith);
  gethostbyaddr_law = λ a b. (refl, omega arith);
  close_law = λ fd rest b e. shut-Closes fd rest b.fds b.signals b refl refl e;
}

pub select-SilentWait :
    {A : Type 0} (a : A) (k : ℕ) (b : Box)
    → b.signals ≡ k
    → SilentWait (λ x. x.sent) patience b (unless_signal k b (ok a b))
select-SilentWait a zero b e = (refl, omega arith)
select-SilentWait a (suc k) b e = ((refl, omega arith), λ _. omega arith)

pub receive-Receives :
    (ms : List (List ℕ × Addr)) (k : ℕ) (b : Box)
    → b.signals ≡ k
    → b.inbox ≡ ms
    → Receives (λ x. x.sent) patience b (unless_signal k b (receive ms b))
receive-Receives ms (suc k) b e f = ((refl, omega arith), λ _. omega arith)
receive-Receives [] zero b e f = ((refl, omega arith), λ n. cc)
receive-Receives (m ∷ ms) zero b e f = (refl, omega (arith, ap length f))

pub send-Sends :
    (n k : ℕ) (b : Box)
    → b.signals ≡ k
    → Sends (λ x. x.sent) patience b (unless_signal k b (ok n (record b { sent = suc b.sent })))
send-Sends n zero b e = (refl, omega arith)
send-Sends n (suc k) b e = ((refl, omega arith), λ _. omega arith)

abbrev pub datagrams : Datagrams wires
datagrams = record {
  sent = λ b. b.sent;
  patience = patience;
  recvfrom_law = λ fd n b. receive-Receives b.inbox b.signals b refl refl;
  sendto_law = λ fd bs a b. send-Sends (length bs) b.signals b refl;
  gethostbyname_law = λ name b. (refl, omega arith);
  gettimeofday_law = λ b. (refl, omega arith);
  select_law = λ fds t b. select-SilentWait fds b.signals b refl;
}
