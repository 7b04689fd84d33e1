-- ===== src/Uici.antt =====
-- appendixC/uici.c, connections by sockets, and the name functions of appendixC/uiciname.c in their
-- default version. A loop runs on fuel.
pub mod Laws
pub mod Leaks
pub mod Accepted
pub mod Demo
mod Tests
use usp.Base.{
  ℕ, ◌-◌, Bool, true, false, ◌||◌, ◌&&◌, not, Option, none, some, List, [], ◌∷◌, take, ltb, leb,
  if◌then◌else◌,
}
use usp.Base.Int.{ℤ, pos, negsuc}
use usp.Os.{Errno, Reply, ok, fail, Os}
use usp.Restart.{restart}
use usp.Io.{Run, then_do, ◌>>=◌, call, done, give_up, or_clean}
use usp.Net.{Addr, short, Kind, stream, dgram, Net}

abbrev pub maxbacklog : ℕ
maxbacklog = 50

-- `htonl(INADDR_ANY)`
abbrev pub inaddr_any : ℕ
inaddr_any = 0

-- `isdigit(*name)`; the first byte of an empty string is 0.
unfoldable pub starts_with_digit : List ℕ → Bool
starts_with_digit [] = false
starts_with_digit (c ∷ name) = leb b'0' c && leb c b'9'

-- `(errno == EINTR) || (errno == EALREADY)`
unfoldable pub in_progress : Errno → Bool
in_progress Errno.eintr = true
in_progress Errno.ealready = true
in_progress _ = false

module _ {os : Os} (net : Net os) where
  open os use {World, close}
  open net use {
    default_sigpipe, ignore_sigpipe, socket, reuse_addr, bind, listen, accept, connect,
    select_write, inet_addr, inet_ntoa, gethostbyname, gethostbyaddr,
  }

  -- The name that `addr2name` copies into a buffer of `namelen` bytes, the last of which is 0.
  unfoldable pub addr2name : ℕ → ℕ → World → List ℕ × World
  addr2name addr namelen w =
      let (host, w') = gethostbyaddr addr w in
      elim host [
        | none ↦ (take (namelen - 1) (inet_ntoa addr), w')
        | some h_name ↦ (take (namelen - 1) h_name, w')
      ]

  -- The address, or `none` for -1.
  unfoldable pub name2addr : List ℕ → World → Option ℕ × World
  name2addr name w =
      if starts_with_digit name then (some (inet_addr name), w) else gethostbyname name w

  unfoldable pub u_ignore_sigpipe : Run World (Unit {0})
  u_ignore_sigpipe = do
    default ← call default_sigpipe
    if default then call ignore_sigpipe else done tt

  -- The loop that closes `sock` on an error.
  unfoldable pub close_all : ℕ → ℤ → Run World (Unit {0})
  close_all fuel sock = restart fuel (close sock)

  unfoldable pub u_open : ℕ → ℕ → Run World ℤ
  unfolding close_all u_ignore_sigpipe
  u_open fuel port = do
    _ ← u_ignore_sigpipe
    sock ← call (socket stream)
    _ ← λ w. or_clean (some (reuse_addr sock w)) (close_all fuel sock)
    _ ← λ w.
        or_clean
          (then_do (some (bind sock (record { sin_addr = inaddr_any; sin_port = short port }) w))
            (λ _. call (listen sock maxbacklog)))
          (close_all fuel sock)
    done sock

  -- The descriptor, and the name that is put into `hostn`, if one is. `hostn` says whether the
  -- pointer is not NULL.
  unfoldable pub u_accept : ℕ → ℤ → Bool → ℤ → Run World (ℤ × Option (List ℕ))
  unfolding addr2name
  u_accept fuel fd hostn (negsuc n) = do
    (retval, netclient) ← restart fuel (accept fd)
    done (retval, none)
  u_accept fuel fd hostn (pos hostnsize) = do
    (retval, netclient) ← restart fuel (accept fd)
    λ w.
        if not hostn || leb hostnsize 0
        then done (retval, none) w
        else (let (name, w') = addr2name netclient.sin_addr hostnsize w in
            done (retval, some name) w')

  -- `connect`, with the wait by `select` when it was interrupted.
  unfoldable pub connect_or_wait : ℕ → ℤ → Addr → Run World (Unit {0})
  unfolding in_progress
  connect_or_wait fuel sock server w = elim (connect sock server w) [
    | ok _ w' ↦ some (ok tt w')
    | fail e w' ↦ elim (in_progress e) [
      | true ↦ restart fuel (select_write sock) w'
      | false ↦ some (fail e w')
    ]
  ]

  unfoldable pub u_connect_to : ℕ → Addr → Run World ℤ
  unfolding connect_or_wait close_all u_ignore_sigpipe
  u_connect_to fuel server = do
    _ ← u_ignore_sigpipe
    sock ← call (socket stream)
    _ ← λ w. or_clean (connect_or_wait fuel sock server w) (close_all fuel sock)
    done sock

  unfoldable pub u_connect : ℕ → ℕ → List ℕ → Run World ℤ
  unfolding name2addr u_connect_to
  u_connect fuel port hostn w =
      let (address, w') = name2addr hostn w in
      elim address [
        | none ↦ some (fail Errno.einval w')
        | some addr ↦ u_connect_to fuel (record { sin_addr = addr; sin_port = short port }) w'
      ]
