-- ===== src/Net.antt =====
-- The calls for sockets and names that appendixC asks of the system.
use usp.Base.{ℕ, ◌%◌, ◌^◌, Bool, Option, List}
use usp.Base.Int.{ℤ}
use usp.Os.{Reply, Os}

-- `struct sockaddr_in`, whose port is given in the order of the host.
pub record Addr : Type 0 where
  pub sin_addr : ℕ
  pub sin_port : ℕ

-- `htons((short)port)`, read back with `ntohs`.
abbrev pub short : ℕ → ℕ
short port = port % 2 ^ 16

pub data Kind : Type 0 where
  stream dgram : Kind

-- `default_sigpipe` asks with `sigaction` whether SIGPIPE has its default action; `select_write`
-- waits until a descriptor can be written; `gethostbyname` gives the first address of a name, and
-- `gethostbyaddr` the name of an address, if there is one. They set no `errno`.
pub record Net (os : Os) : Type 1 where
  pub default_sigpipe : os.World → Reply os.World Bool
  pub ignore_sigpipe : os.World → Reply os.World (Unit {0})
  pub socket : Kind → os.World → Reply os.World ℤ
  pub reuse_addr : ℤ → os.World → Reply os.World (Unit {0})
  pub bind : ℤ → Addr → os.World → Reply os.World (Unit {0})
  pub listen : ℤ → ℕ → os.World → Reply os.World (Unit {0})
  pub accept : ℤ → os.World → Reply os.World (ℤ × Addr)
  pub connect : ℤ → Addr → os.World → Reply os.World (Unit {0})
  pub select_write : ℤ → os.World → Reply os.World (Unit {0})
  pub inet_addr : List ℕ → ℕ
  pub inet_ntoa : ℕ → List ℕ
  pub gethostbyname : List ℕ → os.World → Option ℕ × os.World
  pub gethostbyaddr : ℕ → os.World → Option (List ℕ) × os.World
  pub recvfrom : ℤ → ℕ → os.World → Reply os.World (List ℕ × Addr)
  pub sendto : ℤ → List ℕ → Addr → os.World → Reply os.World ℕ
  pub add_membership : ℤ → ℕ → os.World → Reply os.World (Unit {0})
  pub drop_membership : ℤ → ℕ → os.World → Reply os.World (Unit {0})
