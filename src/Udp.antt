-- ===== src/Udp.antt =====
-- appendixC/uiciudp.c, datagrams, and its clients chapter20/request_reply.c,
-- chapter20/request_reply_timeout.c and chapter20/request_reply_timeout_retry.c. A double number of
-- seconds is split by `whole` and `micros`, as in `add2currenttime`. A port is a `u_port_t`, a number
-- below 2 ^ 16, also where the clients take it as an `int`.
pub mod Laws
pub mod Replies
pub mod Retries
mod Tests
use usp.Base.{
  ℕ, zero, suc, ◌+◌, ◌-◌, Bool, true, false, ◌||◌, ◌&&◌, not, Option, none, some, List, [], ◌∷◌,
  ◌++◌, length, take, ◌==◌, ltb, leb, if◌then◌else◌,
}
use usp.Base.Int.{ℤ}
use usp.Os.{Errno, Reply, ok, fail, Os}
use usp.Restart.{restart, r_close}
use usp.Restart.Time.{add2currenttime, waitfdtimed}
use usp.Io.{Run, then_do, ◌>>=◌, call, done, or_clean, or_else}
use usp.Text.{codes, decimal}
use usp.Net.{Addr, short, dgram, Net}
use usp.Uici.{inaddr_any, addr2name, name2addr}

-- The `memcmp` of `u_comparehost` with the address that `name2addr` found, if it found one.
unfoldable pub same_addr : Addr → Option ℕ → Bool
same_addr ubufp none = false
same_addr ubufp (some addr) = ubufp.sin_addr == addr

module _ {os : Os} (net : Net os) where
  open os use {World}
  open net use {
    socket, reuse_addr, bind, recvfrom, sendto, inet_addr, add_membership, drop_membership,
  }

  unfoldable pub u_openudp : ℕ → ℕ → Run World ℤ
  u_openudp fuel port = do
    sock ← call (socket dgram)
    _ ← λ w. or_clean (some (reuse_addr sock w)) (r_close os fuel sock)
    λ w.
        if ltb 0 port
        then then_do
            (or_clean (some (bind sock (record { sin_addr = inaddr_any; sin_port = short port }) w))
              (r_close os fuel sock))
            (λ _. done sock)
        else done sock w

  unfoldable pub u_recvfrom : ℕ → ℤ → ℕ → Run World (List ℕ × Addr)
  u_recvfrom fuel fd nbytes = restart fuel (recvfrom fd nbytes)

  -- The name of the host that filled the buffer `ubufp`.
  unfoldable pub u_gethostname : Addr → ℕ → World → List ℕ × World
  unfolding addr2name
  u_gethostname ubufp hostnsize = addr2name net ubufp.sin_addr hostnsize

  -- The string in `info`, a buffer of `infosize` bytes; `infosize` is not 0.
  unfoldable pub u_gethostinfo : Addr → ℕ → World → List ℕ × World
  unfolding u_gethostname
  u_gethostinfo ubufp infosize w =
      let text = codes "port number is " ++ (decimal ubufp.sin_port ++ codes " on host ") in
      if leb infosize (length text)
      then (take (infosize - 1) text, w)
      else (let (name, w') = u_gethostname ubufp (infosize - length text) w in (text ++ name, w'))

  unfoldable pub u_comparehost : Addr → List ℕ → ℕ → World → Bool × World
  unfolding same_addr
  u_comparehost ubufp hostn port w =
      if port == ubufp.sin_port
      then (let (addr, w') = name2addr net hostn w in (same_addr ubufp addr, w'))
      else (false, w)

  unfoldable pub u_sendto : ℕ → ℤ → List ℕ → Addr → Run World ℕ
  u_sendto fuel fd buf ubufp = restart fuel (sendto fd buf ubufp)

  unfoldable pub u_sendtohost : ℕ → ℤ → List ℕ → List ℕ → ℕ → Run World ℕ
  unfolding u_sendto
  u_sendtohost fuel fd buf hostn port w =
      let (addr, w') = name2addr net hostn w in
      elim addr [
        | none ↦ some (fail Errno.einval w')
        | some a ↦ u_sendto fuel fd buf (record { sin_addr = a; sin_port = short port }) w'
      ]

  -- The descriptor, and what is put into `ubufp`.
  unfoldable pub u_join : ℕ → List ℕ → ℕ → Run World (ℤ × Addr)
  unfolding u_openudp
  u_join fuel ip_address port = do
    mcastfd ← u_openudp fuel port
    _ ← call (add_membership mcastfd (inet_addr ip_address))
    done (mcastfd, record { sin_addr = inet_addr ip_address; sin_port = short port })

  unfoldable pub u_leave : ℤ → Addr → Run World (Unit {0})
  u_leave mcastfd ubufp = call (drop_membership mcastfd ubufp.sin_addr)

  -- The loop that waits for a datagram from the right server: `recv` is the call that waits.
  unfoldable pub match_loop : ℕ → Run World (List ℕ × Addr) → List ℕ → ℕ → Run World (List ℕ)
  match_loop zero recv server serverport w = none
  match_loop (suc fuel) recv server serverport w = elim (recv w) [
    | none ↦ none
    | some (fail e w') ↦ some (fail e w')
    | some (ok r w') ↦ elim (u_comparehost r.1 server serverport w').0 [
      | true ↦ some (ok r.0 (u_comparehost r.1 server serverport w').1)
      | false ↦ match_loop fuel recv server serverport (u_comparehost r.1 server serverport w').1
    ]
  ]

  unfoldable pub request_reply : ℕ → ℤ → List ℕ → List ℕ → ℕ → ℕ → Run World (List ℕ)
  unfolding match_loop u_recvfrom u_sendtohost
  request_reply fuel requestfd request server serverport replen = do
    _ ← u_sendtohost fuel requestfd request server serverport
    match_loop fuel (u_recvfrom fuel requestfd replen) server serverport

  module _ {Double : Type 0} (whole micros : Double → ℤ) where
    unfoldable pub u_recvfromtimed : ℕ → ℤ → ℕ → Double → Run World (List ℕ × Addr)
    u_recvfromtimed fuel fd nbytes seconds w =
        let (timedone, w') = add2currenttime os whole micros seconds w in
        then_do (waitfdtimed os fuel fd timedone w') (λ _. restart fuel (recvfrom fd nbytes))

    unfoldable pub request_reply_timeout :
        ℕ → ℤ → List ℕ → List ℕ → ℕ → ℕ → Double → Run World (List ℕ)
    unfolding match_loop u_recvfromtimed u_sendtohost
    request_reply_timeout fuel requestfd request server serverport replen timeout = do
      _ ← u_sendtohost fuel requestfd request server serverport
      match_loop fuel (u_recvfromtimed fuel requestfd replen timeout) server serverport

    -- The loop with `n` tries left of `maxretries`.
    unfoldable pub retry_loop : ℕ → ℕ → ℤ → List ℕ → List ℕ → ℕ → ℕ → Double → Run World (List ℕ)
    unfolding match_loop u_recvfromtimed u_sendtohost
    retry_loop fuel zero requestfd request server serverport replen timeout w =
        some (fail Errno.etime w)
    retry_loop fuel (suc n) requestfd request server serverport replen timeout w =
        then_do (u_sendtohost fuel requestfd request server serverport w) (λ _ w'.
          or_else
            (match_loop fuel (u_recvfromtimed fuel requestfd replen timeout) server serverport w')
            (retry_loop fuel n requestfd request server serverport replen timeout))

    unfoldable pub request_reply_timeout_retry :
        ℕ → ℤ → List ℕ → List ℕ → ℕ → ℕ → Double → ℕ → Run World (List ℕ)
    unfolding retry_loop
    request_reply_timeout_retry fuel requestfd request server serverport replen timeout maxretries =
        retry_loop fuel maxretries requestfd request server serverport replen timeout
