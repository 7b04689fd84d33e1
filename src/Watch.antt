-- ===== src/Watch.antt =====
-- Files that are watched with `select`: chapter04/monitorselect.c. What `docommand` does is given, as a
-- function on the system.
pub mod Endings
pub mod Closing
pub mod Select
mod Tests
use usp.Base.{
  ℕ, zero, suc, ◌+◌, ◌-◌, Bool, true, false, not, ◌&&◌, ◌||◌, Option, none, some, List, [], ◌∷◌,
  ◌++◌, length, ◌==◌, ltb, leb, if◌then◌else◌,
}
use usp.Base.Int.{ℤ, pos, negsuc}
use usp.Os.{Errno, is_eintr, Reply, ok, fail, Os}
use usp.Restart.{r_close, r_read}

abbrev pub bufsize : ℕ
bufsize = 1024

-- `FD_ISSET` for a descriptor that is not negative.
unfoldable pub fd_isset : ℕ → List ℤ → Bool
fd_isset n [] = false
fd_isset n (pos m ∷ s) = if m == n then true else fd_isset n s
fd_isset n (negsuc m ∷ s) = fd_isset n s

-- The descriptors of the array that are not negative.
unfoldable pub live : List ℤ → List ℤ
live [] = []
live (pos n ∷ fds) = pos n ∷ live fds
live (negsuc n ∷ fds) = live fds

-- The first loop of `monitorselect`: whether every descriptor is in range.
unfoldable pub in_range : ℕ → List ℤ → Bool
in_range fd_setsize [] = true
in_range fd_setsize (pos n ∷ fds) =
    let rest = in_range fd_setsize fds in if leb fd_setsize n then false else rest
in_range fd_setsize (negsuc n ∷ fds) = false

-- Where `monitorselect` stands: the array, `numnow`, and the descriptors that it has closed, in order.
pub record Watched (W : Type 0) : Type 0 where
  pub fds : List ℤ
  pub numnow : ℕ
  pub closed : List ℤ
  pub world : W

abbrev pub with_fd : {W : Type 0} → ℤ → Watched W → Watched W
with_fd fd s = record s { fds = fd ∷ s.fds }

abbrev pub with_closed : {W : Type 0} → ℤ → Watched W → Watched W
with_closed fd s = record s { fds = negsuc 0 ∷ s.fds; closed = fd ∷ s.closed }

abbrev pub map_watched :
    {W : Type 0} → (Watched W → Watched W) → Option (Watched W) → Option (Watched W)
map_watched f none = none
map_watched f (some s) = some (f s)

-- The system after a call whose result is not looked at.
abbrev pub after_call : {W A : Type 0} → Option (Reply W A) → Option W
after_call none = none
after_call (some (ok a w)) = some w
after_call (some (fail e w)) = some w

module _ (os : Os) (docommand : List ℕ → os.World → os.World) where
  open os use {World, fd_setsize, select}

  -- The loop over the descriptors, of which `numready` are still to be served. A descriptor that is done
  -- is -1, and the array has no other negative number: `in_range` refused those.
  unfoldable pub serve : ℕ → List ℤ → List ℤ → ℕ → ℕ → World → Option (Watched World)
  unfolding fd_isset
  serve fuel readset [] numready numnow w =
      some (record { fds = []; numnow = numnow; closed = []; world = w })
  serve fuel readset (fd ∷ fds) zero numnow w =
      some (record { fds = fd ∷ fds; numnow = numnow; closed = []; world = w })
  serve fuel readset (negsuc n ∷ fds) (suc numready) numnow w =
      map_watched (with_fd (negsuc n)) (serve fuel readset fds (suc numready) numnow w)
  serve fuel readset (pos n ∷ fds) (suc numready) numnow w = elim (fd_isset n readset) [
    | false ↦ map_watched (with_fd (pos n)) (serve fuel readset fds (suc numready) numnow w)
    | true ↦ elim (r_read os fuel (pos n) bufsize w) [
      | none ↦ none
      | some (ok [] w') ↦ elim (after_call (r_close os fuel (pos n) w')) [
        | none ↦ none
        | some w'' ↦
            map_watched (with_closed (pos n)) (serve fuel readset fds numready (numnow - 1) w'')
      ]
      | some (ok (b ∷ bs) w') ↦
          map_watched (with_fd (pos n))
            (serve fuel readset fds numready numnow (docommand (b ∷ bs) w'))
      | some (fail e w') ↦ elim (after_call (r_close os fuel (pos n) w')) [
        | none ↦ none
        | some w'' ↦
            map_watched (with_closed (pos n)) (serve fuel readset fds numready (numnow - 1) w'')
      ]
    ]
  ]

  -- The last loop: it closes what is left.
  unfoldable pub close_rest : ℕ → List ℤ → World → Option (List ℤ × World)
  close_rest fuel [] w = some ([], w)
  close_rest fuel (negsuc n ∷ fds) w = close_rest fuel fds w
  close_rest fuel (pos n ∷ fds) w = elim (after_call (r_close os fuel (pos n) w)) [
    | none ↦ none
    | some w' ↦ elim (close_rest fuel fds w') [ none ↦ none | some p ↦ some (pos n ∷ p.0, p.1) ]
  ]

  abbrev pub and_closed : List ℤ → Option (List ℤ × World) → Option (List ℤ × World)
  and_closed closed none = none
  and_closed closed (some (more, w)) = some (closed ++ more, w)

  -- The loop around `select`, and the last loop.
  unfoldable pub watch : ℕ → ℕ → List ℤ → ℕ → World → Option (List ℤ × World)
  unfolding serve close_rest live is_eintr
  watch zero calls fds numnow w = none
  watch (suc fuel) calls fds numnow w = elim (ltb 0 numnow) [
    | false ↦ close_rest calls fds w
    | true ↦ elim (select (live fds) none w) [
      | fail e w' ↦ elim (is_eintr e) [
        | true ↦ watch fuel calls fds numnow w'
        | false ↦ close_rest calls fds w'
      ]
      | ok readset w' ↦ elim (serve calls readset fds (length readset) numnow w') [
        | none ↦ none
        | some s ↦ and_closed s.closed (watch fuel calls s.fds s.numnow s.world)
      ]
    ]
  ]

  -- The descriptors that were closed, in order.
  unfoldable pub monitorselect : ℕ → ℕ → List ℤ → World → Option (List ℤ × World)
  unfolding watch in_range
  monitorselect fuel calls fds w =
      if in_range fd_setsize fds then watch fuel calls fds (length fds) w else some ([], w)
