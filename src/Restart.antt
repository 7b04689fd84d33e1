-- ===== src/Restart.antt =====
-- The restart library, appendixB/restart.c. A loop runs on fuel, and `none` means that the fuel ran
-- out; enough is the bytes to move plus the interruptions to come. `errno` is part of the reply. A buffer is
-- the list of its bytes, and sizes are below `SSIZE_MAX`, so that no count wraps.
pub mod Time
pub mod Timing
pub mod Laws
pub mod Retry
pub mod Readblock
pub mod Readline
pub mod Frame
pub mod Copy
pub mod Demo
mod Tests
pub mod Write
use usp.Base.{
  ℕ, zero, suc, ◌+◌, ◌-◌, Bool, true, false, Option, none, some, List, [], ◌∷◌, ◌++◌, length, drop,
  ◌==◌, ltb,
}
use usp.Base.Int.{ℤ}
use usp.Os.{Errno, is_eintr, Reply, ok, fail, Os}

-- `while (retval = call, retval == -1 && errno == EINTR) ;`
module _ {W A : Type 0} where
  unfoldable pub restart : ℕ → (W → Reply W A) → W → Option (Reply W A)
  unfolding is_eintr
  restart zero call w = none
  restart (suc fuel) call w = elim (call w) [
    | ok a w' ↦ some (ok a w')
    | fail e w' ↦ elim (is_eintr e) [ true ↦ restart fuel call w' | false ↦ some (fail e w') ]
  ]

module _ (os : Os) where
  open os use {World, pipe_buf, read, write, close, dup2, open2, open3, wait, waitpid}

  unfoldable pub r_close : ℕ → ℤ → World → Option (Reply World (Unit {0}))
  r_close fuel fildes = restart fuel (close fildes)

  unfoldable pub r_dup2 : ℕ → ℤ → ℤ → World → Option (Reply World ℤ)
  r_dup2 fuel fildes fildes2 = restart fuel (dup2 fildes fildes2)

  unfoldable pub r_open2 : ℕ → List ℕ → ℕ → World → Option (Reply World ℤ)
  r_open2 fuel path oflag = restart fuel (open2 path oflag)

  unfoldable pub r_open3 : ℕ → List ℕ → ℕ → ℕ → World → Option (Reply World ℤ)
  r_open3 fuel path oflag mode = restart fuel (open3 path oflag mode)

  unfoldable pub r_read : ℕ → ℤ → ℕ → World → Option (Reply World (List ℕ))
  r_read fuel fd size = restart fuel (read fd size)

  unfoldable pub r_wait : ℕ → World → Option (Reply World (ℤ × ℕ))
  r_wait fuel = restart fuel wait

  unfoldable pub r_waitpid : ℕ → ℤ → ℕ → World → Option (Reply World (ℤ × ℕ))
  r_waitpid fuel pid options = restart fuel (waitpid pid options)

  -- The loop of `r_write`: the bytes from `bufp` on, and `totalbytes`.
  unfoldable pub r_write_loop : ℕ → ℤ → List ℕ → ℕ → World → Option (Reply World ℕ)
  unfolding is_eintr
  r_write_loop zero fd bufp totalbytes w = none
  r_write_loop (suc fuel) fd bufp totalbytes w = elim (ltb 0 (length bufp)) [
    | false ↦ some (ok totalbytes w)
    | true ↦ elim (write fd bufp w) [
      | ok byteswritten w' ↦
          r_write_loop fuel fd (drop byteswritten bufp) (totalbytes + byteswritten) w'
      | fail e w' ↦ elim (is_eintr e) [
        | true ↦ r_write_loop fuel fd bufp totalbytes w'
        | false ↦ some (fail e w')
      ]
    ]
  ]

  unfoldable pub r_write : ℕ → ℤ → List ℕ → World → Option (Reply World ℕ)
  unfolding r_write_loop
  r_write fuel fd buf w = r_write_loop fuel fd buf 0 w

  -- The loop of `readblock`: `bytestoread`, `totalbytes` and what the buffer holds so far.
  unfoldable pub readblock_loop : ℕ → ℤ → ℕ → ℕ → List ℕ → World → Option (Reply World (ℕ × List ℕ))
  unfolding is_eintr
  readblock_loop zero fd bytestoread totalbytes buf w = none
  readblock_loop (suc fuel) fd bytestoread totalbytes buf w = elim (ltb 0 bytestoread) [
    | false ↦ some (ok (totalbytes, buf) w)
    | true ↦ elim (read fd bytestoread w) [
      | ok bs w' ↦ elim (length bs == 0) [
        | true ↦ elim (totalbytes == 0) [
          | true ↦ some (ok (0, buf) w')
          | false ↦ some (fail Errno.einval w')
        ]
        | false ↦
            readblock_loop fuel fd (bytestoread - length bs) (totalbytes + length bs) (buf ++ bs) w'
      ]
      | fail e w' ↦ elim (is_eintr e) [
        | true ↦ readblock_loop fuel fd bytestoread totalbytes buf w'
        | false ↦ some (fail e w')
      ]
    ]
  ]

  unfoldable pub readblock : ℕ → ℤ → ℕ → World → Option (Reply World (ℕ × List ℕ))
  unfolding readblock_loop
  readblock fuel fd size w = readblock_loop fuel fd size 0 [] w

  -- The loop of `readline`: `numread` and the bytes in `buf`. The terminating 0 is not part of the
  -- result, and `nbytes` is not negative.
  unfoldable pub readline_loop : ℕ → ℤ → ℕ → ℕ → List ℕ → World → Option (Reply World (ℕ × List ℕ))
  unfolding is_eintr
  readline_loop zero fd nbytes numread buf w = none
  readline_loop (suc fuel) fd nbytes numread buf w = elim (ltb numread (nbytes - 1)) [
    | false ↦ some (fail Errno.einval w)
    | true ↦ elim (read fd 1 w) [
      | fail e w' ↦ elim (is_eintr e) [
        | true ↦ readline_loop fuel fd nbytes numread buf w'
        | false ↦ some (fail e w')
      ]
      | ok bs w' ↦ elim bs [
        | [] ↦ elim (numread == 0) [
          | true ↦ some (ok (0, buf) w')
          | false ↦ some (fail Errno.einval w')
        ]
        | c ∷ rest ↦ elim (c == b'\n') [
          | true ↦ some (ok (numread + 1, buf ++ (c ∷ [])) w')
          | false ↦ readline_loop fuel fd nbytes (numread + 1) (buf ++ (c ∷ [])) w'
        ]
      ]
    ]
  ]

  unfoldable pub readline : ℕ → ℤ → ℕ → World → Option (Reply World (ℕ × List ℕ))
  unfolding readline_loop
  readline fuel fd nbytes w = readline_loop fuel fd nbytes 0 [] w

  unfoldable pub readwrite : ℕ → ℤ → ℤ → World → Option (Reply World ℕ)
  readwrite fuel fromfd tofd w = elim (r_read fuel fromfd pipe_buf w) [
    | none ↦ none
    | some (fail e w') ↦ some (fail e w')
    | some (ok buf w') ↦ elim (length buf == 0) [
      | true ↦ some (ok 0 w')
      | false ↦ elim (r_write fuel tofd buf w') [
        | none ↦ none
        | some (fail e w'') ↦ some (fail e w'')
        | some (ok n w'') ↦ some (ok (length buf) w'')
      ]
    ]
  ]

  -- The loop of `copyfile`. The result is `totalbytes`; an error of `readwrite` only ends the loop.
  unfoldable pub copyfile_loop : ℕ → ℕ → ℤ → ℤ → ℕ → World → Option (ℕ × World)
  copyfile_loop zero calls fromfd tofd totalbytes w = none
  copyfile_loop (suc fuel) calls fromfd tofd totalbytes w = elim (readwrite calls fromfd tofd w) [
    | none ↦ none
    | some (fail e w') ↦ some (totalbytes, w')
    | some (ok bytesread w') ↦ elim (ltb 0 bytesread) [
      | true ↦ copyfile_loop fuel calls fromfd tofd (totalbytes + bytesread) w'
      | false ↦ some (totalbytes, w')
    ]
  ]

  unfoldable pub copyfile : ℕ → ℕ → ℤ → ℤ → World → Option (ℕ × World)
  unfolding copyfile_loop
  copyfile fuel calls fromfd tofd w = copyfile_loop fuel calls fromfd tofd 0 w

  -- `readblock` returns `size`, or 0 or -1, which are passed on.
  unfoldable pub readwriteblock : ℕ → ℤ → ℤ → ℕ → World → Option (Reply World ℕ)
  readwriteblock fuel fromfd tofd size w = elim (readblock fuel fromfd size w) [
    | none ↦ none
    | some (fail e w') ↦ some (fail e w')
    | some (ok (bytesread, buf) w') ↦ elim (bytesread == size) [
      | true ↦ r_write fuel tofd buf w'
      | false ↦ some (ok bytesread w')
    ]
  ]
