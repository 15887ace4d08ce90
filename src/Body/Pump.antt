-- ===== src/Body/Pump.antt =====
-- The pump of `SharedBody::from_reader` in src/net/shared_body.rs: the loop that reads a body and
-- pushes it, within its size limit.
use gosub_sonar.Prelude.{
  ℕ, zero, suc, ◌+◌, ◌-◌, ◌^◌, Bool, true, false, List, [], ◌∷◌, Option, none, some, Text,
  if◌then◌else◌, ◌==◌, min, length, codes,
}
use gosub_sonar.Web.Errors.{NetError, cancelled, timeout, read}

-- The options that the loop reads; the others only say when a turn may be one of the interrupts.
pub record ReaderOptions : Type 0 where
  pub buf_size : ℕ
  pub max_size : Option ℕ

abbrev pub u64_max : ℕ
u64_max = 2 ^ 64 - 1

abbrev pub take : ℕ → Text → Text
take zero t = []
take (suc n) [] = []
take (suc n) (b ∷ t) = b ∷ take n t

abbrev pub drop : ℕ → Text → Text
drop zero t = t
drop (suc n) [] = []
drop (suc n) (b ∷ t) = drop n t

-- How many bytes the next read may take, and whether it only probes for the end.
unfoldable pub read_cap : ReaderOptions → ℕ → ℕ × Bool
read_cap opts total_read = elim opts.max_size [
  | none ↦ (opts.buf_size, false)
  | some max ↦
      let remaining = max - total_read in
      if remaining == 0 then (1, true) else (min remaining opts.buf_size, false)
]

module _ (Url : Type 0) where
  -- What the `select!` around a read gives: the reader has bytes (up to `suc more` of them are
  -- taken), it fails, or it is interrupted.
  pub data ReadTurn : Type 0 where
    reads : (more : ℕ) → ReadTurn
    read_fails : NetError Url → ReadTurn
    abandoned read_cancelled read_idle read_late : ReadTurn

  -- What the push of a chunk gives: it is done, with or without the deadline passed by then, or it
  -- is interrupted (which `select!` may notice before or after the chunk is recorded), or nobody is
  -- left to read the body.
  pub data PushTurn : Type 0 where
    pushed pushed_late nobody_left : PushTurn
    push_cancelled push_late : (recorded : Bool) → PushTurn

  pub data End : Type 0 where
    finished stopped running : End
    failed : NetError Url → End

  abbrev pub max_size_error : NetError Url
  max_size_error = read (codes "max size exceeded during read")

  abbrev pub read_cancelled_error : NetError Url
  read_cancelled_error = cancelled (codes "read cancelled")

  abbrev pub total_timeout_error : NetError Url
  total_timeout_error = timeout (codes "total read timeout")

  abbrev pub after_push : PushTurn → Text → List Text × End → List Text × End
  after_push pushed chunk rest = (chunk ∷ rest.0, rest.1)
  after_push pushed_late chunk rest = (chunk ∷ [], failed total_timeout_error)
  after_push nobody_left chunk rest = ([], stopped)
  after_push (push_cancelled recorded) chunk rest =
      (if recorded then chunk ∷ [] else [], failed read_cancelled_error)
  after_push (push_late recorded) chunk rest =
      (if recorded then chunk ∷ [] else [], failed total_timeout_error)

  -- The chunks that are pushed, and how the body ends; `running` when the turns run out. `source`
  -- is what the reader has still to give.
  unfoldable pub pump :
      ReaderOptions
      → (total_read : ℕ) → (source : Text) → List (ReadTurn × PushTurn)
      → List Text × End
  unfolding read_cap
  pump opts total_read source [] = ([], running)
  pump opts total_read source ((read_fails e, p) ∷ turns) = ([], failed e)
  pump opts total_read source ((abandoned, p) ∷ turns) = ([], stopped)
  pump opts total_read source ((read_cancelled, p) ∷ turns) = ([], failed read_cancelled_error)
  pump opts total_read source ((read_idle, p) ∷ turns) =
      ([], failed (timeout (codes "read idle timeout")))
  pump opts total_read source ((read_late, p) ∷ turns) = ([], failed total_timeout_error)
  pump opts total_read source ((reads more, p) ∷ turns) =
      let (cap, probing) = read_cap opts total_read in
      let chunk = take (min (suc more) cap) source in
      let n = length chunk in
      let rest =
        pump opts (min (total_read + n) u64_max) (drop (min (suc more) cap) source) turns in
      if n == 0
      then ([], finished)
      else if probing
      then ([], failed max_size_error)
      else after_push p chunk rest
