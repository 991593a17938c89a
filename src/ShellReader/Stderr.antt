-- ===== src/ShellReader/Stderr.antt =====
-- The tail of stderr.
use rusttgcalls.Prelude.{
  ℕ, Bool, false, List, [], ◌∷◌, ◌≡◌, inl, inr, refl, ◌∙◌, ap, arith, Bool-cases, last_of,
  if◌then◌else◌,
}
use rusttgcalls.RingBuf
use rusttgcalls.RingBuf.{RingBuffer, write_all}
use rusttgcalls.RingBuf.Tail.{flatten, snapshot-write_all}
use rusttgcalls.ShellReader.{
  Exit, wait_failed, ShellReader, fresh, Event, reaps, closes, calls_close, exits, writes,
  ends_stderr, sets_on_exit, reap, call_close, close, exit_with, read_stderr, set_on_exit,
  stderr_tail, step, run,
}

-- The chunks that are read from stderr.
abbrev pub chunks : Bool → List Event → List (List ℕ)
chunks is_open [] = []
chunks is_open (writes chunk ∷ l) =
    let rest = chunks is_open l in if is_open then chunk ∷ rest else rest
chunks is_open (ends_stderr ∷ l) = chunks false l
chunks is_open (reaps ∷ l) = chunks is_open l
chunks is_open (closes ∷ l) = chunks is_open l
chunks is_open (calls_close ∷ l) = chunks is_open l
chunks is_open (exits e ∷ l) = chunks is_open l
chunks is_open (sets_on_exit ∷ l) = chunks is_open l

-- What the other steps leave alone.
reap-stderr :
    (r : ShellReader)
    → ((reap r).stderr_ring ≡ r.stderr_ring) × ((reap r).stderr_open ≡ r.stderr_open)
unfolding reap
reap-stderr r = (ground arith, ground arith)

close-stderr :
    (r : ShellReader)
    → ((close r).stderr_ring ≡ r.stderr_ring) × ((close r).stderr_open ≡ r.stderr_open)
unfolding close
close-stderr r = (ground arith, ground arith)

others-stderr :
    (e : Exit) (r : ShellReader)
    → ((call_close r).stderr_ring ≡ r.stderr_ring)
      × ((call_close r).stderr_open ≡ r.stderr_open)
      × ((exit_with e r).stderr_ring ≡ r.stderr_ring)
      × ((exit_with e r).stderr_open ≡ r.stderr_open)
unfolding call_close exit_with
others-stderr e r = (ground arith, ground arith, ground arith, ground arith)

run-stderr :
    (l : List Event) (r : ShellReader)
    → (run l r).stderr_ring ≡ write_all r.stderr_ring (chunks r.stderr_open l)
unfolding run step read_stderr set_on_exit write_all
run-stderr [] r = refl
run-stderr (reaps ∷ l) r = ground (arith, run-stderr l (reap r), reap-stderr r)
run-stderr (closes ∷ l) r = ground (arith, run-stderr l (close r), close-stderr r)
run-stderr (calls_close ∷ l) r =
    ground (arith, run-stderr l (call_close r), others-stderr (wait_failed []) r)
run-stderr (exits e ∷ l) r = ground (arith, run-stderr l (exit_with e r), others-stderr e r)
run-stderr (writes chunk ∷ l) r = elim (Bool-cases r.stderr_open) [
  | inl e ↦
      ground
        (arith, e, run-stderr l (record r { stderr_ring = (RingBuf.write r.stderr_ring chunk).0 }))
  | inr e ↦ ground (arith, e, run-stderr l r)
]
run-stderr (ends_stderr ∷ l) r = run-stderr l (record r { stderr_open = false })
run-stderr (sets_on_exit ∷ l) r = run-stderr l (set_on_exit r)

-- The tail of stderr is the last 4096 bytes of what was read from it, in order, whatever else happens
-- meanwhile.
pub stderr_tail-run :
    (l : List Event) (stream_stderr : Bool)
    → stderr_tail (run l (fresh stream_stderr)) ≡ last_of 4096 (flatten (chunks stream_stderr l))
unfolding stderr_tail
stderr_tail-run l stream_stderr =
    ap RingBuf.snapshot (run-stderr l (fresh stream_stderr))
    ∙ snapshot-write_all 4096 (chunks stream_stderr l)
