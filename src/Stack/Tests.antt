-- ===== src/Stack/Tests.antt =====
-- A connection that is connected and closed at once, whose second report is told first.
use rusttgcalls.Prelude.{ℕ, ◌+◌, Text, List, [], ◌∷◌, none, ◌≡◌, refl}
use rusttgcalls.Models.{Result, ok, ConnState, connected}
use rusttgcalls.DirectTransport.{MediaApi, DirectTransport, new_with_ssrc}
use rusttgcalls.DirectTransport
use rusttgcalls.Stack.{
  from_direct, new, on_connection_state_change, pc_connect, pc_close, run_some, connect, close,
}
use rusttgcalls.Stack.Reports.{
  Event, connects, closes, runs, count, on_way, step, run, listening, run-told,
}

abbrev plain : MediaApi
plain = record {
  Context = ℕ;
  encrypt_rtp = λ header payload n. (n + 1, ok payload);
  encrypt_rtcp = λ report n. (n + 1, none);
  Payloader = ℕ;
  new_payloader = 0;
  payload = λ mtu frame n. (n + 1, ok (frame ∷ []));
}

abbrev direct : DirectTransport plain
direct = new_with_ssrc 7 8 1 1

abbrev works : Text → DirectTransport plain → DirectTransport plain × Result (Unit {0})
works json t = (record t { state = connected }, ok tt)

abbrev events : List (Event plain)
events = connects works [] ∷ closes ∷ runs 1 ∷ runs 0 ∷ []

told_reversed : (run events (listening direct)).told ≡ ConnState.closed ∷ connected ∷ []
unfolding run step listening new from_direct run_some on_connection_state_change pc_connect pc_close
    connect close DirectTransport.close new_with_ssrc
told_reversed = refl

run-told_example :
    let p = run events (listening direct) in
    count connected p.told + on_way connected p.tasks ≡ count connected p.stack.reported
run-told_example = run-told events direct connected
