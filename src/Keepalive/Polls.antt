-- ===== src/Keepalive/Polls.antt =====
-- The polls of the monitor against the looks at a single stack.
use rusttgcalls.Prelude.{
  ℕ, ◌+◌, ◌%◌, ◌^◌, Bool, true, false, List, [], ◌∷◌, Option, none, some, ◌≡◌, refl, sym, ◌∙◌, suc,
  ap, ◌++◌, Every, replicate, length, ◌/◌, ◌==◌, append-nil, append_assoc, Bool-cases, inl, inr,
  arith,
}
use mathlib.Core.Option
use rusttgcalls.Models.{ConnState, connected}
use rusttgcalls.Client.Calls.{get}
use rusttgcalls.Keepalive.{
  PcMonitorEntry, FactoryMonitor, pads, tick, Look, ticks, View, is_keepalive, tick_all, poll,
  start, stop,
}

pub polls : List View → FactoryMonitor → FactoryMonitor
polls [] m = m
polls (v ∷ l) m = polls l (poll v m)

-- The looks at the stack `key` behind poll `n`.
pub looks : ℕ → ℕ → List View → List Look
looks key n [] = []
looks key n ((states, now) ∷ l) =
    let n' = (n + 1) % 2 ^ 64 in (is_keepalive n', states key, now) ∷ looks key n' l

get-tick_all :
    (keep : Bool) (states : ℕ → ConnState) (now key : ℕ) (l : List (ℕ × PcMonitorEntry))
    → get key (tick_all keep (states, now) l) ≡ Option.map (tick keep (states key) now) (get key l)
unfolding tick_all get
get-tick_all keep states now key [] = refl
get-tick_all keep states now key ((other, e) ∷ l) =
    ground (arith, get-tick_all keep states now key l)

map-fuse :
    {A : Type 0} (f g h : A → A) (x : Option A)
    → ((a : A) → h a ≡ g (f a))
    → Option.map g (Option.map f x) ≡ Option.map h x
map-fuse f g h none e = refl
map-fuse f g h (some a) e = ap some (sym (e a))

map-id : {A : Type 0} (f : A → A) (x : Option A) → ((a : A) → f a ≡ a) → x ≡ Option.map f x
map-id f none e = refl
map-id f (some a) e = ap some (sym (e a))

-- Whatever stacks a running monitor has, each fares as if it were the only one: its entry comes to what
-- the looks at this stack alone make of it, where every second poll is one for padding; a stack
-- without an entry gets none.
pub polls-get :
    (l : List View) (key : ℕ) (m : FactoryMonitor)
    → m.running ≡ true
    → get key (polls l m).entries
      ≡ Option.map (ticks (looks key m.tick_count l)) (get key m.entries)
unfolding polls looks ticks poll
polls-get [] key m h = map-id (ticks []) (get key m.entries) (λ e. refl)
polls-get ((states, now) ∷ l) key m h =
    let n = (m.tick_count + 1) % 2 ^ 64 in
    let keep = is_keepalive n in
    let m' = record m { tick_count = n; entries = tick_all keep (states, now) m.entries } in
    let step : poll (states, now) m ≡ m' = ground (arith, h) in
    let later = ticks (looks key n l) in
    ap (λ (x : FactoryMonitor). get key (polls l x).entries) step
    ∙ polls-get l key m' h
    ∙ ap (Option.map later) (get-tick_all keep states now key m.entries)
    ∙ map-fuse (tick keep (states key) now) later (λ e. later (tick keep (states key) now e))
        (get key m.entries) (λ e. refl)

-- A stack that is connected at each poll gets a padding packet at every second one of all polls.
ticks-pads :
    (l : List View) (key n : ℕ) (e : PcMonitorEntry)
    → (e.video_ssrc == 0) ≡ false
    → Every (λ (v : View). v.0 key ≡ connected) l
    → (ticks (looks key n l) e).tasks ≡ e.tasks ++ replicate ((n % 2 + length l) / 2) pads
unfolding looks ticks tick
ticks-pads [] key n e video h =
    let none_yet : (n % 2 + 0) / 2 ≡ 0 = omega arith in rw none_yet (sym (append-nil e.tasks))
ticks-pads ((states, now) ∷ l) key n e video (c, h) =
    let n' = (n + 1) % 2 ^ 64 in
    elim (Bool-cases (is_keepalive n')) [
      | inl k ↦
          let e' = record e {
            ever_connected = true;
            checking_ns = 0;
            tasks = e.tasks ++ (pads ∷ []);
          } in
          let step : tick (is_keepalive n') (states key) now e ≡ e' = ground (arith, k, c, video) in
          let many : (n % 2 + suc (length l)) / 2 ≡ suc ((n' % 2 + length l) / 2) =
            ground (arith, k) in
          ap (λ x. (ticks (looks key n' l) x).tasks) step
          ∙ ticks-pads l key n' e' video h
          ∙ append_assoc e.tasks (pads ∷ []) (replicate ((n' % 2 + length l) / 2) pads)
          ∙ ap (λ i. e.tasks ++ replicate i pads) (sym many)
      | inr k ↦
          let e' = record e { ever_connected = true; checking_ns = 0 } in
          let step : tick (is_keepalive n') (states key) now e ≡ e' = ground (arith, k, c, video) in
          let many : (n % 2 + suc (length l)) / 2 ≡ (n' % 2 + length l) / 2 = ground (arith, k) in
          ap (λ x. (ticks (looks key n' l) x).tasks) step
          ∙ ticks-pads l key n' e' video h
          ∙ ap (λ i. e.tasks ++ replicate i pads) (sym many)
    ]

-- A running monitor sends a padding packet to a stack that it has registered, that has video and is
-- connected at each of its polls, at every second of all its polls and at no other, and does nothing
-- else to it, whatever other stacks it has.
pub polls-pads :
    (l : List View) (key : ℕ) (m : FactoryMonitor) (e : PcMonitorEntry)
    → m.running ≡ true
    → get key m.entries ≡ some e
    → (e.video_ssrc == 0) ≡ false
    → Every (λ (v : View). v.0 key ≡ connected) l
    → (e' : PcMonitorEntry) × (get key (polls l m).entries ≡ some e')
      × (e'.tasks ≡ e.tasks ++ replicate ((m.tick_count % 2 + length l) / 2) pads)
polls-pads l key m e h there video up = (
  ticks (looks key m.tick_count l) e,
  polls-get l key m h ∙ ap (Option.map (ticks (looks key m.tick_count l))) there,
  ticks-pads l key m.tick_count e video up,
)

-- A monitor that is stopped before it starts runs, and no stop ends it.
pub start-after_stop :
    (m : FactoryMonitor)
    → m.started ≡ false
    → let m' = start (stop m) in (m'.running ≡ true) × (stop m' ≡ m')
unfolding start stop
start-after_stop m h = (ground (arith, h), ground (arith, h))
