-- ===== src/DirectTransport/Clock.antt =====
-- wrtc/native/direct_transport.rs: the clock of the reports and of the send time, and what a report holds.
use rusttgcalls.Prelude.{
  ℕ, ◌+◌, ◌*◌, ◌/◌, ◌%◌, ◌^◌, ◌≤◌, ◌<◌, Text, List, [], ◌∷◌, Option, lit, ◌≡◌, ◌⊎◌, inl, inr, arith,
}
use rusttgcalls.DirectTransport.{Report}

-- `get_current_ntp_time`, for the seconds of the clock and their nanoseconds: 32 bits of each.
unfoldable pub get_current_ntp_time : ℕ → ℕ → ℕ
get_current_ntp_time secs nanos =
    let ntp_secs = (secs + 2_208_988_800) % 2 ^ 32 in
    let ntp_frac = nanos * 2 ^ 32 / 1_000_000_000 % 2 ^ 32 in ntp_secs * 2 ^ 32 + ntp_frac

-- `ntp_24`, the middle of the time, for the extension of the send time.
unfoldable pub abs_send_time : ℕ → ℕ
abs_send_time ntp = ntp / 2 ^ 14 % 2 ^ 24

abbrev pub abs_time_bytes : ℕ → List ℕ
abs_time_bytes ntp_24 = ntp_24 / 2 ^ 16 % 256 ∷ ntp_24 / 2 ^ 8 % 256 ∷ ntp_24 % 256 ∷ []

-- `SenderReport` and the description of the source that goes with it.
pub record CompoundReport : Type 0 where
  pub ssrc : ℕ
  pub ntp_time : ℕ
  pub rtp_time : ℕ
  pub packet_count : ℕ
  pub octet_count : ℕ
  pub source : ℕ
  pub cname : Text

-- `build_compound_sender_report`; `marshal` writes the two packets or fails.
unfoldable pub build_compound_sender_report :
    (CompoundReport → Option (List ℕ)) → ℕ → Report → Option (List ℕ)
build_compound_sender_report marshal ntp_time r = marshal (record {
  ssrc = r.ssrc;
  ntp_time = ntp_time;
  rtp_time = r.rtp_time;
  packet_count = r.packet_count;
  octet_count = r.octet_count;
  source = r.ssrc;
  cname = lit "rusttgcalls";
})

-- Until the seconds since 1900 leave 32 bits, in 2036, the time is read back from the clock's: the upper
-- half are the seconds since 1900, and the lower half is a fraction that gives the nanoseconds back but
-- for at most one.
pub ntp-clock :
    (secs nanos : ℕ)
    → secs + 2_208_988_800 < 2 ^ 32
    → nanos < 1_000_000_000
    → let ntp = get_current_ntp_time secs nanos in
      let back = ntp % 2 ^ 32 * 1_000_000_000 / 2 ^ 32 in
      (ntp / 2 ^ 32 ≡ secs + 2_208_988_800) × (back ≤ nanos) × (nanos ≤ back + 1)
unfolding get_current_ntp_time
ntp-clock secs nanos h k = omega arith

-- A later time is a greater one, in the same era.
pub ntp_mono :
    (secs nanos secs' nanos' : ℕ)
    → secs' + 2_208_988_800 < 2 ^ 32
    → (nanos < 1_000_000_000) × (nanos' < 1_000_000_000)
    → (secs < secs') ⊎ ((secs ≡ secs') × (nanos ≤ nanos'))
    → get_current_ntp_time secs nanos ≤ get_current_ntp_time secs' nanos'
unfolding get_current_ntp_time
ntp_mono secs nanos secs' nanos' h (k, k') (inl l) = omega arith
ntp_mono secs nanos secs' nanos' h (k, k') (inr (e, l)) = omega arith
