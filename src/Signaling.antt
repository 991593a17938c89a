-- ===== src/Signaling.antt =====
-- wrtc/jsonparams/types.rs and wrtc/native/signaling.rs: what a client tells Telegram about its side. The
-- records are those that serde writes and reads; writing JSON is serde's.
use rusttgcalls.Prelude.{
  ℕ, ◌+◌, ◌%◌, ◌^◌, Text, Bool, true, false, ◌||◌, List, [], ◌∷◌, Option, none, some, if◌then◌else◌,
  ◌==◌, lit,
}
use rusttgcalls.Models.{
  Error, Result, ok, err, invalid_params, opus_payload_type, vp8_payload_type, opus_sample_rate,
  default_channel_count,
}
pub mod Remote
pub mod Laws
mod Tests

pub record Fingerprint : Type 0 where
  pub hash : Text
  pub setup : Text
  pub fingerprint : Text

pub record SsrcGroup : Type 0 where
  pub semantics : Text
  pub sources : List ℕ

pub record RtcpFb : Type 0 where
  pub feedback_type : Text
  pub subtype : Text

-- `parameters` is a hash map in the source; here its entries in the order of insertion.
pub record PayloadType : Type 0 where
  pub id : ℕ
  pub name : Text
  pub clockrate : ℕ
  pub channels : ℕ
  pub parameters : Option (List (Text × Text))
  pub rtcp_fbs : List RtcpFb

pub record RtpHdrExt : Type 0 where
  pub id : ℕ
  pub uri : Text

pub record LocalParams : Type 0 where
  pub ufrag : Text
  pub pwd : Text
  pub fingerprints : List Fingerprint
  pub ssrc_groups : List SsrcGroup
  pub payload_types : List PayloadType
  pub rtp_hdrexts : List RtpHdrExt
  pub ssrc : ℕ

abbrev pub is_empty : Text → Bool
is_empty [] = true
is_empty (c ∷ s) = false

abbrev feedback : Text → Text → RtcpFb
feedback kind subtype = record { feedback_type = kind; subtype = subtype }

abbrev opus_params : List (Text × Text)
opus_params =
    (lit "minptime", lit "10")
    ∷ (lit "useinbandfec", lit "1")
    ∷ (lit "stereo", lit "1")
    ∷ (lit "sprop-stereo", lit "1")
    ∷ (lit "maxaveragebitrate", lit "510000")
    ∷ []

abbrev opus : PayloadType
opus = record {
  id = opus_payload_type;
  name = lit "opus";
  clockrate = opus_sample_rate;
  channels = default_channel_count;
  parameters = some opus_params;
  rtcp_fbs = feedback (lit "transport-cc") [] ∷ [];
}

abbrev vp8 : PayloadType
vp8 = record {
  id = vp8_payload_type;
  name = lit "VP8";
  clockrate = 90000;
  channels = 0;
  parameters = none;
  rtcp_fbs =
      feedback (lit "goog-remb") []
      ∷ feedback (lit "transport-cc") []
      ∷ feedback (lit "ccm") (lit "fir")
      ∷ feedback (lit "nack") []
      ∷ feedback (lit "nack") (lit "pli")
      ∷ [];
}

abbrev extension : ℕ → Text → RtpHdrExt
extension id uri = record { id = id; uri = uri }

abbrev rtp_hdrexts : List RtpHdrExt
rtp_hdrexts =
    extension 1 (lit "urn:ietf:params:rtp-hdrext:ssrc-audio-level")
    ∷ extension 2 (lit "http://www.webrtc.org/experiments/rtp-hdrext/abs-send-time")
    ∷ extension 3 (lit "http://www.ietf.org/id/draft-holmer-rmcat-transport-wide-cc-extensions-01")
    ∷ extension 4 (lit "urn:ietf:params:rtp-hdrext:sdes:mid")
    ∷ extension 5 (lit "urn:3gpp:video-orientation")
    ∷ []

-- `wrapping_add(1)` on a `u32`.
unfoldable pub ssrc_groups : ℕ → List SsrcGroup
ssrc_groups video_ssrc =
    if video_ssrc == 0
    then []
    else record { semantics = lit "FID"; sources = video_ssrc ∷ (video_ssrc + 1) % 2 ^ 32 ∷ [] }
      ∷ []

abbrev pub local_params : Text → Text → Text → ℕ → ℕ → LocalParams
local_params ufrag pwd fingerprint_sha256 audio_ssrc video_ssrc = record {
  ufrag = ufrag;
  pwd = pwd;
  ssrc = audio_ssrc;
  fingerprints =
      record { hash = lit "sha-256"; setup = lit "passive"; fingerprint = fingerprint_sha256 } ∷ [];
  payload_types = opus ∷ vp8 ∷ [];
  rtp_hdrexts = rtp_hdrexts;
  ssrc_groups = ssrc_groups video_ssrc;
}

-- `build_local_params_json` before it writes the JSON.
unfoldable pub build_local_params : Text → Text → Text → ℕ → ℕ → Result LocalParams
build_local_params ufrag pwd fingerprint_sha256 audio_ssrc video_ssrc =
    if is_empty ufrag || is_empty pwd || is_empty fingerprint_sha256
    then err (invalid_params (lit "empty ufrag, pwd, or fingerprint"))
    else if audio_ssrc == 0
    then err (invalid_params (lit "audio_ssrc cannot be zero"))
    else ok (local_params ufrag pwd fingerprint_sha256 audio_ssrc video_ssrc)
