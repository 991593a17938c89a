-- ===== src/Signaling/Remote.antt =====
-- wrtc/jsonparams/decode.rs, wrtc/native/remote.rs and the choice of a candidate in
-- wrtc/native/direct_transport.rs: what Telegram answers.
use rusttgcalls.Prelude.{
  ℕ, Text, Bool, true, false, not, ◌||◌, ◌&&◌, ◌⊎◌, inl, inr, List, [], ◌∷◌, ◌++◌, Option, none,
  some, if◌then◌else◌, lit, ltb,
}
use rusttgcalls.Models.{Result, ok, err, invalid_params, unsupported_call_mode}
use rusttgcalls.Signaling.{Fingerprint, is_empty}

-- `Candidate`.
pub record Candidate : Type 0 where
  pub generation : Text
  pub component : Text
  pub protocol : Text
  pub port : Text
  pub ip : Text
  pub foundation : Text
  pub id : Text
  pub priority : Text
  pub candidate_type : Text
  pub network : Text
  pub rel_addr : Text
  pub rel_port : Text
  pub tcp_type : Text

-- `Transport`, and what `remote.rs` takes out of it.
pub record Transport : Type 0 where
  pub ufrag : Text
  pub pwd : Text
  pub fingerprints : List Fingerprint
  pub candidates : List Candidate

-- What serde reads out of a response: whether `rtmp` or `stream` stands in it, if it can tell, and the
-- transport or the message of the error.
pub record Decoded : Type 0 where
  pub probe : Option (Bool × Bool)
  pub transport : Text ⊎ Transport

-- The checks on a transport.
abbrev check_transport : Transport → Result Transport
check_transport t =
    if is_empty t.ufrag || is_empty t.pwd
    then err (invalid_params (lit "remote params missing ice creds"))
    else elim t.fingerprints [
      | [] ↦ err (invalid_params (lit "remote params missing fingerprint"))
      | _ ∷ _ ↦ ok t
    ]

abbrev other_mode : Option (Bool × Bool) → Bool
other_mode none = false
other_mode (some (rtmp, stream)) = rtmp || stream

-- `parse_remote`, on what serde reads.
unfoldable pub parse_remote : Decoded → Result Transport
parse_remote d = if other_mode d.probe then err unsupported_call_mode else elim d.transport [
  | inl message ↦ err (invalid_params (lit "decode remote params: " ++ message))
  | inr t ↦ check_transport t
]

abbrev text_or : Text → Text → Text
text_or [] default = default
text_or (c ∷ s) default = c ∷ s

abbrev space : Text
space = lit " "

abbrev when : Bool → Text → Text
when true s = s
when false s = []

-- `build_ice_candidate`.
unfoldable pub build_ice_candidate : Candidate → Result Text
build_ice_candidate c =
    if is_empty c.ip || is_empty c.port
    then err (invalid_params (lit "candidate missing ip/port"))
    else ok (
        text_or c.foundation (lit "1")
        ++ (space
            ++ (text_or c.component (lit "1")
                ++ (space
                    ++ (text_or c.protocol (lit "UDP")
                        ++ (space
                            ++ (text_or c.priority (lit "2130706431")
                                ++ (space
                                    ++ (c.ip
                                        ++ (space
                                            ++ (c.port
                                                ++ (lit " typ "
                                                    ++ (text_or c.candidate_type (lit "host")
                                                        ++ (when
                                                            (not (is_empty c.rel_addr)
                                                            && not (is_empty c.rel_port))
                                                            (lit " raddr "
                                                            ++ (c.rel_addr
                                                            ++ (lit " rport " ++ c.rel_port)))
                                                            ++ (when (not (is_empty c.generation))
                                                            (lit " generation " ++ c.generation)
                                                            ++ when (not (is_empty c.tcp_type)) (
                                                            lit " tcptype "
                                                            ++ c.tcp_type))))))))))))))))

-- An address: whether it is IPv4, its text, and the port.
pub record SocketAddr : Type 0 where
  pub is_ipv4 : Bool
  pub ip : Text
  pub port : ℕ

-- `is_udp` is `eq_ignore_ascii_case("udp")`, `parse_ip` tells whether an address that parses is IPv4,
-- and `parse_port` is `parse::<u16>()`.
module _ (is_udp : Text → Bool) (parse_ip : Text → Option Bool) (parse_port : Text → Option ℕ) where
  abbrev port_or_zero : Option ℕ → ℕ
  port_or_zero none = 0
  port_or_zero (some n) = n

  -- The address of a candidate that can be used.
  unfoldable pub usable : Candidate → Option SocketAddr
  usable c =
      if is_udp c.protocol
      then elim (parse_ip c.ip) [
        | none ↦ none
        | some v4 ↦
            let port = port_or_zero (parse_port c.port) in
            if ltb 0 port then some (record { is_ipv4 = v4; ip = c.ip; port = port }) else none
      ]
      else none

  abbrev or_else : Option SocketAddr → SocketAddr → Option SocketAddr
  or_else none a = some a
  or_else (some b) a = some b

  -- The loop over the candidates: the first IPv4 one ends it.
  unfoldable pub select : List Candidate → Option SocketAddr → Option SocketAddr
  unfolding usable
  select [] target = target
  select (c ∷ l) target = elim (usable c) [
    | none ↦ select l target
    | some a ↦ elim a.is_ipv4 [ true ↦ some a | false ↦ select l (or_else target a) ]
  ]
