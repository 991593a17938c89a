-- ===== src/Signaling/Laws.antt =====
-- What the local parameters promise, and which candidate is chosen.
use rusttgcalls.Prelude.{
  ℕ, ◌+◌, ◌%◌, ◌^◌, ◌<◌, Text, Bool, List, [], ◌∷◌, Option, none, some, if◌then◌else◌, ◌==◌, lit,
  ◌≡◌, ◌≢◌, ◌⊎◌, inl, inr, refl, arith, Option-cases, Bool-cases,
}
use rusttgcalls.Models.{ok, err, invalid_params}
use rusttgcalls.Signaling.{LocalParams, SsrcGroup, build_local_params, local_params, ssrc_groups}
use rusttgcalls.Signaling.Remote.{Candidate, SocketAddr, usable, select}

-- Without video there is no group; with video there is one, of its SSRC and another one.
abbrev pub GroupsVideo : ℕ → List SsrcGroup → Type 0
GroupsVideo video groups =
    ((video ≡ 0) × (groups ≡ []))
    ⊎ ((rtx : ℕ) × (rtx ≢ video)
        × (rtx < 2 ^ 32)
        × (groups ≡ record { semantics = lit "FID"; sources = video ∷ rtx ∷ [] } ∷ []))

ssrc_groups-GroupsVideo : (video : ℕ) → video < 2 ^ 32 → GroupsVideo video (ssrc_groups video)
unfolding ssrc_groups
ssrc_groups-GroupsVideo video h = elim (Bool-cases (video == 0)) [
  | inl e ↦ inl (ground (arith, e), ground (arith, e))
  | inr e ↦ inr ((video + 1) % 2 ^ 32, (λ q. omega (arith, h, q)), omega arith, ground (arith, e))
]

-- Parameters are built exactly if the credentials, the fingerprint and the audio SSRC are there. They
-- carry the credentials and the audio's SSRC, and group the video's SSRC, if there is video, with another
-- one.
pub build_local_params_lem :
    (ufrag pwd fp : Text) (audio video : ℕ)
    → video < 2 ^ 32
    → ((((ufrag ≡ []) ⊎ (pwd ≡ []) ⊎ (fp ≡ []) ⊎ (audio ≡ 0)))
        × ((e : Text) × (build_local_params ufrag pwd fp audio video ≡ err (invalid_params e))))
      ⊎ ((p : LocalParams) × (build_local_params ufrag pwd fp audio video ≡ ok p)
          × (ufrag ≢ [])
          × (pwd ≢ [])
          × (fp ≢ [])
          × (p.ufrag ≡ ufrag)
          × (p.pwd ≡ pwd)
          × (p.ssrc ≡ audio)
          × (audio ≢ 0)
          × GroupsVideo video p.ssrc_groups)
unfolding build_local_params
build_local_params_lem [] pwd fp audio video h = inl (inl refl, (_, refl))
build_local_params_lem (u ∷ ufrag) [] fp audio video h = inl (inr (inl refl), (_, refl))
build_local_params_lem (u ∷ ufrag) (p ∷ pwd) [] audio video h =
    inl (inr (inr (inl refl)), (_, refl))
build_local_params_lem (u ∷ ufrag) (p ∷ pwd) (f ∷ fp) audio video h =
    elim (Bool-cases (audio == 0)) [
      | inl e ↦ inl (
        inr (inr (inr (ground (arith, e)))),
        (lit "audio_ssrc cannot be zero", ground (arith, e)),
      )
      | inr e ↦
          let made = local_params (u ∷ ufrag) (p ∷ pwd) (f ∷ fp) audio video in
          inr (
            made,
            ground (arith, e),
            ground arith,
            ground arith,
            ground arith,
            refl,
            refl,
            refl,
            ground (arith, e),
            ssrc_groups-GroupsVideo video h,
          )
    ]

-- The first one of IPv4, or else the first one.
pub first_ipv4 : List SocketAddr → Option SocketAddr
first_ipv4 [] = none
first_ipv4 (a ∷ l) = let rest = first_ipv4 l in if a.is_ipv4 then some a else rest

abbrev pub or : Option SocketAddr → Option SocketAddr → Option SocketAddr
or (some a) o = some a
or none o = o

abbrev pub head : List SocketAddr → Option SocketAddr
head [] = none
head (a ∷ l) = some a

module _ (is_udp : Text → Bool) (parse_ip : Text → Option Bool) (parse_port : Text → Option ℕ) where
  -- The addresses of the candidates that can be used, in order.
  pub usable_all : List Candidate → List SocketAddr
  usable_all [] = []
  usable_all (c ∷ l) =
      let rest = usable_all l in
      elim (usable is_udp parse_ip parse_port c) [ none ↦ rest | some a ↦ a ∷ rest ]

  select_from :
      (l : List Candidate) (target : Option SocketAddr)
      → select is_udp parse_ip parse_port l target
        ≡ or (first_ipv4 (usable_all l)) (or target (head (usable_all l)))
  unfolding select usable_all first_ipv4
  select_from [] none = refl
  select_from [] (some a) = refl
  select_from (c ∷ l) target = elim (Option-cases (usable is_udp parse_ip parse_port c)) [
    | inl e ↦ ground (arith, e, select_from l target)
    | inr (a, e) ↦ ground (arith, e, select_from l (or target (some a)))
  ]

  -- The transport goes to the first candidate of IPv4 that can be used, or, where there is none, to the
  -- first that can be used.
  pub select_lem :
      (l : List Candidate)
      → select is_udp parse_ip parse_port l none
        ≡ or (first_ipv4 (usable_all l)) (head (usable_all l))
  select_lem l = select_from l none
