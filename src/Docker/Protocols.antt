-- ===== src/Docker/Protocols.antt =====
-- The protocols and the spelling of ports in StartContainer (agent/docker.go).
use Prim.Native.String
use game_server_manager.Base.{
  ◌≡◌, refl, false, str_eq, Bool-cases, ◌≢◌, ◌⊎◌, inl, inr, List, [], ◌∷◌, String, Has, arith,
  string_key, eq_iff,
}
use game_server_manager.Base.Int.{ℤ}
use game_server_manager.Base.Decimal.{itoa}
use game_server_manager.Docker.{PortBinding, nat_port, protocols_of}

-- "both" is tcp and udp, "tcp" is tcp, anything else is udp.
abbrev pub Uses : (protocol proto : String) → Type 0
Uses protocol proto =
    ((protocol ≡ "both") × ((proto ≡ "tcp") ⊎ (proto ≡ "udp")))
    ⊎ ((protocol ≡ "tcp") × (proto ≡ "tcp"))
    ⊎ ((protocol ≢ "both") × (protocol ≢ "tcp") × (proto ≡ "udp"))

-- How Docker spells a port of a container.
abbrev pub docker_port : ℤ → String → String
docker_port port proto = String.◌++◌ (itoa port) (String.◌++◌ "/" proto)

abbrev pub all_interfaces : ℤ → List PortBinding
all_interfaces port = record { host_ip = "0.0.0.0"; host_port = itoa port } ∷ []

pub spelled : (port : ℤ) (proto : String) → nat_port port proto ≡ docker_port port proto
unfolding nat_port
spelled port proto = refl

pub protocols_of-Uses :
    (protocol proto : String) → Has proto (protocols_of protocol) → Uses protocol proto
protocols_of-Uses protocol proto h = elim (Bool-cases (str_eq protocol "both")) [
  | inl e ↦ both (rw e at h) ((eq_iff protocol "both").0 e)
  | inr e ↦ elim (Bool-cases (str_eq protocol "tcp")) [
    | inl f ↦ inr (inl ((eq_iff protocol "tcp").0 f, one "tcp" (rw (e, f) at h)))
    | inr f ↦ inr (
        inr (
          (λ same. absurd (cc (e, (eq_iff protocol "both").1 same))),
          (λ same. absurd (cc (f, (eq_iff protocol "tcp").1 same))),
          one "udp" (rw (e, f) at h),
        ))
  ]
]
  where
    one : (only : String) → Has proto (only ∷ []) → proto ≡ only
    one only (inl same) = same
    one only (inr none_there) = absurd none_there

    both : Has proto ("tcp" ∷ "udp" ∷ []) → protocol ≡ "both" → Uses protocol proto
    both (inl same) e = inl (e, inl same)
    both (inr h') e = inl (e, inr (one "udp" h'))

pub Uses-listed :
    (protocol proto : String) → Uses protocol proto → Has proto (protocols_of protocol)
Uses-listed protocol proto (inl (e, inl f)) = rw ((eq_iff protocol "both").1 e) (inl f)
Uses-listed protocol proto (inl (e, inr f)) = rw ((eq_iff protocol "both").1 e) (inr (inl f))
Uses-listed protocol proto (inr (inl (e, f))) = rw e (inl f)
Uses-listed protocol proto (inr (inr (e, f, g))) =
    let not_both : str_eq protocol "both" ≡ false = ground (arith, eq_iff protocol "both") in
    let not_tcp : str_eq protocol "tcp" ≡ false = ground (arith, eq_iff protocol "tcp") in
    rw (not_both, not_tcp) (inl g)
