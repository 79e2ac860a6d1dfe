-- ===== src/Access/Normal.antt =====
-- `normalize_ip`, which server/src/auth_cache.rs and iperf3-server/src/server.rs both declare: an IPv6
-- address that stands for an IPv4 one becomes it.
use netpoke.Prelude.{
  ℕ, ℕ_discrete, ◌≡◌, refl, Option, none, some, List, [], ◌∷◌, ◌++◌, ite, if_pos, if_neg, take,
  drop, arith,
}
use netpoke.Net.{IpAddr, v4, v6}

-- The twelve octets in front of an address of `::ffff:0:0/96`.
abbrev pub mapped_prefix : List ℕ
mapped_prefix = 0 ∷ 0 ∷ 0 ∷ 0 ∷ 0 ∷ 0 ∷ 0 ∷ 0 ∷ 0 ∷ 0 ∷ 255 ∷ 255 ∷ []

pub octets_discrete : Discrete (List ℕ)
octets_discrete = hlevel ℕ_discrete

abbrev ipv4_of : List ℕ → Option IpAddr
ipv4_of (a ∷ b ∷ c ∷ d ∷ []) = some (v4 a b c d)
ipv4_of _ = none

-- `Ipv6Addr::to_ipv4_mapped`
unfoldable pub to_ipv4_mapped : List ℕ → Option IpAddr
to_ipv4_mapped octets =
    ite (octets_discrete (take 12 octets) mapped_prefix) (ipv4_of (drop 12 octets)) none

unfoldable pub normalize_ip : IpAddr → IpAddr
normalize_ip (v4 a b c d) = v4 a b c d
normalize_ip (v6 octets) = elim (to_ipv4_mapped octets) [ some ip ↦ ip | none ↦ v6 octets ]

-- An IPv4 address as an IPv6 socket shows it.
abbrev pub mapped : ℕ → ℕ → ℕ → ℕ → IpAddr
mapped a b c d = v6 (mapped_prefix ++ (a ∷ b ∷ c ∷ d ∷ []))

pub normalize_ip-mapped : (a b c d : ℕ) → normalize_ip (mapped a b c d) ≡ v4 a b c d
unfolding normalize_ip to_ipv4_mapped
normalize_ip-mapped a b c d = ground arith

-- What the translation gives is an IPv4 address.
abbrev Settled : Option IpAddr → Type 0
Settled none = Unit
Settled (some ip) = normalize_ip ip ≡ ip

ipv4_of-Settled : (xs : List ℕ) → Settled (ipv4_of xs)
unfolding normalize_ip
ipv4_of-Settled [] = tt
ipv4_of-Settled (a ∷ []) = tt
ipv4_of-Settled (a ∷ b ∷ []) = tt
ipv4_of-Settled (a ∷ b ∷ c ∷ []) = tt
ipv4_of-Settled (a ∷ b ∷ c ∷ d ∷ []) = refl
ipv4_of-Settled (a ∷ b ∷ c ∷ d ∷ e ∷ xs) = tt

to_ipv4_mapped-Settled : (octets : List ℕ) → Settled (to_ipv4_mapped octets)
unfolding to_ipv4_mapped
to_ipv4_mapped-Settled octets = elim (octets_discrete (take 12 octets) mapped_prefix) [
  | yes e ↦
      rw (if_pos (octets_discrete (take 12 octets) mapped_prefix) e)
        (ipv4_of-Settled (drop 12 octets))
  | no n ↦ rw (if_neg (octets_discrete (take 12 octets) mapped_prefix) n) tt
]

normalize_ip-Settled :
    (octets : List ℕ) (o : Option IpAddr)
    → to_ipv4_mapped octets ≡ o
    → Settled o
    → normalize_ip (normalize_ip (v6 octets)) ≡ normalize_ip (v6 octets)
unfolding normalize_ip
normalize_ip-Settled octets none e h = ground arith
normalize_ip-Settled octets (some ip) e h = ground arith

pub normalize_ip-normalize_ip : (ip : IpAddr) → normalize_ip (normalize_ip ip) ≡ normalize_ip ip
unfolding normalize_ip
normalize_ip-normalize_ip (v4 a b c d) = refl
normalize_ip-normalize_ip (v6 octets) =
    normalize_ip-Settled octets (to_ipv4_mapped octets) refl (to_ipv4_mapped-Settled octets)
