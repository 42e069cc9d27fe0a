-- ===== src/Ping/Parameters.antt =====
-- The sizes of packets in tobiko/shell/ping/_parameters.py. An address is an IP address with its
-- version or a host name; the other parameters of the command play no part here.
use tobiko.Prelude.{
  ℕ, ◌+◌, ◌-◌, ◌≡◌, ◌⊎◌, String, Bool, true, ◌||◌, Option, none, some, Result, ok, err, ◌>>=◌, ltb,
  ◌==◌, arith, if◌then◌else◌, Result-cases, inl, inr,
}

-- The versions of a netaddr.IPAddress.
pub data IpVersion : Type 0 where
  ipv4 ipv6 : IpVersion

abbrev pub number : IpVersion → ℕ
number ipv4 = 4
number ipv6 = 6

pub data PingAddress : Type 0 where
  ip_address : IpVersion → String → PingAddress
  host_name : String → PingAddress

pub record PingParameters : Type 0 where
  pub host : Option PingAddress
  pub source : Option PingAddress
  pub ip_version : Option ℕ
  pub packet_size : Option ℕ

-- The ValueErrors, by what they say.
pub data ParameterError : Type 0 where
  invalid_ip_version : ℕ → ParameterError
  version_is_not : PingAddress → ℕ → ParameterError
  unknown_ip_version : ParameterError
  smaller_than_header : (packet_size header_size : ℕ) → ParameterError

-- One round of the loop over the host and the source.
unfoldable pub agree : Option PingAddress → Option ℕ → Result ParameterError (Option ℕ)
agree (some (ip_address v a)) none = ok (some (number v))
agree (some (ip_address v a)) (some w) =
    if w == number v
    then ok (some w)
    else if w == 0
    then ok (some (number v))
    else err (version_is_not (ip_address v a) w)
agree _ version = ok version

abbrev is_version : ℕ → Bool
is_version v = v == 4 || v == 6

unfoldable pub check_given : Option ℕ → Result ParameterError (Option ℕ)
check_given none = ok none
check_given (some v) = if is_version v then ok (some v) else err (invalid_ip_version v)

unfoldable pub get_ping_ip_version : PingParameters → Result ParameterError (Option ℕ)
unfolding agree check_given
get_ping_ip_version p = do
  given ← check_given p.ip_version
  version ← agree p.host given
  agree p.source version

-- `IP_HEADER_SIZE[ip_version] + ICMP_HEADER_SIZE[ip_version]`
unfoldable pub header_size_of : Option ℕ → Result ParameterError ℕ
header_size_of none = err unknown_ip_version
header_size_of (some v) =
    if v == 4 then ok (20 + 8) else if v == 6 then ok (40 + 4) else err (invalid_ip_version v)

unfoldable pub get_ping_header_size : PingParameters → Result ParameterError ℕ
unfolding get_ping_ip_version header_size_of
get_ping_header_size p = do version ← get_ping_ip_version p; header_size_of version

payload : ℕ → ℕ → Result ParameterError (Option ℕ)
payload packet_size header_size =
    if ltb packet_size header_size
    then err (smaller_than_header packet_size header_size)
    else ok (some (packet_size - header_size))

unfoldable pub get_ping_payload_size : PingParameters → Result ParameterError (Option ℕ)
unfolding get_ping_header_size payload
get_ping_payload_size p = elim p.packet_size [
  | none ↦ ok none
  | some size ↦ get_ping_header_size p >>= payload size
]

-- A host name or an address that is not given has any version.
abbrev pub has_version : Option PingAddress → ℕ → Bool
has_version (some (ip_address v a)) w = number v == w
has_version _ w = true

abbrev pub is_given : Option ℕ → ℕ → Bool
is_given none v = true
is_given (some w) v = w == v

nonzero : Option ℕ → Bool
nonzero (some w) = ltb 0 w
nonzero none = true

agree_lem :
    (a : Option PingAddress) (w w' : Option ℕ) (v : ℕ)
    → nonzero w ≡ true
    → agree a w ≡ ok w'
    → is_given w' v ≡ true
    → (is_given w v ≡ true) × (has_version a v ≡ true)
unfolding agree nonzero
agree_lem none w w' v z h k = ground arith
agree_lem (some (host_name a)) w w' v z h k = ground arith
agree_lem (some (ip_address ipv4 a)) w w' v z h k = ground arith
agree_lem (some (ip_address ipv6 a)) w w' v z h k = ground arith

agree-nonzero :
    (a : Option PingAddress) (w w' : Option ℕ)
    → nonzero w ≡ true
    → agree a w ≡ ok w'
    → nonzero w' ≡ true
unfolding agree nonzero
agree-nonzero none w w' z h = ground arith
agree-nonzero (some (host_name a)) w w' z h = ground arith
agree-nonzero (some (ip_address ipv4 a)) w w' z h = ground arith
agree-nonzero (some (ip_address ipv6 a)) w w' z h = ground arith

check_given-nonzero : (w w' : Option ℕ) → check_given w ≡ ok w' → (w' ≡ w) × (nonzero w' ≡ true)
unfolding check_given nonzero
check_given-nonzero none w' h = ground arith
check_given-nonzero (some w) w' h = ground arith

-- The version that is found is the given one, if any, and that of the host and of the source.
get_ping_ip_version_lem :
    (p : PingParameters) (v : ℕ)
    → get_ping_ip_version p ≡ ok (some v)
    → (is_given p.ip_version v ≡ true)
      × (has_version p.host v ≡ true)
      × (has_version p.source v ≡ true)
unfolding get_ping_ip_version
get_ping_ip_version_lem p v h = elim (Result-cases (check_given p.ip_version)) [
  | inr (x, e) ↦ absurd (ground arith)
  | inl (given, e) ↦ elim (Result-cases (agree p.host given)) [
    | inr (x, e') ↦ absurd (ground arith)
    | inl (version, e') ↦
        let (same_as, z) = check_given-nonzero p.ip_version given e in
        let from_source =
          agree_lem p.source version (some v) v (agree-nonzero p.host given version z e')
            (ground arith) (ground arith) in
        let from_host = agree_lem p.host given version v z e' from_source.0 in
        ground (arith, from_source, from_host, same_as)
  ]
]

abbrev pub TotalOf : ℕ → ℕ → ℕ → Type 0
TotalOf v n size = ((v ≡ 4) × (n + 28 ≡ size)) ⊎ ((v ≡ 6) × (n + 44 ≡ size))

payload_of :
    (p : PingParameters) (size n v : ℕ)
    → p.packet_size ≡ some size
    → get_ping_ip_version p ≡ ok (some v)
    → get_ping_payload_size p ≡ ok (some n)
    → TotalOf v n size
unfolding get_ping_payload_size get_ping_header_size header_size_of payload
payload_of p size n v h e k = ground arith

version_of :
    (p : PingParameters) (size n : ℕ)
    → p.packet_size ≡ some size
    → get_ping_payload_size p ≡ ok (some n)
    → (v : ℕ) × (get_ping_ip_version p ≡ ok (some v))
unfolding get_ping_payload_size get_ping_header_size header_size_of
version_of p size n h k = elim (Result-cases (get_ping_ip_version p)) [
  | inr (x, e) ↦ absurd (ground arith)
  | inl (none, e) ↦ absurd (ground arith)
  | inl (some v, e) ↦ (v, e)
]

-- A payload size that is computed is the packet size without the headers of IPv4, 28 bytes, or of
-- IPv6, 44 bytes, for a version on which the given one, the host and the source agree.
pub get_ping_payload_size_lem :
    (p : PingParameters) (size n : ℕ)
    → p.packet_size ≡ some size
    → get_ping_payload_size p ≡ ok (some n)
    → (v : ℕ) × TotalOf v n size
      × (is_given p.ip_version v ≡ true)
      × (has_version p.host v ≡ true)
      × (has_version p.source v ≡ true)
get_ping_payload_size_lem p size n h k =
    let (v, e) = version_of p size n h k in
    let agreed = get_ping_ip_version_lem p v e in
    (v, payload_of p size n v h e k, agreed.0, agreed.1, agreed.2)
