-- ===== src/Ping/Merging.antt =====
-- The merging and the checks of parameters in tobiko/shell/ping/_parameters.py. Numbers are integers,
-- in ticks for the interval; `address` is the reading of a text as an address, netaddr's.
use tobiko.Prelude.{◌≡◌, refl, String, Bool, Option, none, some, Result, ok, err, ◌>>=◌, arith}
use tobiko.Time.{ℤ, pos, negsuc}
use tobiko.Ping.Parameters.{PingAddress, IpVersion, ip_address, host_name}

-- The fields of the named tuple.
pub record Fields : Type 0 where
  pub host : Option PingAddress
  pub count : Option ℤ
  pub deadline : Option ℤ
  pub fragmentation : Option Bool
  pub interval : Option ℤ
  pub ip_version : Option ℤ
  pub packet_size : Option ℤ
  pub source : Option PingAddress
  pub timeout : Option ℤ
  pub network_namespace : Option String
  pub timestamps : Option Bool

-- The ValueError of a negative number, by the name of the parameter.
pub data ValueError : Type 0 where
  negative : (name : String) → ℤ → ValueError

abbrev check_positive : String → Option ℤ → Result ValueError (Option ℤ)
check_positive name none = ok none
check_positive name (some (pos n)) = ok (some (pos n))
check_positive name (some (negsuc n)) = err (negative name (negsuc n))

-- `default` is None or False where there is none.
unfoldable pub get_positive_number :
    (name : String) → Option ℤ → Option (Option ℤ) → Result ValueError (Option ℤ)
get_positive_number name none (some default) = check_positive name default
get_positive_number name value _ = check_positive name value

abbrev pub or_default : {A : Type 0} → Option A → Option (Option A) → Option A
or_default none (some default) = default
or_default value _ = value

unfoldable pub get_boolean : Option Bool → Option (Option Bool) → Option Bool
get_boolean value default = or_default value default

unfoldable pub get_string : Option String → Option (Option String) → Option String
get_string value default = or_default value default

-- The first number that is negative raises, in the order in which the code reads them.
abbrev with_numbers :
    (count deadline interval ip_version packet_size timeout : Result ValueError (Option ℤ))
    → Fields
    → Result ValueError Fields
with_numbers count deadline interval ip_version packet_size timeout others = do
  c ← count
  d ← deadline
  i ← interval
  v ← ip_version
  s ← packet_size
  t ← timeout
  ok (record others {
    count = c;
    deadline = d;
    interval = i;
    ip_version = v;
    packet_size = s;
    timeout = t;
  })

with_numbers_lem :
    (c d i v s t : Result ValueError (Option ℤ)) (p q : Fields)
    → with_numbers c d i v s t p ≡ ok q
    → (c ≡ ok q.count)
      × (d ≡ ok q.deadline)
      × (i ≡ ok q.interval)
      × (v ≡ ok q.ip_version)
      × (s ≡ ok q.packet_size)
      × (t ≡ ok q.timeout)
      × (q.host ≡ p.host)
      × (q.source ≡ p.source)
with_numbers_lem c d i v s t p q h = ground arith

-- No parameters but the default.
abbrev pub none_given : Fields
none_given = record {
  host = none;
  count = none;
  deadline = none;
  fragmentation = none;
  interval = none;
  ip_version = none;
  packet_size = none;
  source = none;
  timeout = none;
  network_namespace = none;
  timestamps = none;
}

module _ (address : String → Option (IpVersion × String)) where
  abbrev read : PingAddress → PingAddress
  read (ip_address v a) = ip_address v a
  read (host_name h) = elim (address h) [ some a ↦ ip_address a.0 a.1 | none ↦ host_name h ]

  abbrev pub read_all : Option PingAddress → Option PingAddress
  read_all none = none
  read_all (some a) = some (read a)

  unfoldable pub get_address : Option PingAddress → Option (Option PingAddress) → Option PingAddress
  get_address value default = read_all (or_default value default)

  abbrev field : {A : Type 0} → (Fields → Option A) → Option Fields → Option (Option A)
  field f none = none
  field f (some d) = some (f d)

  unfoldable others : Option Fields → Fields → Fields
  unfolding get_boolean get_string get_address
  others default p = record p {
    host = get_address p.host (field (λ d. d.host) default);
    fragmentation = get_boolean p.fragmentation (field (λ d. d.fragmentation) default);
    source = get_address p.source (field (λ d. d.source) default);
    network_namespace = get_string p.network_namespace (field (λ d. d.network_namespace) default);
    timestamps = get_boolean p.timestamps (field (λ d. d.timestamps) default);
  }

  unfoldable pub ping_parameters : Option Fields → Fields → Result ValueError Fields
  unfolding get_positive_number others
  ping_parameters default p =
      with_numbers (get_positive_number "count" p.count (field (λ d. d.count) default))
        (get_positive_number "deadline" p.deadline (field (λ d. d.deadline) default))
        (get_positive_number "interval" p.interval (field (λ d. d.interval) default))
        (get_positive_number "ip_version" p.ip_version (field (λ d. d.ip_version) default))
        (get_positive_number "packet_size" p.packet_size (field (λ d. d.packet_size) default))
        (get_positive_number "timeout" p.timeout (field (λ d. d.timeout) default))
        (others default p)

  -- The default is returned as it is where there are no parameters.
  unfoldable pub get_ping_parameters : Option Fields → Option Fields → Result ValueError Fields
  unfolding ping_parameters
  get_ping_parameters (some default) none = ok default
  get_ping_parameters none none = ping_parameters none none_given
  get_ping_parameters default (some p) = ping_parameters default p

  number_again :
      (name name' : String) (v : Option ℤ) (d : Option (Option ℤ)) (w : Option ℤ)
      → get_positive_number name v d ≡ ok w
      → get_positive_number name' none (some w) ≡ ok w
  unfolding get_positive_number
  number_again name name' none none w h = ground arith
  number_again name name' none (some none) w h = ground arith
  number_again name name' none (some (some (pos n))) w h = ground arith
  number_again name name' none (some (some (negsuc n))) w h = ground arith
  number_again name name' (some (pos n)) d w h = ground arith
  number_again name name' (some (negsuc n)) d w h = ground arith

  read_again : (a : Option PingAddress) → read_all (read_all a) ≡ read_all a
  read_again none = refl
  read_again (some (ip_address v a)) = refl
  read_again (some (host_name h)) = ground arith

  numbers_of :
      (default : Option Fields) (p q : Fields)
      → ping_parameters default p ≡ ok q
      → (get_positive_number "count" p.count (field (λ d. d.count) default) ≡ ok q.count)
        × (get_positive_number "deadline" p.deadline (field (λ d. d.deadline) default)
            ≡ ok q.deadline)
        × (get_positive_number "interval" p.interval (field (λ d. d.interval) default)
            ≡ ok q.interval)
        × (get_positive_number "ip_version" p.ip_version (field (λ d. d.ip_version) default)
            ≡ ok q.ip_version)
        × (get_positive_number "packet_size" p.packet_size (field (λ d. d.packet_size) default)
            ≡ ok q.packet_size)
        × (get_positive_number "timeout" p.timeout (field (λ d. d.timeout) default) ≡ ok q.timeout)
        × (q.host ≡ get_address p.host (field (λ d. d.host) default))
        × (q.source ≡ get_address p.source (field (λ d. d.source) default))
  unfolding ping_parameters others
  numbers_of default p q h = with_numbers_lem _ _ _ _ _ _ (others default p) q h

  -- Parameters that were merged with a default are a default that merging without parameters gives
  -- back: every number was checked and every address was read.
  pub ping_parameters_again :
      (default : Option Fields) (p q : Fields)
      → ping_parameters default p ≡ ok q
      → ping_parameters (some q) none_given ≡ ok q
  unfolding ping_parameters others get_address get_boolean get_string
  ping_parameters_again default p q h =
      let (e1, e2, e3, e4, e5, e6, a, b) = numbers_of default p q h in
      ground (
        arith,
        number_again "count" "count" p.count (field (λ d. d.count) default) q.count e1,
        number_again "deadline" "deadline" p.deadline (field (λ d. d.deadline) default) q.deadline
            e2,
        number_again "interval" "interval" p.interval (field (λ d. d.interval) default) q.interval
            e3,
        number_again "ip_version" "ip_version" p.ip_version (field (λ d. d.ip_version) default)
            q.ip_version e4,
        number_again "packet_size" "packet_size" p.packet_size (field (λ d. d.packet_size) default)
            q.packet_size e5,
        number_again "timeout" "timeout" p.timeout (field (λ d. d.timeout) default) q.timeout e6,
        a,
        b,
        read_again (or_default p.host (field (λ d. d.host) default)),
        read_again (or_default p.source (field (λ d. d.source) default)),
      )
