-- ===== src/Dns.antt =====
-- internal/dns/server.go. The library's parts are parameters: the sorting by a comparison, the
-- reverse name of an address, and the exchange with an upstream server.
pub mod Names
pub mod Sorting
pub mod Zones
pub mod Wildcards
pub mod Answers
pub mod Tests
use auto_pxe.Prelude.{
  ℕ, Bool, true, false, ◌&&◌, ◌||◌, not, Option, none, some, List, [], ◌∷◌, ◌++◌, if◌then◌else◌,
  Text, codes, to_lower, is_empty, trim, trim_suffix, has_suffix, has_byte, cut, lookup, insert,
  length, ltb, text_eq, text_beq, ◌=?◌, ◌==◌, ◌>>=◌, map,
}
use auto_pxe.Net.Ip.{Ip, to_4, ip_string}
use auto_pxe.Config.{Static, Wildcard, DnsStatic, Dns, Config}
use auto_pxe.Lease.{Allocator, Lease}
use auto_pxe.Lease.Ops.{lookup_lease}
use auto_pxe.State.{Tracker, is_deployed}

-- `net.SplitHostPort` of a text succeeds.
unfoldable pub has_port : Text → Bool
unfolding cut has_byte
has_port [] = false
has_port (c ∷ s) = if c == b'[' then bracketed (cut b']' s) else plain (cut b':' (c ∷ s))
  where
    bracketed : Option (Text × Text) → Bool
    bracketed (some (host, d ∷ port)) =
        d == b':' && not (has_byte b':' port || (has_byte b'[' s || has_byte b']' port))
    bracketed _ = false

    plain : Option (Text × Text) → Bool
    plain none = false
    plain (some (host, port)) =
        not (has_byte b':' port || (has_byte b'[' (c ∷ s) || has_byte b']' (c ∷ s)))

-- `net.JoinHostPort`
unfoldable pub join_host_port : Text → Text → Text
unfolding has_byte
join_host_port host port =
    if has_byte b':' host then b'[' ∷ (host ++ b']' ∷ b':' ∷ port) else host ++ b':' ∷ port

unfoldable pub ensure_port : Text → Text
unfolding has_port join_host_port
ensure_port addr = if has_port addr then addr else join_host_port addr (codes "53")

pub record WildcardEntry : Type 0 where
  pub suffix : Text
  pub upstream : List Text

-- `Server`, without the clients and listeners.
pub record Server : Type 0 where
  pub cfg : Config
  pub static_a : List (Text × Ip)
  pub static_ptr : List (Text × Text)
  pub wildcards : List WildcardEntry
  pub upstreams : List Text

-- `fqdn`, for the configured domain.
unfoldable pub fqdn : Text → Text → Text
unfolding to_lower trim trim_suffix has_byte is_empty
fqdn domain name =
    let lower = to_lower (trim_suffix (codes ".") name) in
    (if not (is_empty domain) && not (has_byte b'.' lower)
      then lower ++ b'.' ∷ to_lower (trim b'.' domain)
      else lower)
    ++ codes "."

-- The loop over `cfg.DNS.Static`, on the two maps.
unfoldable pub static_records :
    (Text → Option Text)
    → Text
    → List DnsStatic
    → List (Text × Ip) × List (Text × Text)
    → List (Text × Ip) × List (Text × Text)
unfolding fqdn to_lower
static_records reverse_addr domain [] maps = maps
static_records reverse_addr domain (s ∷ ss) (a, ptr) =
    let name = fqdn domain s.name in
    static_records reverse_addr domain ss (
      insert name s.parsed_ip a,
      elim (reverse_addr (ip_string s.parsed_ip)) [
        | none ↦ ptr
        | some arpa ↦ insert (to_lower arpa) name ptr
      ],
    )

unfoldable pub wildcard_entries : List Wildcard → List WildcardEntry
unfolding to_lower trim is_empty ensure_port
wildcard_entries [] = []
wildcard_entries (w ∷ ws) =
    let suffix = to_lower (trim b'.' w.suffix) in
    let rest = wildcard_entries ws in
    if is_empty suffix
    then rest
    else record { suffix = b'.' ∷ (suffix ++ b'.' ∷ []); upstream = map ensure_port w.upstream }
      ∷ rest

-- The comparison that `sort.Slice` is given: the longer suffix comes first.
unfoldable pub comes_before : WildcardEntry → WildcardEntry → Bool
comes_before v w = ltb (length w.suffix) (length v.suffix)

-- `sort.Slice`, for any comparison.
abbrev pub Sort : Type 0
Sort = (WildcardEntry → WildcardEntry → Bool) → List WildcardEntry → List WildcardEntry

-- `New`
unfoldable pub new_server : (Text → Option Text) → Sort → Config → Server
unfolding static_records wildcard_entries ensure_port
new_server reverse_addr sort cfg =
    let maps = static_records reverse_addr cfg.dns.domain cfg.dns.static ([], []) in
    record {
      cfg = cfg;
      static_a = maps.0;
      static_ptr = maps.1;
      wildcards = sort comes_before (wildcard_entries cfg.dns.wildcards);
      upstreams = map ensure_port cfg.dns.upstream;
    }

unfoldable pub entry_matches : Text → WildcardEntry → Bool
unfolding has_suffix trim_suffix trim text_beq
entry_matches qname w =
    has_suffix w.suffix qname || text_beq (trim_suffix (codes ".") qname) (trim b'.' w.suffix)

-- The loop of `upstreamsFor`.
unfoldable pub first_match : Text → List WildcardEntry → List Text → List Text
unfolding entry_matches
first_match qname [] default = default
first_match qname (w ∷ ws) default =
    let rest = first_match qname ws default in if entry_matches qname w then w.upstream else rest

unfoldable pub upstreams_for : Text → Server → List Text
unfolding first_match
upstreams_for qname s = first_match qname s.wildcards s.upstreams

abbrev pub is_set : Option Bool → Bool
is_set none = false
is_set (some b) = b

module _ (now : ℕ) (tracker : Tracker) (leaser : Allocator) where
  -- The lease of a binding's machine, if it has a name and is deployed.
  unfoldable pub deployed_lease : Static → Option Lease
  unfolding is_empty is_deployed lookup_lease
  deployed_lease st =
      if is_empty st.hostname || not (is_deployed st.mac tracker)
      then none
      else lookup_lease now st.mac leaser

module _ (now : ℕ) (tracker : Tracker) (leaser : Allocator) (domain : Text) where
  unfoldable pub deployed_a : Text → List Static → Option Ip
  unfolding deployed_lease fqdn text_beq
  deployed_a qname [] = none
  deployed_a qname (st ∷ sts) =
      let rest = deployed_a qname sts in
      if text_beq (fqdn domain st.hostname) qname
      then elim (deployed_lease now tracker leaser st) [ none ↦ rest | some l ↦ some l.ip ]
      else rest

  unfoldable pub deployed_ptr : (Text → Option Text) → Text → List Static → Option Text
  unfolding deployed_lease fqdn text_beq to_lower
  deployed_ptr reverse_addr qname [] = none
  deployed_ptr reverse_addr qname (st ∷ sts) =
      let rest = deployed_ptr reverse_addr qname sts in
      let arpa = deployed_lease now tracker leaser st >>= λ l. reverse_addr (ip_string l.ip) in
      elim arpa [
        | none ↦ rest
        | some name ↦
            if text_beq (to_lower name) qname then some (fqdn domain st.hostname) else rest
      ]

unfoldable pub local_a : ℕ → Tracker → Allocator → Text → Server → Option Ip
unfolding deployed_a lookup
local_a now tracker leaser qname s = elim (lookup qname s.static_a) [
  | some ip ↦ some ip
  | none ↦
      if is_set s.cfg.dns.register_deployed
      then deployed_a now tracker leaser s.cfg.dns.domain qname s.cfg.dhcp.static
      else none
]

unfoldable pub local_ptr :
    ℕ → Tracker → Allocator → (Text → Option Text) → Text → Server → Option Text
unfolding deployed_ptr lookup
local_ptr now tracker leaser reverse_addr qname s = elim (lookup qname s.static_ptr) [
  | some name ↦ some name
  | none ↦
      if is_set s.cfg.dns.register_deployed
      then deployed_ptr now tracker leaser s.cfg.dns.domain reverse_addr qname s.cfg.dhcp.static
      else none
]

-- A message from an upstream server.
pub record Reply : Type 0 where
  pub id : ℕ
  pub is_truncated : Bool
  pub content : Text

module _ (exchange : Bool → Text → Option (Option Reply)) (tcp : Bool) where
  -- After a truncated answer over UDP; an error keeps that answer.
  unfoldable pub retried : Text → Option Reply → Option Reply
  retried u none = none
  retried u (some r) =
      if not tcp && r.is_truncated
      then elim (exchange true u) [ none ↦ some r | some r2 ↦ r2 ]
      else some r

  -- The answer of one upstream. An `exchange` is an error, or a message that may be nil.
  unfoldable pub ask : Text → Option Reply
  unfolding retried
  ask u = do r ← exchange tcp u; retried u r

  -- The loop of `forward`: the message to write; `none` is an error.
  unfoldable pub forward : ℕ → List Text → Option Reply
  unfolding ask
  forward id [] = none
  forward id (u ∷ us) = elim (ask u) [ none ↦ forward id us | some r ↦ some (record r { id = id }) ]

pub data QType : Type 0 where
  type_a type_aaaa type_ptr : QType
  other_type : ℕ → QType

pub record Question : Type 0 where
  pub name : Text
  pub qtype : QType

-- What is written in reply to a question.
pub data Message : Type 0 where
  refused name_error server_failure : Message
  a_record : Text → Ip → ℕ → Message
  ptr_record : Text → Text → ℕ → Message
  forwarded : Reply → Message

module _ (reverse_addr : Text → Option Text) (exchange : Bool → Text → Option (Option Reply))
    (now : ℕ) (tracker : Tracker) (leaser : Allocator) (s : Server) where
  -- The server's own answer to a question.
  unfoldable pub local_answer : Question → Option Message
  unfolding local_a local_ptr to_lower to_4
  local_answer q = elim q.qtype [
    | type_a ↦ do
      ip ← local_a now tracker leaser (to_lower q.name) s
      some (a_record q.name (to_4 ip) s.cfg.dns.ttl)
    | type_ptr ↦ do
      name ← local_ptr now tracker leaser reverse_addr (to_lower q.name) s
      some (ptr_record q.name name s.cfg.dns.ttl)
    | _ ↦ none
  ]

  -- The messages that the rest of `handle` writes; `writes` says whether the first write succeeds.
  unfoldable pub after_forward : Bool → Option Reply → List Message
  after_forward writes none = server_failure ∷ []
  after_forward writes (some r) =
      if writes then forwarded r ∷ [] else forwarded r ∷ server_failure ∷ []

  unfoldable pub forward_question : Bool → Bool → ℕ → List Text → List Message
  unfolding forward after_forward
  forward_question tcp writes id [] = name_error ∷ []
  forward_question tcp writes id (u ∷ us) = after_forward writes (forward exchange tcp id (u ∷ us))

  -- `handle`: the first question decides.
  unfoldable pub handle : Bool → Bool → ℕ → List Question → List Message
  unfolding local_answer upstreams_for forward_question to_lower
  handle tcp writes id [] = refused ∷ []
  handle tcp writes id (q ∷ qs) = elim (local_answer q) [
    | some m ↦ m ∷ []
    | none ↦ forward_question tcp writes id (upstreams_for (to_lower q.name) s)
  ]
