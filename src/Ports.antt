-- ===== src/Ports.antt =====
-- cli/src/domain/port_mapping.rs: the publish arguments of docker, and which of them labs contend for.
pub mod RoundTrip
mod Tests
use catallaxy.Prelude.{
  ℕ, Bool, true, false, Option, none, some, List, [], ◌∷◌, String, ◌<>◌, and_then, contains,
  decimal, split_at,
}

-- `str::parse` of the standard library at `u16`.
pub record Parser : Type 0 where
  pub parse_u16 : String → Option ℕ

pub record PortMapping : Type 0 where
  pub addr : Option String
  pub host : ℕ
  pub container : ℕ

abbrev pub shared : List String
shared = "0.0.0.0" ∷ "127.0.0.1" ∷ "::" ∷ "::1" ∷ "[::1]" ∷ []

unfoldable pub address_is_shared : Option String → Bool
address_is_shared none = true
address_is_shared (some a) = contains shared a

unfoldable pub is_host_reachable : PortMapping → Bool
is_host_reachable self = address_is_shared self.addr

-- `Iterator::next` on the pieces of a text.
abbrev next : List String → Option String
next [] = none
next (piece ∷ rest) = some piece

-- The address, the host port and the container port.
unfoldable pub ports_of : List String → Option (Option String × String × String)
ports_of (host ∷ container ∷ []) = some (none, host, container)
ports_of (addr ∷ host ∷ container ∷ []) = some (some addr, host, container)
ports_of _ = none

unfoldable pub show_port : PortMapping → String
show_port self = elim self.addr [
  | some addr ↦ addr <> (":" <> (decimal self.host <> (":" <> decimal self.container)))
  | none ↦ decimal self.host <> (":" <> decimal self.container)
]

module _ (p : Parser) where
  -- `PortMapping::parse`
  unfoldable pub parse_port : String → Option PortMapping
  unfolding ports_of
  parse_port mapping = and_then (next (split_at b'@' mapping)) λ publish.
      and_then (next (split_at b'/' publish)) λ head.
        and_then (ports_of (split_at b':' head)) λ ports. and_then (p.parse_u16 ports.1) λ host.
          and_then (p.parse_u16 ports.2)
            λ container. some (record { addr = ports.0; host = host; container = container })

  unfoldable pub contends_across_labs : String → Bool
  unfolding parse_port
  contends_across_labs mapping = elim (parse_port mapping) [
    | none ↦ true
    | some m ↦ address_is_shared m.addr
  ]

  unfoldable pub host_port_of : String → Option ℕ
  unfolding parse_port
  host_port_of mapping = elim (parse_port mapping) [ none ↦ none | some m ↦ some m.host ]
