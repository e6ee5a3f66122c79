-- ===== src/Services/Allocator.antt =====
-- internal/services/allocator.go: host-bind and public ports, each handed out of its own range.
-- The two directions of `PortAllocator` have the same code on fields of their own, so the record is
-- two copies of one `Ports`. A port is a number; no port of the program is negative.
pub mod Scan
pub mod Grants
pub mod Pairs
use piccolod.Common.{
  ℕ, zero, suc, ◌+◌, true, false, ◌||◌, [], Eq-nat, ltb, leb, ◌==◌, Result, ok, err, if◌then◌else◌,
}
use piccolod.Common.Map.{Map, contains, insert, delete}

-- types.go: both ends belong to the range. `stop` is the field End.
pub record PortRange : Type 0 where
  pub start : ℕ
  pub stop : ℕ

-- hostBindRange, nextHostBind, usedHost; or publicRange, nextPublic, usedPublic.
pub record Ports : Type 0 where
  pub range : PortRange
  pub open range use *
  pub next : ℕ
  pub used : Map ℕ (Unit {0})

pub record PortAllocator : Type 0 where
  pub host : Ports
  pub public : Ports

-- `no_return` is no error of the program: it marks a search that would never return.
pub data PortError : Type 0 where
  no_ports outside_range already_reserved no_return : PortError

unfoldable pub new_ports : PortRange → Ports
new_ports r = record { range = r; next = r.start; used = [] }

unfoldable pub new_port_allocator : PortRange → PortRange → PortAllocator
unfolding new_ports
new_port_allocator h p = record { host = new_ports h; public = new_ports p }

unfoldable pub next_in_range : ℕ → PortRange → ℕ
next_in_range current r = if ltb r.stop current then r.start else current

-- How the search for a port ends. `spinning` is a search that is still going when its fuel is out.
pub data Search : Type 0 where
  found : ℕ → Search
  exhausted spinning : Search

-- The loop of allocateHost and allocatePublic, at the candidate `port` of a search from `first`.
unfoldable pub search_from : ℕ → Ports → ℕ → ℕ → Search
search_from zero s first port = spinning
search_from (suc fuel) s first port = elim (contains port s.used) [
  | false ↦ found port
  | true ↦
      let following = next_in_range (port + 1) s.range in
      elim (following == first) [ true ↦ exhausted | false ↦ search_from fuel s first following ]
]

-- Marks a port as used and moves the hint behind it, as allocation and reservation both do.
unfoldable pub mark_used : Ports → ℕ → Ports
mark_used s port = record s {
  used = insert port tt s.used;
  next = if leb s.next port then port + 1 else s.next;
}

unfoldable pub finish : Ports → Search → Result PortError ℕ × Ports
finish s (found port) = (ok port, mark_used s port)
finish s exhausted = (err no_ports, s)
finish s spinning = (err no_return, s)

-- allocateHost and allocatePublic. One round of fuel for each number up to the end of the range.
unfoldable pub allocate : Ports → Result PortError ℕ × Ports
unfolding finish
allocate s =
    let first = next_in_range s.next s.range in finish s (search_from (suc s.stop) s first first)

pub reserve : Ports → ℕ → Result PortError Ports
reserve s port =
    if ltb port s.start || ltb s.stop port
    then err outside_range
    else if contains port s.used
    then err already_reserved
    else ok (mark_used s port)

-- freeHost and freePublic
pub free : Ports → ℕ → Ports
free s port = record s {
  used = delete port s.used;
  next = if ltb port s.next then port else s.next;
}

unfoldable pub pair_public :
    ℕ → Ports → Result PortError ℕ × Ports → Result PortError (ℕ × ℕ) × PortAllocator
pair_public hb host (ok pp, public) = (ok (hb, pp), record { host = host; public = public })
pair_public hb host (err e, public) = (err e, record { host = free host hb; public = public })

unfoldable pub pair_host :
    PortAllocator → Result PortError ℕ × Ports → Result PortError (ℕ × ℕ) × PortAllocator
unfolding pair_public
pair_host a (ok hb, host) = pair_public hb host (allocate a.public)
pair_host a (err e, host) = (err e, record a { host = host })

-- AllocatePair: the host port goes back if there is no public one.
unfoldable pub allocate_pair : PortAllocator → Result PortError (ℕ × ℕ) × PortAllocator
unfolding pair_host
allocate_pair a = pair_host a (allocate a.host)

pub with_host : PortAllocator → Result PortError Ports → Result PortError PortAllocator
with_host a (ok host) = ok (record a { host = host })
with_host a (err e) = err e

pub reserve_host : PortAllocator → ℕ → Result PortError PortAllocator
unfolding with_host
reserve_host a port = with_host a (reserve a.host port)

pub allocate_public : PortAllocator → Result PortError ℕ × PortAllocator
allocate_public a = let (r, public) = allocate a.public in (r, record a { public = public })

pub free_host : PortAllocator → ℕ → PortAllocator
free_host a port = record a { host = free a.host port }

pub release_host : PortAllocator → ℕ → PortAllocator
unfolding free_host
release_host a port = if ltb 0 port then free_host a port else a

pub release_public : PortAllocator → ℕ → PortAllocator
release_public a port = if ltb 0 port then record a { public = free a.public port } else a

pub release : PortAllocator → ℕ → ℕ → PortAllocator
unfolding release_host release_public
release a host public = release_public (release_host a host) public
