-- ===== src/Tests/Ports.antt =====
-- The allocator of internal/services/allocator.go and the hints of proxy.go on small ranges.
use piccolod.Common.{arith}
use piccolod.Services.Allocator.{
  PortRange, PortAllocator, new_ports, new_port_allocator, allocate, allocate_pair,
}
use piccolod.Services.Allocator.Grants.{Allocates, allocate-Allocates, new_ports-IsWellFormed}
use piccolod.Services.Allocator.Pairs.{Pairs, allocate_pair-Pairs, new_port_allocator-IsSound}

-- Three ports.
abbrev few : PortRange
few = record { start = 7; stop = 9 }

abbrev one : PortRange
one = record { start = 4; stop = 4 }

allocate-Allocates_example : Allocates (new_ports few) (allocate (new_ports few))
allocate-Allocates_example =
    allocate-Allocates (new_ports few) (new_ports-IsWellFormed few (omega arith))

abbrev pair : PortAllocator
unfolding new_port_allocator
pair = new_port_allocator few one

allocate_pair-Pairs_example : Pairs pair (allocate_pair pair)
unfolding pair new_port_allocator
allocate_pair-Pairs_example =
    allocate_pair-Pairs pair (new_port_allocator-IsSound few one (omega arith) (omega arith))
