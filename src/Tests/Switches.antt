-- ===== src/Tests/Switches.antt =====
-- The switch element.
use buffalo.BfSwitch.Broadcast.{port_of, originals, other_ports, broadcast-ports}
use buffalo.BfSwitch.{broadcast}
use buffalo.Common.{◌≡◌, arith, map, min, Returns}

broadcast-ports_example :
    Returns
      (λ sends. (map port_of sends ≡ other_ports 2 4 0) × (originals sends ≡ min 1 3))
      (broadcast 4 2)
broadcast-ports_example = broadcast-ports 4 2 (omega arith)
