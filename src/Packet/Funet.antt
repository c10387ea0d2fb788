-- ===== src/Packet/Funet.antt =====
-- packet.cc: the branch for FUNET, whose statements are those of the reader of flat.cc.
use buffalo.Common.{◌≡◌, List, Option, each, Returns}
use buffalo.Fib.Globals.{FunetRow}
use buffalo.Flat.Lines.{kept_lines, read_funet-out}
use buffalo.Flat.{Table, no_routes, read_funet}

-- The tables, and the lines of packets.txt as `out`.
unfoldable pub packet_funet : List FunetRow → Option Table
unfolding read_funet
packet_funet rows = each rows read_funet no_routes

-- The reading ends, and packets.txt has the rows of length 24 in their order.
packet_funet-out :
    (rows : List FunetRow) → Returns (λ t. t.out ≡ kept_lines rows) (packet_funet rows)
unfolding packet_funet no_routes
packet_funet-out rows = let (t, run, (out, index)) = read_funet-out rows no_routes in (t, run, out)
