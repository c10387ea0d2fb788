-- ===== src/Click/Funet.antt =====
-- click.cc: what is written in the branch for FUNET.
use buffalo.Click.{ClickScheme, funet_row, table_end, opening, source, ports, click_funet}
use buffalo.Common.{◌≡◌, refl, List, [], ◌∷◌, ◌++◌, map, Returns, ◌>>=◌}
use buffalo.Fib.Globals.{FunetRow}
use buffalo.Flat.Lines.{kept_lines, read_funet-out}
use buffalo.Flat.{no_routes}

-- The program ends with a configuration that has the rows of length 24 and no port.
click_funet-lines :
    (clickscheme : ClickScheme) (rows : List FunetRow)
    → Returns
        (λ lines.
          lines
          ≡ opening clickscheme
            ++ (map funet_row (kept_lines rows) ++ (table_end ∷ (source clickscheme ++ []))))
        (click_funet clickscheme rows)
unfolding click_funet no_routes ports
click_funet-lines clickscheme rows =
    let (t, run, (out, index)) = read_funet-out rows no_routes in
    (
      opening clickscheme
          ++ (map funet_row t.out
              ++ (table_end ∷ (source clickscheme ++ ports clickscheme t.index 0))),
      rw (run, ◌>>=◌) refl,
      rw (out, index) refl,
    )
